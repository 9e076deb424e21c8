-- ===== src/Fog/Server/Possessing.antt =====
-- /register/pop keeps the context sound.
use blockchain_io_t_a.Common.Crypto.{Crypto}
use blockchain_io_t_a.Common.Schemas.{PopRequest}
use blockchain_io_t_a.Fog.Context.{FogContext}
use blockchain_io_t_a.Fog.Pop.{verify_pop}
use blockchain_io_t_a.Fog.Pop.Possession.{verify_pop-once}
use blockchain_io_t_a.Fog.Registration.{pending_record, register_pop, require_state, session_or_404}
use blockchain_io_t_a.Fog.Server.Keys.{insert-IsStore}
use blockchain_io_t_a.Fog.Server.Proving.{inactive-Joins, proven-AreApart, same-Joins}
use blockchain_io_t_a.Fog.Server.Registering.{get_session-some, got_session, saved, saved-IsSound}
use blockchain_io_t_a.Fog.Server.Sessions.{Joins}
use blockchain_io_t_a.Fog.Server.Sound.{IsSound, KeepsKeys-IsKeeping}
use blockchain_io_t_a.Prelude.{
  Bool-cases, Option-cases, Result-cases, arith, inl, inr, nat_eq, none, refl, some, text_beq_iff,
  text_eq, true, ℕ, ◌∙◌, ◌≡◌,
}
use blockchain_io_t_a.Prelude.Dict.{insert, lookup, lookup-insert, lookup-insert_self}
use blockchain_io_t_a.Prelude.Text.{Str, codes}
use blockchain_io_t_a.Storage.{
  Session, authenticated, get_session, key_submitted, pop_verified, state_eq, upsert,
}

-- verify_pop only marks the challenge.
verify_pop-marks :
    (c : Crypto) (s : Session) (signature_hex : Str) (now : ℕ)
    → let t = (verify_pop c s signature_hex now).1 in
      (t.session_id ≡ s.session_id)
      × (t.did ≡ s.did)
      × (t.public_key ≡ s.public_key)
      × (t.state ≡ s.state)
unfolding verify_pop
verify_pop-marks c s signature_hex now = (ground arith, ground arith, ground arith, ground arith)

module _ (c : Crypto) (ctx : FogContext) (body : PopRequest) (now now' now'' : ℕ) where
  abbrev pub used_session : Session → Session
  used_session s = (verify_pop c s body.signature now').1

  abbrev pub refused_session : Session → Session
  refused_session s = record (used_session s) { state = authenticated }

  abbrev pub proven_session : Session → Session
  proven_session s = record (used_session s) {
    state = pop_verified;
    timings = insert (codes "pop_verified_at") now'' (used_session s).timings;
  }

  -- What is left after the request.
  pub data PopLeaves (after : FogContext) : Type 0 where
    pop_untouched :
        after ≡ record ctx { sessions = (get_session ctx.sessions body.session_id now).1 }
        → PopLeaves after
    pop_spent :
        (s : Session)
        → (get_session ctx.sessions body.session_id now).0 ≡ some s
        → state_eq s.state key_submitted ≡ true
        → after ≡ saved ctx body.session_id (used_session s)
        → PopLeaves after
    pop_turned_down :
        (s : Session)
        → (get_session ctx.sessions body.session_id now).0 ≡ some s
        → state_eq s.state key_submitted ≡ true
        → after
          ≡ saved (saved ctx body.session_id (used_session s)) body.session_id (refused_session s)
        → PopLeaves after
    pop_granted :
        (s : Session) (did text : Str)
        → (get_session ctx.sessions body.session_id now).0 ≡ some s
        → state_eq s.state key_submitted ≡ true
        → s.did ≡ some did
        → s.public_key ≡ some text
        → after
          ≡ record (saved
              (saved ctx body.session_id (used_session s))
              body.session_id
              (proven_session s)) { devices = insert did (pending_record did text) ctx.devices }
        → PopLeaves after

  pub register_pop-PopLeaves : PopLeaves (register_pop c body now now' now'' ctx).1
  unfolding register_pop session_or_404 require_state upsert
  register_pop-PopLeaves = elim (Option-cases (get_session ctx.sessions body.session_id now).0) [
    | inl missing ↦ pop_untouched (ground arith)
    | inr (s, got) ↦
        let (there, kept) = get_session-some ctx.sessions body.session_id now s got in
        elim (Bool-cases (state_eq s.state key_submitted)) [
          | inr wrong ↦ pop_untouched (ground arith)
          | inl step ↦ elim (Result-cases (verify_pop c s body.signature now').0) [
            | inr (x, raised) ↦ pop_spent s got step (ground arith)
            | inl (some why, refused) ↦ pop_turned_down s got step (ground arith)
            | inl (none, good) ↦
                let once = verify_pop-once c s body.signature now' (used_session s) _ refl in
                let (challenge, did, pk, said, signature, w) = once.0 good in
                let (text, has_key, is_key) = w.key_hex in
                let same_did : (used_session s).did ≡ some did = once.3 ∙ w.session_did in
                let key_kept : (used_session s).public_key ≡ some text = once.4 ∙ has_key in
                pop_granted s did text got step w.session_did has_key (ground arith)
          ]
        ]
  ]

module _ (c : Crypto) (ctx : FogContext) (body : PopRequest) (now now' now'' : ℕ)
    (w : IsSound c ctx) where
  used-Joins :
      (s : Session)
      → lookup body.session_id ctx.sessions.sessions ≡ some s
      → Joins ctx.sessions.sessions ctx.devices body.session_id
          (used_session c ctx body now now' now'' s)
  used-Joins s there =
      let (id, did, key, step) = verify_pop-marks c s body.signature now' in
      same-Joins ctx.sessions.sessions ctx.devices body.session_id s _ w.sessions there id did key
        (ground arith) (ground arith)

  pub register_pop-IsSound : IsSound c (register_pop c body now now' now'' ctx).1
  register_pop-IsSound =
      let id = body.session_id in
      elim (register_pop-PopLeaves c ctx body now now' now'') [
        | pop_untouched after ↦ rw after (got_session c ctx w body.session_id now)
        | pop_spent s got step after ↦
            let (there, kept) = get_session-some ctx.sessions body.session_id now s got in
            rw after (saved-IsSound c ctx w body.session_id _ (used-Joins s there))
        | pop_turned_down s got step after ↦
            let (there, kept) = get_session-some ctx.sessions id now s got in
            let (same_id, _, _, _) = verify_pop-marks c s body.signature now' in
            let used = used_session c ctx body now now' now'' s in
            let ctx1 = saved ctx id used in
            rw after (
              saved-IsSound c ctx1 (saved-IsSound c ctx w id used (used-Joins s there)) id _ (
                inactive-Joins ctx1.sessions.sessions ctx.devices id _
                  (same_id ∙ w.sessions.ids id s there) refl))
        | pop_granted s did text got step has key after ↦
            let (there, kept) = get_session-some ctx.sessions id now s got in
            let (same_id, same_did, key_kept, step_kept) =
              verify_pop-marks c s body.signature now' in
            let used = used_session c ctx body now now' now'' s in
            let ctx1 = saved ctx id used in
            let w1 = saved-IsSound c ctx w id used (used-Joins s there) in
            let rec = pending_record did text in
            let unknown = w.sessions.unclaimed id s did there step has in
            rw after (record {
              store =
                  insert-IsStore c ctx.devices did rec w.store (refl, λ r. absurd (ground arith));
              sessions =
                  proven-AreApart ctx1.sessions.sessions ctx.devices id used
                    (proven_session c ctx body now now' now'' s) rec w1.sessions
                    (lookup-insert_self id used ctx.sessions.sessions) (ground arith)
                    (same_did ∙ has) (same_id ∙ w.sessions.ids id s there) refl (same_did ∙ has)
                    (key_kept ∙ key);
              keeping =
                  KeepsKeys-IsKeeping c ctx.signing_key ctx.devices (insert did rec ctx.devices)
                    ctx.epochs ctx.ledger
                    (λ k other has_k.
                      ground (arith, lookup-insert did k rec ctx.devices, text_beq_iff k did))
                    w.keeping;
            })
      ]
