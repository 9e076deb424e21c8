-- ===== src/Fog/Server/Registering.antt =====
-- Registration keeps the sessions apart and the queue sound.
use blockchain_io_t_a.Common.Crypto.{Crypto}
use blockchain_io_t_a.Common.Schemas.{PublicKeyRequest}
use blockchain_io_t_a.Epochs.Batch.{free}
use blockchain_io_t_a.Fog.Context.{FogContext, Outcome, crash, done, http, is_done}
use blockchain_io_t_a.Fog.Pop.{issue_challenge}
use blockchain_io_t_a.Fog.Registration.{
  register_start, ChallengeResponse, register_pubkey, require_state, session_or_404,
}
use blockchain_io_t_a.Fog.Server.Sessions.{
  AreApart, Joins, erase-AreApart, insert-AreApart, is_active,
}
use blockchain_io_t_a.Fog.Server.Sound.{IsSound}
use blockchain_io_t_a.Prelude.{
  Bool-cases, Option, Option-cases, arith, false, inl, inr, ltb, nat_eq, none, refl, some,
  text_beq_refl, text_eq, true, ℕ, ◌+◌, ◌==◌, ◌≡◌, ◌≢◌, ◌⊎◌,
}
use blockchain_io_t_a.Prelude.Dict.{erase, insert, lookup}
use blockchain_io_t_a.Prelude.Text.{Bytes, Str}
use blockchain_io_t_a.Psk.{parse_authorization}
use blockchain_io_t_a.Storage.{
  uses_did, DeviceStore, Session, SessionStore, create_session, did_in_use, get_session,
  key_submitted,
}
use blockchain_io_t_a.Storage.Expired.{any-lookup}

-- A handler answers, or it does not.
pub Outcome-cases :
    {A : Type 0} (r : Outcome A × FogContext) → ((a : A) × (r.0 ≡ done a)) ⊎ (is_done r.0 ≡ false)
Outcome-cases (done a, ctx) = inl (a, refl)
Outcome-cases (http status detail, ctx) = inr refl
Outcome-cases (crash x, ctx) = inr refl

pub get_session-some :
    (store : SessionStore) (id : Str) (now : ℕ) (s : Session)
    → (get_session store id now).0 ≡ some s
    → (lookup id store.sessions ≡ some s) × ((get_session store id now).1 ≡ store)
unfolding get_session
get_session-some store id now s h = ground arith

pub get_session-AreApart :
    (store : SessionStore) (devices : DeviceStore) (id : Str) (now : ℕ)
    → AreApart store.sessions devices
    → AreApart (get_session store id now).1.sessions devices
unfolding get_session
get_session-AreApart store devices id now w = elim (Option-cases (lookup id store.sessions)) [
  | inl missing ↦ let same : (get_session store id now).1 ≡ store = ground arith in rw same w
  | inr (s, there) ↦ elim (Bool-cases (ltb (s.created_at + store.ttl) now)) [
    | inl late ↦
        let same : (get_session store id now).1
            ≡ record store { sessions = erase id store.sessions } =
          ground arith in
        rw same (erase-AreApart store.sessions devices id w)
    | inr live ↦ let same : (get_session store id now).1 ≡ store = ground arith in rw same w
  ]
]

did_in_use-other :
    (store : SessionStore) (did own : Str) (j : Str) (t : Session)
    → did_in_use store did own ≡ false
    → lookup j store.sessions ≡ some t
    → t.session_id ≡ j
    → (j == own) ≡ false
    → is_active t ≡ true
    → t.did ≢ some did
unfolding did_in_use uses_did
did_in_use-other store did own j t free there id other act has =
    let counted : uses_did did own t ≡ true =
      unfold uses_did in ground (arith, text_beq_refl did) in
    let used = any-lookup (uses_did did own) j t store.sessions there counted in
    absurd (ground arith)

-- The context after a session is saved.
abbrev pub saved : FogContext → Str → Session → FogContext
saved ctx id s = record ctx {
  sessions = record ctx.sessions { sessions = insert id s ctx.sessions.sessions };
}

module _ (c : Crypto) (ctx : FogContext) (w : IsSound c ctx) where
  -- With the sessions changed and all else as it was.
  with_sessions :
      (sessions : SessionStore)
      → AreApart sessions.sessions ctx.devices
      → IsSound c (record ctx { sessions = sessions })
  with_sessions sessions apart = record { store = w.store; sessions = apart; keeping = w.keeping }

  pub got_session :
      (id : Str) (now : ℕ)
      → IsSound c (record ctx { sessions = (get_session ctx.sessions id now).1 })
  got_session id now =
      with_sessions (get_session ctx.sessions id now).1
        (get_session-AreApart ctx.sessions ctx.devices id now w.sessions)

  pub saved-IsSound :
      (id : Str) (t : Session)
      → Joins ctx.sessions.sessions ctx.devices id t
      → IsSound c (saved ctx id t)
  saved-IsSound id t joined =
      with_sessions (record ctx.sessions { sessions = insert id t ctx.sessions.sessions })
        (insert-AreApart ctx.sessions.sessions ctx.devices id t w.sessions joined)

  pub register_start-IsSound :
      (authorization : Option Str) (fresh : Str) (now : ℕ)
      → IsSound c (register_start c authorization fresh now ctx).1
  unfolding register_start create_session
  register_start-IsSound authorization fresh now =
      let r = register_start c authorization fresh now ctx in
      elim (Outcome-cases r) [
        | inr refused ↦ let same : r.1 ≡ ctx = ground arith in rw same w
        | inl (a, done_so) ↦ elim (Option-cases (parse_authorization authorization)) [
          | inl bad ↦ absurd (ground arith)
          | inr ((provisioning_id, psk), good) ↦
              let (s, store) = create_session ctx.sessions provisioning_id fresh now in
              let after : r.1 ≡ record ctx { sessions = store } = ground arith in
              rw after (
                with_sessions store (
                  insert-AreApart ctx.sessions.sessions ctx.devices fresh s w.sessions (record {
                    own_id = refl;
                    alone = λ j t did other there act_t act_s has. absurd (ground arith);
                    not_yet = λ did step has. absurd (ground arith);
                    by_now = λ did proven has. absurd (ground arith);
                  })))
        ]
      ]

  abbrev challenged_session : Session → PublicKeyRequest → Bytes → ℕ → Session
  challenged_session s body random now' =
      let submitted = record s { did = some body.did; public_key = some body.public_key } in
      record (issue_challenge submitted ctx.challenge_ttl random now') { state = key_submitted }

  register_pubkey-done :
      (body : PublicKeyRequest) (random : Bytes) (now now' : ℕ) (a : ChallengeResponse)
      → (register_pubkey c body random now now' ctx).0 ≡ done a
      → (s : Session) × ((get_session ctx.sessions body.session_id now).0 ≡ some s)
        × (lookup body.did ctx.devices ≡ none)
        × (did_in_use ctx.sessions body.did s.session_id ≡ false)
        × ((register_pubkey c body random now now' ctx).1 ≡ record ctx {
          sessions = record ctx.sessions {
            sessions =
                insert body.session_id
                  (challenged_session s body random now')
                  ctx.sessions.sessions;
          };
        })
  unfolding register_pubkey session_or_404 require_state
  register_pubkey-done body random now now' a h =
      elim (Option-cases (get_session ctx.sessions body.session_id now).0) [
        | inl missing ↦ absurd (ground arith)
        | inr (s, got) ↦
            let (there, kept) = get_session-some ctx.sessions body.session_id now s got in
            (s, got, ground arith, ground arith, ground arith)
      ]

  challenged-Joins :
      (s : Session) (body : PublicKeyRequest) (random : Bytes) (now' : ℕ)
      → s.session_id ≡ body.session_id
      → lookup body.did ctx.devices ≡ none
      → did_in_use ctx.sessions body.did s.session_id ≡ false
      → Joins ctx.sessions.sessions ctx.devices body.session_id
          (challenged_session s body random now')
  unfolding issue_challenge
  challenged-Joins s body random now' own unknown unused = record {
    own_id = own;
    alone = λ j t did other at_j act_t act_s has.
        let is_did : body.did ≡ did = ground arith in
        rw (← is_did) (
          did_in_use-other ctx.sessions body.did s.session_id j t unused at_j
            (w.sessions.ids j t at_j) (rw own other) act_t);
    not_yet = λ did step has. ground arith;
    by_now = λ did proven has. absurd (ground arith);
  }

  pub register_pubkey-IsSound :
      (body : PublicKeyRequest) (random : Bytes) (now now' : ℕ)
      → IsSound c (register_pubkey c body random now now' ctx).1
  register_pubkey-IsSound body random now now' =
      let r = register_pubkey c body random now now' ctx in
      let id = body.session_id in
      elim (Outcome-cases r) [
        | inr refused ↦
            let same : r.1 ≡ record ctx { sessions = (get_session ctx.sessions id now).1 } =
              unfold register_pubkey session_or_404 require_state in ground arith in
            rw same (got_session id now)
        | inl (a, done_so) ↦
            let (s, got, unknown, unused, after) =
              register_pubkey-done body random now now' a done_so in
            let (there, kept) = get_session-some ctx.sessions id now s got in
            let joined =
              challenged-Joins s body random now' (w.sessions.ids id s there) unknown unused in
            let store = insert id (challenged_session s body random now') ctx.sessions.sessions in
            rw after (
              with_sessions (record ctx.sessions { sessions = store })
                (insert-AreApart ctx.sessions.sessions ctx.devices id _ w.sessions joined))
      ]
