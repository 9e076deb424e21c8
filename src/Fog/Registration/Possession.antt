-- ===== src/Fog/Registration/Possession.antt =====
-- What an answered /register/pop rests on.
use blockchain_io_t_a.Common.Crypto.{Crypto}
use blockchain_io_t_a.Common.Schemas.{PopRequest}
use blockchain_io_t_a.Fog.Context.{FogContext, done, found}
use blockchain_io_t_a.Fog.Pop.{verify_pop}
use blockchain_io_t_a.Fog.Pop.Possession.{IsProof, verify_pop-once}
use blockchain_io_t_a.Fog.Registration.{
  PopResponse, pending_record, register_pop, require_state, session_or_404,
}
use blockchain_io_t_a.Prelude.{
  Option-cases, Result-cases, arith, inl, inr, nat_eq, none, refl, some, text_eq, true, ℕ, ◌∙◌, ◌≡◌,
}
use blockchain_io_t_a.Prelude.Dict.{insert, lookup, lookup-insert_self}
use blockchain_io_t_a.Prelude.Text.{Bytes, Str}
use blockchain_io_t_a.Storage.{
  Session, SessionState, authenticated, get_session, key_submitted, metadata_accepted, pop_verified,
  state_eq, upsert,
}

-- What was there, and what is then there, when /register/pop is answered.
pub record IsRegistered (c : Crypto) (ctx ctx' : FogContext) (body : PopRequest) (now' : ℕ)
    (r : PopResponse) (s : Session) (challenge did : Str) (pk challenge_bytes signature : Bytes)
    : Type 0 where
  pub right_step : s.state ≡ key_submitted
  pub proven : IsProof c s body.signature now' challenge did pk challenge_bytes signature
  pub of_did : r.did ≡ did
  pub recorded :
      (text : Str) × (s.public_key ≡ some text)
      × (lookup did ctx'.devices ≡ some (pending_record did text))
  pub same_ledger : ctx'.ledger ≡ ctx.ledger
  pub same_epochs : ctx'.epochs ≡ ctx.epochs

state_eq-key_submitted : (s : SessionState) → state_eq s key_submitted ≡ true → s ≡ key_submitted
state_eq-key_submitted authenticated h = cc
state_eq-key_submitted key_submitted h = refl
state_eq-key_submitted pop_verified h = cc
state_eq-key_submitted metadata_accepted h = cc

module _ (c : Crypto) (ctx ctx' : FogContext) (body : PopRequest) (now now' now'' : ℕ)
    (r : PopResponse) where
  -- /register/pop answers only for a live session whose key was submitted, on a valid proof over its
  -- pending challenge; the device is then recorded as pending under the DID and the key of the
  -- session, and neither the ledger nor the epochs have changed.
  pub register_pop-done :
      register_pop c body now now' now'' ctx ≡ (done r, ctx')
      → (s : Session) × ((get_session ctx.sessions body.session_id now).0 ≡ some s)
        × (challenge did : Str) × (pk challenge_bytes signature : Bytes) × IsRegistered c ctx ctx'
            body now' r s challenge did pk challenge_bytes signature
  unfolding register_pop session_or_404 require_state upsert
  register_pop-done h = elim (Option-cases (get_session ctx.sessions body.session_id now).0) [
    | inl missing ↦ absurd (ground arith)
    | inr (s, found) ↦
        let step : state_eq s.state key_submitted ≡ true = ground arith in
        let verdict = verify_pop c s body.signature now' in
        elim (Result-cases verdict.0) [
          | inr (x, raised) ↦ absurd (ground arith)
          | inl (some why, refused) ↦ absurd (ground arith)
          | inl (none, good) ↦
              let once = verify_pop-once c s body.signature now' verdict.1 verdict.0 refl in
              let (challenge, did, pk, said, signature, w) = once.0 good in
              let (text, has_key, is_key) = w.key_hex in
              let same_did : verdict.1.did ≡ some did = once.3 ∙ w.session_did in
              let same_key : verdict.1.public_key ≡ some text = once.4 ∙ has_key in
              let after : ctx'.devices ≡ insert did (pending_record did text) ctx.devices =
                ground arith in
              (
                s,
                found,
                challenge,
                did,
                pk,
                said,
                signature,
                record {
                  right_step = state_eq-key_submitted s.state step;
                  proven = w;
                  of_did = ground arith;
                  recorded = (
                    text,
                    has_key,
                    rw after (lookup-insert_self did (pending_record did text) ctx.devices),
                  );
                  same_ledger = ground arith;
                  same_epochs = ground arith;
                },
              )
        ]
  ]
