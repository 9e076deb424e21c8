-- ===== src/Fog/TokenRoutes.antt =====
-- The token endpoints (fog/tokens/routes.py).
pub mod Access
pub mod Replay
use blockchain_io_t_a.Fog.Context.{◌>>=◌, ◌>>◌}
use blockchain_io_t_a.Common.Crypto.{Crypto}
use blockchain_io_t_a.Common.Schemas.{registered, revoked, status_eq, tokenized}
use blockchain_io_t_a.Fog.Context.{
  Handler, check_that, crash, device_is_revoked, done, found, gets, has_inclusion_proof, pure,
  role_mismatch, session_get, set_devices, set_tokens, token_needs_metadata, uncaught,
  unknown_device, unknown_session, unknown_token,
}
use blockchain_io_t_a.Fog.Revocation.{is_device_revoked}
use blockchain_io_t_a.Ledger.{item}
use blockchain_io_t_a.Policy.{check_policy, provisional_allowed, role_valid_for_type}
use blockchain_io_t_a.Prelude.{
  Bool, Eq, Option, Result, false, if◌then◌else◌, nat_eq, none, not, ok, raise, some, text_eq, ℕ,
  ◌||◌,
}
use blockchain_io_t_a.Prelude.Dict.{lookup}
use blockchain_io_t_a.Prelude.Json.{Object, Value, str}
use blockchain_io_t_a.Prelude.Text.{Str, codes}
use blockchain_io_t_a.Storage.{DeviceStore, metadata_accepted, set_status, state_eq}
use blockchain_io_t_a.Tokens.Nonces.{
  NonceStatus, TokenState, consume, is_revoked, issue_nonce, nonce_ok, record_issued, was_issued,
}
use blockchain_io_t_a.Tokens.Token.{
  access_signature_valid, issue_token, text_item, token_expired, token_nonce_purpose,
  token_signature_valid, token_ttl_seconds,
}

pub record NonceResponse : Type 0 where
  pub subject : Str
  pub nonce : Str
  pub expires_in : ℕ

pub record TokenAccessRequest : Type 0 where
  pub token : Object
  pub nonce : Str
  pub resource : Str
  pub operation : Str
  pub signature : Str

-- The `reason` of a decision, which names the check that failed.
pub data AccessReason : Type 0 where
  access_ok bad_token_signature token_is_expired token_revoked : AccessReason
  possession_failed provisional_scope policy_denied : AccessReason
  nonce_refused : NonceStatus → AccessReason

pub data Decision : Type 0 where
  allow : Decision
  deny : AccessReason → Decision

-- A text field of a token where another type compares unequal to every text.
abbrev pub text_of : Value → Option Str
text_of (str s) = some s
text_of _ = none

unfoldable pub scope_allows : Value → Str → Str → Bool
scope_allows device_type resource operation = elim (text_of device_type) [
  | none ↦ false
  | some own_type ↦ provisional_allowed own_type resource operation
]

unfoldable pub policy_allows : Str → Str → Value → Bool
policy_allows resource operation role = elim (text_of role) [
  | none ↦ false
  | some r ↦ check_policy resource operation r
]

unfoldable pub tokens_nonce : Str → Str → ℕ → Handler NonceResponse
tokens_nonce token_id fresh now = do
  ts ← gets (λ ctx. ctx.token_state)
  check_that (was_issued ts token_id) 404 unknown_token
  set_tokens (record ts { nonces = issue_nonce ts.nonces token_nonce_purpose token_id fresh now })
  pure (record { subject = token_id; nonce = fresh; expires_in = ts.nonces.ttl })

-- Checks 6 and 7. A missing field raises KeyError where it is read.
unfoldable pub scope_and_policy : TokenAccessRequest → Result Decision
scope_and_policy body = elim (item (codes "device_type") body.token) [
  | raise x ↦ raise x
  | ok device_type ↦
      if scope_allows device_type body.resource body.operation
      then elim (item (codes "role") body.token) [
        | raise x ↦ raise x
        | ok role ↦
            ok (
              if policy_allows body.resource body.operation role then allow else deny policy_denied)
      ]
      else ok (deny provisional_scope)
]

module _ (c : Crypto) where
  -- `fresh` is the random token id; `now` is read for the session, `now'` for the token.
  unfoldable pub tokens_issue : Str → Str → ℕ → ℕ → Handler Object
  tokens_issue session_id fresh now now' = do
    s ← found (← session_get session_id now) 404 unknown_session
    check_that (state_eq s.state metadata_accepted) 409 (token_needs_metadata s.state)
    ctx ← gets (λ ctx. ctx)
    did ← found s.did 404 unknown_device
    rec ← found (lookup did ctx.devices) 404 unknown_device
    check_that (not (status_eq rec.status revoked)) 403 device_is_revoked
    check_that (not (status_eq rec.status registered)) 409 has_inclusion_proof
    check_that (role_valid_for_type rec.device_type rec.role) 403 role_mismatch
    let token =
        issue_token c rec.did rec.public_key rec.device_type rec.role ctx.signing_key
          token_ttl_seconds (some ctx.epochs.current_epoch_id) fresh now'
    set_tokens (record_issued ctx.token_state fresh rec.did)
    set_devices (set_status ctx.devices rec.did tokenized)
    pure token

  -- Checks 4 to 7, once the nonce is consumed.
  unfoldable pub access_decision :
      TokenState → DeviceStore → TokenAccessRequest → Str → Str → Result Decision
  access_decision ts devices body tid did =
      if is_revoked ts tid || is_device_revoked devices did
      then ok (deny token_revoked)
      else if access_signature_valid c body.token body.nonce body.resource body.operation
          body.signature
      then scope_and_policy body
      else ok (deny possession_failed)

  -- The checks from the nonce on. What the fog signs has text for `token_id` and `did`.
  unfoldable pub access_with_nonce : TokenAccessRequest → Str → Str → ℕ → Handler Decision
  access_with_nonce body tid did now ctx =
      let ts = ctx.token_state in
      let (status, book) = consume ts.nonces token_nonce_purpose tid body.nonce now in
      let ts' = record ts { nonces = book } in
      let ctx' = record ctx { token_state = ts' } in
      elim status [
        | nonce_ok ↦ uncaught (access_decision ts' ctx.devices body tid did) ctx'
        | other ↦ (done (deny (nonce_refused other)), ctx')
      ]

  -- `float_of` is float() on a text. Times are read for the expiry and for the nonce.
  -- A token that the fog has signed has text for `token_id` and `did`; where some other object that
  -- it signed has another value there, this raises, and the code goes on to the nonce.
  unfoldable pub tokens_access : (Str → Option ℕ) → TokenAccessRequest → ℕ → ℕ → Handler Decision
  tokens_access float_of body now now' ctx =
      if token_signature_valid c body.token ctx.signing_key
      then elim (text_item (codes "token_id") body.token) [
        | raise x ↦ (crash x, ctx)
        | ok tid ↦ elim (text_item (codes "did") body.token) [
          | raise x ↦ (crash x, ctx)
          | ok did ↦
              if token_expired float_of body.token now
              then (done (deny token_is_expired), ctx)
              else access_with_nonce body tid did now' ctx
        ]
      ]
      else (done (deny bad_token_signature), ctx)
