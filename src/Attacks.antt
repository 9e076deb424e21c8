-- ===== src/Attacks.antt =====
-- The scenarios of attacks/token_attacks.py, as runs of a device against one fog, and two helpers of
-- attacks/tamper_proof.py, whose run stands in Tampering. A scenario answers whether the fog decided as the script expects; `record`
-- prints that and is left out.
pub mod Tampering
use blockchain_io_t_a.Devices.{register_start, returned, ◌>>=◌, ◌>>◌}
use blockchain_io_t_a.Common.Crypto.{Crypto, derive_did, public_key_bytes}
use blockchain_io_t_a.Common.Schemas.{ProofPackage}
use blockchain_io_t_a.Devices.{
  Client, default_vendor, give, observe, or_die, prove_possession, self, submit_metadata,
  submit_public_key,
}
use blockchain_io_t_a.Devices.Runtime.{
  build_token_request, get_token_nonce, request_token, token_access,
}
use blockchain_io_t_a.Fog.App.{default_admin_key, fog_zone}
use blockchain_io_t_a.Fog.Context.{FogContext, Outcome, done}
use blockchain_io_t_a.Fog.Registration.{QueuedResponse}
use blockchain_io_t_a.Fog.Revocation.{revoke}
use blockchain_io_t_a.Fog.TokenRoutes.{
  Decision, TokenAccessRequest, allow, deny, nonce_refused, possession_failed, token_is_expired,
  token_revoked, tokens_access,
}
use blockchain_io_t_a.Ledger.{Ledger, get_root}
use blockchain_io_t_a.Prelude.{Bool, Option, Result, false, none, some, true, ℕ, ◌&&◌}
use blockchain_io_t_a.Prelude.Json.{Object}
use blockchain_io_t_a.Prelude.Text.{Bytes, Str, codes, to_hex}
use blockchain_io_t_a.Proofs.{VerificationResult, verify_proof_package}
use blockchain_io_t_a.Tokens.Nonces.{nonce_reused, record_issued}
use blockchain_io_t_a.Tokens.Token.{issue_token, text_item}

abbrev pub attack_resource : Str
attack_resource = codes "temperature_sensor"

abbrev pub attack_operation : Str
attack_operation = codes "write"

-- `response["decision"] == "ALLOW"`
unfoldable pub is_allow : Outcome Decision → Bool
is_allow (done allow) = true
is_allow _ = false

-- `response.get("reason") == "nonce_reused"`
unfoldable pub is_nonce_reused : Outcome Decision → Bool
is_nonce_reused (done (deny (nonce_refused nonce_reused))) = true
is_nonce_reused _ = false

unfoldable pub is_possession_failed : Outcome Decision → Bool
is_possession_failed (done (deny possession_failed)) = true
is_possession_failed _ = false

unfoldable pub is_expired : Outcome Decision → Bool
is_expired (done (deny token_is_expired)) = true
is_expired _ = false

unfoldable pub is_token_revoked : Outcome Decision → Bool
is_token_revoked (done (deny token_revoked)) = true
is_token_revoked _ = false

abbrev fog_context : Client FogContext
fog_context d ctx = (returned ctx, d, ctx)

-- `ctx.token_state.record_issued(token["token_id"], d.did)`
abbrev record_token : Str → Str → Client (Unit {0})
record_token token_id did d ctx =
    (returned tt, d, record ctx { token_state = record_issued ctx.token_state token_id did })

-- Each random text or time of a run has its own number.
module _ (c : Crypto) (float_of : Str → Option ℕ) (random : Bytes) (fresh : ℕ → Str)
    (time : ℕ → ℕ) where
  unfoldable pub queued_device : Client QueuedResponse
  queued_device = do
    register_start c (fresh 0) (time 0)
    challenge ← submit_public_key c random (time 0) (time 0)
    prove_possession c challenge (time 0) (time 0) (time 0)
    submit_metadata c none none default_vendor fog_zone (time 0) (time 0)

  abbrev access_at : ℕ → Object → Client (Outcome Decision × TokenAccessRequest)
  access_at n token =
      token_access c float_of token attack_resource attack_operation (fresh n) (λ i. time n)

  unfoldable pub attack_replay : Client Bool
  unfolding queued_device
  attack_replay = do
    queued_device
    token ← request_token c (fresh 1) (time 1) (time 1)
    (first, captured) ← access_at 2 token
    replayed ← observe (tokens_access c float_of captured (time 3) (time 3))
    give (is_allow first && is_nonce_reused replayed)

  -- The attacker signs with a key of its own.
  unfoldable pub attack_stolen_token : ℕ → Client Bool
  unfolding queued_device
  attack_stolen_token attacker_key = do
    queued_device
    token ← request_token c (fresh 1) (time 1) (time 1)
    token_id ← or_die (text_item (codes "token_id") token)
    nonce ← get_token_nonce c token_id (fresh 2) (time 2)
    body ← or_die (build_token_request c attacker_key token nonce attack_resource attack_operation)
    r ← observe (tokens_access c float_of body (time 2) (time 2))
    give (is_possession_failed r)

  -- The token is issued with a short life and used after it.
  unfoldable pub attack_expired_token : ℕ → Client Bool
  unfolding queued_device
  attack_expired_token ttl_seconds = do
    queued_device
    d ← self
    ctx ← fog_context
    let token =
        issue_token c d.did (to_hex d.pk_bytes) (some (codes "temperature_sensor"))
          (some (codes "sensor")) ctx.signing_key ttl_seconds none (fresh 1) (time 1)
    record_token (fresh 1) d.did
    (r, body) ← access_at 2 token
    give (is_expired r)

  unfoldable pub attack_revoked_token : Client Bool
  unfolding queued_device
  attack_revoked_token = do
    queued_device
    token ← request_token c (fresh 1) (time 1) (time 1)
    (before, body) ← access_at 2 token
    d ← self
    observe (
        revoke (record { did = d.did; token_id = none; token_only = false })
          (some default_admin_key))
    (after, body') ← access_at 3 token
    give (is_allow before && is_token_revoked after)

-- `new_identity` of attacks/tamper_proof.py, for a key
unfoldable pub new_identity : Crypto → ℕ → Str × Bytes
new_identity c key = (derive_did c (public_key_bytes c key), public_key_bytes c key)

-- `present` of attacks/tamper_proof.py: the verdict on a package that an attacker presents
unfoldable pub present :
    Crypto → ProofPackage → Ledger → Bytes → Option ℕ → Result VerificationResult
present c pkg ledger fog_pk epoch_override =
    verify_proof_package c pkg
      (get_root ledger (elim epoch_override [ none ↦ pkg.epoch_id | some n ↦ n ])) fog_pk
