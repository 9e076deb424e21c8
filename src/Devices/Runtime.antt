-- ===== src/Devices/Runtime.antt =====
-- The runtime protocol of a device (devices/runtime_client.py).
use blockchain_io_t_a.Devices.{◌>>=◌}
use blockchain_io_t_a.Common.Crypto.{Crypto}
use blockchain_io_t_a.Devices.{
  Client, give, observe, or_die, post, self, session_of, token_issue_stage, token_nonce_stage,
  verify_nonce_stage,
}
use blockchain_io_t_a.Fog.Context.{Outcome}
use blockchain_io_t_a.Fog.TokenRoutes.{
  Decision, TokenAccessRequest, tokens_access, tokens_issue, tokens_nonce,
}
use blockchain_io_t_a.Fog.Verification.{
  Parser, VerifyDecision, VerifyRequest, sign_verify_request, verify_and_authorize, verify_nonce,
}
use blockchain_io_t_a.Prelude.{Option, Result, ok, raise, ℕ}
use blockchain_io_t_a.Prelude.Json.{Object}
use blockchain_io_t_a.Prelude.Text.{Str, codes}
use blockchain_io_t_a.Tokens.Token.{sign_access, text_item}

module _ (c : Crypto) where
  unfoldable pub request_token : Str → ℕ → ℕ → Client Object
  unfolding session_of
  request_token fresh now now' = do
    session_id ← session_of token_issue_stage
    post token_issue_stage (tokens_issue c session_id fresh now now')

  unfoldable pub get_token_nonce : Str → Str → ℕ → Client Str
  get_token_nonce token_id fresh now = do
    r ← post token_nonce_stage (tokens_nonce token_id fresh now)
    give r.nonce

  unfoldable pub build_token_request : ℕ → Object → Str → Str → Str → Result TokenAccessRequest
  build_token_request private_key token nonce resource operation =
      elim (sign_access c private_key token nonce resource operation) [
        | raise x ↦ raise x
        | ok signature ↦ ok (record {
          token = token;
          nonce = nonce;
          resource = resource;
          operation = operation;
          signature = signature;
        })
      ]

  -- The answer is read whatever its status is; the request comes back with it.
  unfoldable pub token_access :
      (Str → Option ℕ)
      → Object
      → Str
      → Str
      → Str
      → (ℕ → ℕ)
      → Client (Outcome Decision × TokenAccessRequest)
  unfolding get_token_nonce build_token_request
  token_access float_of token resource operation fresh time = do
    token_id ← or_die (text_item (codes "token_id") token)
    nonce ← get_token_nonce token_id fresh (time 0)
    d ← self
    body ← or_die (build_token_request d.private_key token nonce resource operation)
    decision ← observe (tokens_access c float_of body (time 1) (time 2))
    give (decision, body)

  unfoldable pub get_verify_nonce : Str → Str → ℕ → Client Str
  get_verify_nonce did fresh now = do
    r ← post verify_nonce_stage (verify_nonce did fresh now)
    give r.nonce

  module _ (p : Parser) where
    unfoldable pub build_verify_request : ℕ → Object → Str → Str → Str → Result VerifyRequest
    build_verify_request private_key pkg nonce resource operation =
        elim (sign_verify_request c p private_key pkg nonce resource operation) [
          | raise x ↦ raise x
          | ok signature ↦ ok (record {
            proof_package = pkg;
            resource = resource;
            operation = operation;
            nonce = nonce;
            signature = signature;
          })
        ]

    unfoldable pub verify_access :
        Object → Str → Str → Str → (ℕ → ℕ) → Client (Outcome VerifyDecision × VerifyRequest)
    unfolding get_verify_nonce build_verify_request
    verify_access pkg resource operation fresh time = do
      did ← or_die (text_item (codes "did") pkg)
      nonce ← get_verify_nonce did fresh (time 0)
      d ← self
      body ← or_die (build_verify_request d.private_key pkg nonce resource operation)
      decision ← observe (verify_and_authorize c p body (time 1))
      give (decision, body)
