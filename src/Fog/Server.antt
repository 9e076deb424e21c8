-- ===== src/Fog/Server.antt =====
-- The running fog: the routers that create_app includes (fog/main.py), with the thread that closes
-- epochs. The requests that only read are left out, since they leave the context as it is.
pub mod Keys
pub mod Sessions
pub mod Sound
pub mod Registering
pub mod Proving
pub mod Possessing
pub mod Queueing
pub mod Accessing
pub mod Closing
pub mod Kept
pub mod Served
pub mod Banned
pub mod Roots
pub mod Restarted
use blockchain_io_t_a.Common.Crypto.{Crypto}
use blockchain_io_t_a.Common.Schemas.{MetadataRequest, PopRequest, PublicKeyRequest}
use blockchain_io_t_a.Epochs.{auto_close}
use blockchain_io_t_a.Fog.Context.{FogContext}
use blockchain_io_t_a.Fog.EpochRoutes.{epoch_close, epoch_state, put_epoch_state}
use blockchain_io_t_a.Fog.Registration.{
  register_start, register_metadata, register_pop, register_pubkey,
}
use blockchain_io_t_a.Fog.Revocation.{RevokeRequest, revoke}
use blockchain_io_t_a.Fog.TokenRoutes.{
  TokenAccessRequest, tokens_access, tokens_issue, tokens_nonce,
}
use blockchain_io_t_a.Fog.Verification.{Parser, VerifyRequest, verify_and_authorize, verify_nonce}
use blockchain_io_t_a.Prelude.{List, Option, [], ℕ, ◌∷◌}
use blockchain_io_t_a.Prelude.Text.{Bytes, Str}

-- A request, with what the fog reads of its clock and of its random source while it serves it; a
-- raise shows in the answer and not in the context.
pub data Request : Type 0 where
  post_start : (authorization : Option Str) (fresh : Str) (now : ℕ) → Request
  post_pubkey : (body : PublicKeyRequest) (random : Bytes) (now now' : ℕ) → Request
  post_pop : (body : PopRequest) (now now' now'' : ℕ) → Request
  post_metadata : (body : MetadataRequest) (now now' : ℕ) → Request
  ask_token_nonce : (token_id fresh : Str) (now : ℕ) → Request
  post_issue : (session_id fresh : Str) (now now' : ℕ) → Request
  post_access : (body : TokenAccessRequest) (now now' : ℕ) → Request
  ask_verify_nonce : (did fresh : Str) (now : ℕ) → Request
  post_verify : (body : VerifyRequest) (now : ℕ) → Request
  post_revoke : (body : RevokeRequest) (x_admin_key : Option Str) → Request
  post_close : (exclude_dids : List Str) (x_admin_key : Option Str) (timestamp : Str) → Request
  timer : (timestamp : Str) → Request

module _ (c : Crypto) (p : Parser) (float_of : Str → Option ℕ) where
  -- What the context is after the request.
  unfoldable pub serve : Request → FogContext → FogContext
  serve (post_start authorization fresh now) ctx = (register_start c authorization fresh now ctx).1
  serve (post_pubkey body random now now') ctx = (register_pubkey c body random now now' ctx).1
  serve (post_pop body now now' now'') ctx = (register_pop c body now now' now'' ctx).1
  serve (post_metadata body now now') ctx = (register_metadata c body now now' ctx).1
  serve (ask_token_nonce token_id fresh now) ctx = (tokens_nonce token_id fresh now ctx).1
  serve (post_issue session_id fresh now now') ctx =
      (tokens_issue c session_id fresh now now' ctx).1
  serve (post_access body now now') ctx = (tokens_access c float_of body now now' ctx).1
  serve (ask_verify_nonce did fresh now) ctx = (verify_nonce did fresh now ctx).1
  serve (post_verify body now) ctx = (verify_and_authorize c p body now ctx).1
  serve (post_revoke body x_admin_key) ctx = (revoke body x_admin_key ctx).1
  serve (post_close exclude_dids x_admin_key timestamp) ctx =
      (epoch_close c exclude_dids x_admin_key timestamp ctx).1
  serve (timer timestamp) ctx = (put_epoch_state (auto_close c (epoch_state ctx) timestamp).1 ctx).1

  unfoldable pub serve_all : List Request → FogContext → FogContext
  serve_all [] ctx = ctx
  serve_all (r ∷ rs) ctx = serve_all rs (serve r ctx)
