-- ===== src/Fog/Revocation.antt =====
-- Revocation (fog/revocation/registry.py and fog/revocation/routes.py).
pub mod Immediate
pub mod Denied
use blockchain_io_t_a.Fog.Context.{◌>>=◌, ◌>>◌}
use blockchain_io_t_a.Common.Schemas.{DeviceStatus, revoked, status_eq}
use blockchain_io_t_a.Fog.Context.{
  Handler, check_that, found, gets, pure, set_devices, set_tokens, token_id_required, uncaught,
  unknown_did, unknown_token_for_did,
}
use blockchain_io_t_a.Fog.EpochRoutes.{admin_only}
use blockchain_io_t_a.Prelude.{
  Bool, List, Option, [], attribute_error, false, if◌then◌else◌, map, mem, nat_eq, none, or_raise,
  select, some, text_eq, ℕ, ◌∷◌,
}
use blockchain_io_t_a.Prelude.Dict.{lookup}
use blockchain_io_t_a.Prelude.Text.{Str}
use blockchain_io_t_a.Storage.{DeviceStore, exists, set_status, text_is}
use blockchain_io_t_a.Tokens.Nonces.{
  TokenState, is_revoked, owner_of, revoke_id, tokens_of, was_issued,
}

pub record RevokeRequest : Type 0 where
  pub did : Str
  pub token_id : Option Str
  pub token_only : Bool

pub record RevokeResponse : Type 0 where
  pub did : Str
  pub status : DeviceStatus
  pub revoked_tokens : List Str

pub record StatusResponse : Type 0 where
  pub did : Str
  pub status : DeviceStatus
  pub is_revoked_now : Bool
  pub last_epoch : Option ℕ
  pub in_latest_active_set : Bool
  pub tokens : List (Str × Bool)

unfoldable pub revoke_all : List Str → TokenState → TokenState
revoke_all [] ts = ts
revoke_all (t ∷ tids) ts = revoke_all tids (revoke_id ts t)

-- `none` for an unknown DID; the token state is the optional last argument.
unfoldable pub revoke_device :
    DeviceStore → Str → Option TokenState → Option (DeviceStore × Option TokenState)
revoke_device devices did token_state =
    if exists devices did
    then some (
      set_status devices did revoked,
      elim token_state [ none ↦ none | some ts ↦ some (revoke_all (tokens_of ts did) ts) ],
    )
    else none

-- `none` for a token that this fog never issued
unfoldable pub revoke_token : TokenState → Str → Option TokenState
revoke_token ts token_id = if was_issued ts token_id then some (revoke_id ts token_id) else none

unfoldable pub is_device_revoked : DeviceStore → Str → Bool
is_device_revoked devices did = elim (lookup did devices) [
  | none ↦ false
  | some rec ↦ status_eq rec.status revoked
]

-- `token_id` as the route tests it: absent and empty are the same
abbrev pub given : Option Str → Option Str
given none = none
given (some []) = none
given (some (x ∷ s)) = some (x ∷ s)

-- The branch of `token_only`.
unfoldable pub revoke_one : RevokeRequest → Handler RevokeResponse
revoke_one body = do
  token_id ← found (given body.token_id) 422 token_id_required
  ts ← gets (λ ctx. ctx.token_state)
  check_that (text_is (owner_of ts token_id) body.did) 404 unknown_token_for_did
  ts' ← found (revoke_token ts token_id) 404 unknown_token_for_did
  set_tokens ts'
  devices ← gets (λ ctx. ctx.devices)
  rec ← uncaught (or_raise (lookup body.did devices) attribute_error)
  pure (record { did = body.did; status = rec.status; revoked_tokens = token_id ∷ [] })

-- `if body.token_id: revoke(body.token_id)`
abbrev pub revoke_given : Option Str → TokenState → TokenState
revoke_given none ts = ts
revoke_given (some token_id) ts = revoke_id ts token_id

-- The branch that revokes the device.
unfoldable pub revoke_whole : RevokeRequest → Handler RevokeResponse
revoke_whole body = do
  ctx ← gets (λ ctx. ctx)
  (devices, token_state) ←
      found (revoke_device ctx.devices body.did (some ctx.token_state)) 404 unknown_did
  set_devices devices
  ts ← uncaught (or_raise token_state attribute_error)
  let ts' = revoke_given (given body.token_id) ts
  set_tokens ts'
  pure (record {
    did = body.did;
    status = revoked;
    revoked_tokens = select (is_revoked ts') (tokens_of ts' body.did);
  })

unfoldable pub revoke : RevokeRequest → Option Str → Handler RevokeResponse
unfolding revoke_one revoke_whole admin_only
revoke body x_admin_key = do
  admin_only x_admin_key
  if body.token_only then revoke_one body else revoke_whole body

unfoldable pub revocation_status : Str → Handler StatusResponse
revocation_status did = do
  ctx ← gets (λ ctx. ctx)
  rec ← found (lookup did ctx.devices) 404 unknown_did
  let ts = ctx.token_state
  pure (record {
    did = did;
    status = rec.status;
    is_revoked_now = is_device_revoked ctx.devices did;
    last_epoch = rec.epoch_id;
    in_latest_active_set = mem did ctx.epochs.active_dids;
    tokens = map (λ t. (t, is_revoked ts t)) (tokens_of ts did);
  })
