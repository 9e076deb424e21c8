-- ===== src/Fog/EpochRoutes.antt =====
-- The epoch, proof and registry endpoints (fog/batch/routes.py).
use blockchain_io_t_a.Fog.Context.{◌>>=◌, ◌>>◌}
use blockchain_io_t_a.Common.Crypto.{Crypto}
use blockchain_io_t_a.Common.Schemas.{ProofPackage, revoked, status_eq}
use blockchain_io_t_a.Epochs.{
  EpochResult, EpochState, batch_size, finalize_epoch, get_package, pending_dids,
}
use blockchain_io_t_a.Fog.Context.{
  FogContext, Handler, admin_key_required, check_that, crash, done, epoch_refused, found, gets,
  http, modify, no_proof_yet, not_anchored, pure, revoked_no_proof, uncaught, unknown_did,
}
use blockchain_io_t_a.Ledger.{Verdict, get_block, item, latest_epoch, verify_chain}
use blockchain_io_t_a.Merkle.Proof.{root}
use blockchain_io_t_a.Prelude.{
  Bool, List, Option, Result, epoch_error, length, nat_eq, none, not, ok, raise, text_eq, ℕ,
}
use blockchain_io_t_a.Prelude.Dict.{lookup}
use blockchain_io_t_a.Prelude.Json.{Object, Value}
use blockchain_io_t_a.Prelude.Text.{Str, codes}
use blockchain_io_t_a.Storage.{text_is}

pub record CurrentResponse : Type 0 where
  pub epoch_id : ℕ
  pub batch_size : ℕ
  pub queued_dids : List Str
  pub latest_anchored_epoch : Option Value

-- `x_admin_key != ctx.admin_key` raises 401
unfoldable pub admin_only : Option Str → Handler (Unit {0})
admin_only x_admin_key = do
  admin_key ← gets (λ ctx. ctx.admin_key)
  check_that (text_is x_admin_key admin_key) 401 admin_key_required

unfoldable pub epoch_current : Handler CurrentResponse
epoch_current = do
  ctx ← gets (λ ctx. ctx)
  latest ← uncaught (latest_epoch ctx.ledger)
  pure (record {
    epoch_id = ctx.epochs.current_epoch_id;
    batch_size = batch_size ctx.epochs;
    queued_dids = pending_dids ctx.epochs;
    latest_anchored_epoch = latest;
  })

-- `except EpochError` around finalize_epoch
abbrev pub epoch_outcome : Result EpochResult → Handler EpochResult
epoch_outcome (ok r) ctx = (done r, ctx)
epoch_outcome (raise epoch_error) ctx = (http 409 epoch_refused, ctx)
epoch_outcome (raise x) ctx = (crash x, ctx)

abbrev pub epoch_state : FogContext → EpochState
epoch_state ctx = record { manager = ctx.epochs; devices = ctx.devices; ledger = ctx.ledger }

abbrev pub put_epoch_state : EpochState → Handler (Unit {0})
put_epoch_state st =
    modify λ ctx. record ctx { epochs = st.manager; devices = st.devices; ledger = st.ledger }

module _ (c : Crypto) where
  unfoldable pub epoch_close : List Str → Option Str → Str → Handler EpochResult
  epoch_close exclude_dids x_admin_key timestamp = do
    admin_only x_admin_key
    st ← gets epoch_state
    let (result, st') = finalize_epoch c st exclude_dids timestamp
    put_epoch_state st'
    epoch_outcome result

  unfoldable pub registry_verify : Handler (Bool × Verdict × ℕ)
  registry_verify = do
    ledger ← gets (λ ctx. ctx.ledger)
    (valid, verdict) ← uncaught (verify_chain c ledger none)
    pure (valid, verdict, length ledger.blocks)

unfoldable pub get_proof_route : Str → Option ℕ → Handler ProofPackage
get_proof_route did epoch_id = do
  devices ← gets (λ ctx. ctx.devices)
  rec ← found (lookup did devices) 404 unknown_did
  check_that (not (status_eq rec.status revoked)) 403 revoked_no_proof
  epochs ← gets (λ ctx. ctx.epochs)
  found (get_package epochs did epoch_id) 404 no_proof_yet

unfoldable pub registry_root : ℕ → Handler (Value × Object)
registry_root epoch_id = do
  ledger ← gets (λ ctx. ctx.ledger)
  block ← uncaught (get_block ledger epoch_id)
  b ← found block 404 not_anchored
  root ← uncaught (item (codes "root") b)
  pure (root, b)
