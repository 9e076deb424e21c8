-- ===== src/Fog/Context.antt =====
-- FogContext (fog/main.py), and a handler: it changes the context and answers, raises
-- HTTPException, or dies of an exception that nothing catches, which the client sees as status 500.
-- What was written before a raise stays written.
use blockchain_io_t_a.Common.Schemas.{DeviceStatus}
use blockchain_io_t_a.Epochs.{EpochManager}
use blockchain_io_t_a.Ledger.{Ledger}
use blockchain_io_t_a.Prelude.{
  Bool, Error, List, Option, Result, false, nat_eq, none, ok, raise, some, text_eq, true, ℕ,
}
use blockchain_io_t_a.Prelude.Dict.{insert}
use blockchain_io_t_a.Prelude.Text.{Str}
use blockchain_io_t_a.Psk.{PskStore}
use blockchain_io_t_a.Storage.{DeviceStore, Session, SessionState, SessionStore, get_session}
use blockchain_io_t_a.Tokens.Nonces.{TokenState}

pub record FogContext : Type 0 where
  pub fog_id : Str
  pub zone : Str
  pub signing_key : ℕ
  pub psk_store : PskStore
  pub sessions : SessionStore
  pub devices : DeviceStore
  pub ledger : Ledger
  pub epochs : EpochManager
  pub challenge_ttl : ℕ
  pub admin_key : Str
  pub allowed_types : List Str
  pub token_state : TokenState

-- Why a proof of possession failed.
pub data PopReason : Type 0 where
  no_active_challenge challenge_expired signature_not_hex signature_invalid : PopReason

-- The problems that validate_metadata lists.
pub data MetadataError : Type 0 where
  bad_name bad_type bad_zone bad_role bad_vendor : MetadataError

-- The `detail` of an HTTPException.
pub data Detail : Type 0 where
  malformed_psk_header psk_failed unknown_session invalid_public_key did_mismatch : Detail
  did_in_session admin_key_required unknown_device device_is_revoked has_inclusion_proof : Detail
  role_mismatch unknown_token token_id_required unknown_token_for_did unknown_did : Detail
  revoked_no_proof no_proof_yet not_anchored epoch_refused : Detail
  wrong_step : SessionState → SessionState → Detail
  token_needs_metadata : SessionState → Detail
  did_known : DeviceStatus → Detail
  pop_failed : PopReason → Detail
  metadata_errors : List MetadataError → Detail

pub data Outcome {ℓ} (A : Type ℓ) : Type ℓ where
  done : A → Outcome A
  http : ℕ → Detail → Outcome A
  crash : Error → Outcome A

abbrev pub is_done {ℓ} : {A : Type ℓ} → Outcome A → Bool
is_done (done a) = true
is_done (http status detail) = false
is_done (crash x) = false

abbrev pub Handler : Type 0 → Type 0
Handler A = FogContext → Outcome A × FogContext

-- The next part of a handler, after an outcome.
abbrev pub continue :
    {A B : Type 0} → (A → Handler B) → Outcome A × FogContext → Outcome B × FogContext
continue f (done a, ctx) = f a ctx
continue f (http status detail, ctx) = (http status detail, ctx)
continue f (crash x, ctx) = (crash x, ctx)

infixl 5 ◌>>=◌ ◌>>◌
abbrev pub ◌>>=◌ : {A B : Type 0} → Handler A → (A → Handler B) → Handler B
◌>>=◌ m f ctx = continue f (m ctx)

abbrev pub ◌>>◌ : {A B : Type 0} → Handler A → Handler B → Handler B
m >> k = m >>= λ _. k

module _ {A : Type 0} where
  abbrev pub pure : A → Handler A
  pure a ctx = (done a, ctx)

  abbrev pub fail : ℕ → Detail → Handler A
  fail status detail ctx = (http status detail, ctx)

  abbrev pub gets : (FogContext → A) → Handler A
  gets f ctx = (done (f ctx), ctx)

  -- a raise that nothing catches
  abbrev pub uncaught : Result A → Handler A
  uncaught (ok a) ctx = (done a, ctx)
  uncaught (raise x) ctx = (crash x, ctx)

  abbrev pub found : Option A → ℕ → Detail → Handler A
  found none status detail ctx = (http status detail, ctx)
  found (some a) status detail ctx = (done a, ctx)

-- `if not test: raise HTTPException(status, detail)`
abbrev pub check_that : Bool → ℕ → Detail → Handler (Unit {0})
check_that true status detail ctx = (done tt, ctx)
check_that false status detail ctx = (http status detail, ctx)

abbrev pub modify : (FogContext → FogContext) → Handler (Unit {0})
modify f ctx = (done tt, f ctx)

-- `ctx.sessions.get`, which removes an expired session
abbrev pub session_get : Str → ℕ → Handler (Option Session)
session_get session_id now ctx =
    let (s, store) = get_session ctx.sessions session_id now in
    (done s, record ctx { sessions = store })

-- A session object is shared with the store: what is written to it shows there.
abbrev pub save_session : Str → Session → Handler (Unit {0})
save_session session_id s = modify λ ctx. record ctx {
  sessions = record ctx.sessions { sessions = insert session_id s ctx.sessions.sessions };
}

abbrev pub set_devices : DeviceStore → Handler (Unit {0})
set_devices devices = modify λ ctx. record ctx { devices = devices }

abbrev pub set_epochs : EpochManager → Handler (Unit {0})
set_epochs epochs = modify λ ctx. record ctx { epochs = epochs }

abbrev pub set_tokens : TokenState → Handler (Unit {0})
set_tokens token_state = modify λ ctx. record ctx { token_state = token_state }
