-- ===== src/Fog/Registration.antt =====
-- The registration endpoints (fog/registration/routes.py).
pub mod Possession
use blockchain_io_t_a.Fog.Context.{◌>>=◌, ◌>>◌}
use blockchain_io_t_a.Common.Canonical.{compressed_pk_len}
use blockchain_io_t_a.Common.Crypto.{Crypto, derive_did, load_public_key}
use blockchain_io_t_a.Common.Schemas.{
  DeviceRecord, MetadataRequest, PopRequest, PublicKeyRequest, pending,
}
use blockchain_io_t_a.Epochs.{EpochManager, add_leaf, batch_size}
use blockchain_io_t_a.Fog.Context.{
  Handler, check_that, crash, did_in_session, did_known, did_mismatch, done, epoch_refused, fail,
  found, gets, http, invalid_public_key, malformed_psk_header, metadata_errors, modify, pop_failed,
  psk_failed, pure, save_session, session_get, set_devices, set_epochs, uncaught, unknown_session,
  wrong_step,
}
use blockchain_io_t_a.Fog.Pop.{issue_challenge, verify_pop}
use blockchain_io_t_a.Fog.Validation.{validate_metadata}
use blockchain_io_t_a.Prelude.{
  Option, Result, [], attribute_error, epoch_error, if◌then◌else◌, length, nat_beq, nat_eq, none,
  not, ok, or_raise, raise, some, text_eq, type_error, value_error, ℕ, ◌&&◌, ◌==◌, ◌∷◌,
}
use blockchain_io_t_a.Prelude.Dict.{insert, lookup}
use blockchain_io_t_a.Prelude.Text.{Bytes, Str, codes, from_hex, to_hex}
use blockchain_io_t_a.Psk.{check, parse_authorization}
use blockchain_io_t_a.Storage.{
  Session, SessionState, authenticated, create_session, did_in_use, key_submitted,
  metadata_accepted, pop_verified, state_eq, upsert,
}

pub record StartResponse : Type 0 where
  pub session_id : Str
  pub expires_in : ℕ

pub record ChallengeResponse : Type 0 where
  pub session_id : Str
  pub challenge : Str
  pub expires_in : ℕ

pub record PopResponse : Type 0 where
  pub session_id : Str
  pub did : Str
  pub status : SessionState

pub record QueuedResponse : Type 0 where
  pub did : Str
  pub leaf : Str
  pub epoch_id : ℕ
  pub batch_size : ℕ

unfoldable pub session_or_404 : Str → ℕ → Handler Session
session_or_404 session_id now = do found (← session_get session_id now) 404 unknown_session

unfoldable pub require_state : Session → SessionState → Handler (Unit {0})
require_state s expected = check_that (state_eq s.state expected) 409 (wrong_step s.state expected)

-- A record as register_pop creates it.
abbrev pub pending_record : Str → Str → DeviceRecord
pending_record did public_key = record {
  did = did;
  public_key = public_key;
  status = pending;
  device_name = none;
  device_type = none;
  zone = none;
  vendor = none;
  role = none;
  leaf = none;
  epoch_id = none;
}

-- The metadata that register_metadata writes to a record.
abbrev pub with_metadata : DeviceRecord → MetadataRequest → DeviceRecord
with_metadata rec body = record rec {
  device_name = some body.device_name;
  device_type = some body.device_type;
  zone = some body.zone;
  vendor = some body.vendor;
  role = some body.role;
}

-- `except EpochError` around add_leaf
abbrev pub add_leaf_outcome : Result (EpochManager × Str) → Handler (EpochManager × Str)
add_leaf_outcome (ok r) ctx = (done r, ctx)
add_leaf_outcome (raise epoch_error) ctx = (http 409 epoch_refused, ctx)
add_leaf_outcome (raise x) ctx = (crash x, ctx)

module _ (c : Crypto) where
  -- `fresh` is the random session id, `now` the time of its creation.
  unfoldable pub register_start : Option Str → Str → ℕ → Handler StartResponse
  register_start authorization fresh now = do
    credentials ← found (parse_authorization authorization) 401 malformed_psk_header
    store ← gets (λ ctx. ctx.psk_store)
    check_that (check c store credentials.0 credentials.1) 401 psk_failed
    sessions ← gets (λ ctx. ctx.sessions)
    modify (λ ctx. record ctx { sessions = (create_session sessions credentials.0 fresh now).1 })
    pure (record { session_id = fresh; expires_in = sessions.ttl })

  -- The submitted key, if it is a compressed point in hex.
  unfoldable pub parse_public_key : Str → Option Bytes
  parse_public_key text = elim (from_hex text) [
    | none ↦ none
    | some pk ↦
        if nat_beq (length pk) compressed_pk_len && load_public_key c pk then some pk else none
  ]

  -- Times are read twice: for the session, and for the challenge.
  unfoldable pub register_pubkey : PublicKeyRequest → Bytes → ℕ → ℕ → Handler ChallengeResponse
  register_pubkey body random now now' = do
    s ← session_or_404 body.session_id now
    require_state s authenticated
    pk ← found (parse_public_key body.public_key) 400 invalid_public_key
    check_that (body.did == derive_did c pk) 400 did_mismatch
    existing ← gets (λ ctx. lookup body.did ctx.devices)
    elim existing [ none ↦ pure tt | some rec ↦ fail 409 (did_known rec.status) ]
    sessions ← gets (λ ctx. ctx.sessions)
    check_that (not (did_in_use sessions body.did s.session_id)) 409 did_in_session
    ttl ← gets (λ ctx. ctx.challenge_ttl)
    let submitted = record s { did = some body.did; public_key = some body.public_key }
    let challenged = issue_challenge submitted ttl random now'
    save_session body.session_id (record challenged { state = key_submitted })
    pure (record { session_id = s.session_id; challenge = to_hex random; expires_in = ttl })

  unfoldable pub register_pop : PopRequest → ℕ → ℕ → ℕ → Handler PopResponse
  register_pop body now now' now'' = do
    s ← session_or_404 body.session_id now
    require_state s key_submitted
    let (verdict, used) = verify_pop c s body.signature now'
    save_session body.session_id used
    reason ← uncaught verdict
    elim reason [
      | none ↦ pure tt
      | some why ↦
          save_session body.session_id (record used { state = authenticated })
          >> fail 403 (pop_failed why)
    ]
    save_session body.session_id (record used {
      state = pop_verified;
      timings = insert (codes "pop_verified_at") now'' used.timings;
    })
    did ← uncaught (or_raise used.did type_error)
    public_key ← uncaught (or_raise used.public_key type_error)
    devices ← gets (λ ctx. ctx.devices)
    set_devices (upsert devices (pending_record did public_key))
    pure (record { session_id = s.session_id; did = did; status = pop_verified })

  unfoldable pub register_metadata : MetadataRequest → ℕ → ℕ → Handler QueuedResponse
  register_metadata body now now' = do
    s ← session_or_404 body.session_id now
    require_state s pop_verified
    errors ← gets (λ ctx. validate_metadata body ctx.zone ctx.allowed_types)
    elim errors [ [] ↦ pure tt | e ∷ es ↦ fail 422 (metadata_errors (e ∷ es)) ]
    did ← uncaught (or_raise s.did attribute_error)
    devices ← gets (λ ctx. ctx.devices)
    rec ← uncaught (or_raise (lookup did devices) attribute_error)
    let described = with_metadata rec body
    set_devices (insert did described devices)
    public_key ← uncaught (or_raise s.public_key type_error)
    pk ← uncaught (or_raise (from_hex public_key) value_error)
    epochs ← gets (λ ctx. ctx.epochs)
    (epochs', leaf_hex) ← add_leaf_outcome (add_leaf c epochs did pk now')
    set_epochs epochs'
    set_devices (insert did (record described { leaf = some leaf_hex }) devices)
    save_session body.session_id (record s { state = metadata_accepted })
    pure (record {
      did = did;
      leaf = leaf_hex;
      epoch_id = epochs'.current_epoch_id;
      batch_size = batch_size epochs';
    })
