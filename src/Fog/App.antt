-- ===== src/Fog/App.antt =====
-- The wiring of a fog node (create_app and health of fog/main.py), with the settings of config.py.
use blockchain_io_t_a.Prelude.{Bool, List, Option, Result, [], ok, true, ℕ, ◌>>=◌, ◌∷◌}
use blockchain_io_t_a.Common.Crypto.{Crypto, public_key_bytes}
use blockchain_io_t_a.Epochs.{batch_size, epoch_manager}
use blockchain_io_t_a.Fog.Context.{FogContext, Handler, done}
use blockchain_io_t_a.Ledger.{block_count, open_ledger}
use blockchain_io_t_a.Prelude.Json.{Object}
use blockchain_io_t_a.Prelude.Text.{Str, codes, to_hex}
use blockchain_io_t_a.Psk.{PskStore, psk_count}
use blockchain_io_t_a.Tokens.Nonces.{TokenState}

abbrev pub fog_id_setting : Str
fog_id_setting = codes "fog_A"

abbrev pub fog_zone : Str
fog_zone = codes "factory_A"

abbrev pub session_ttl_seconds : ℕ
session_ttl_seconds = 300

abbrev pub challenge_ttl_seconds : ℕ
challenge_ttl_seconds = 30

abbrev pub default_admin_key : Str
default_admin_key = codes "fog_admin_demo_key"

abbrev pub carry_forward_active : Bool
carry_forward_active = true

abbrev pub allowed_device_types : List Str
allowed_device_types =
    codes "temperature_sensor"
    ∷ codes "pressure_sensor"
    ∷ codes "smart_meter"
    ∷ codes "camera"
    ∷ codes "valve_controller"
    ∷ codes "motor_controller"
    ∷ codes "plc"
    ∷ []

-- NONCE_TTL_SECONDS
abbrev pub nonce_ttl_seconds : ℕ
nonce_ttl_seconds = 30

abbrev pub new_token_state : TokenState
new_token_state = record {
  issued = [];
  revoked_ids = [];
  nonces = record { ttl = nonce_ttl_seconds; entries = [] };
}

-- What /health answers; the status is always "ok".
pub record HealthResponse : Type 0 where
  pub fog_id : Str
  pub zone : Str
  pub fog_public_key : Str
  pub registered_psks : ℕ
  pub anchored_epochs : ℕ
  pub current_epoch : ℕ
  pub queued : ℕ

module _ (c : Crypto) where
  -- `entries` is the content of the PSK store, and `file` that of the ledger file.
  unfoldable pub create_app :
      PskStore → ℕ → Option (List Object) → ℕ → ℕ → Bool → Str → Result FogContext
  create_app entries signing_key file challenge_ttl session_ttl carry_forward admin_key = do
    ledger ← open_ledger c file signing_key fog_id_setting
    epochs ← epoch_manager ledger signing_key fog_id_setting carry_forward
    ok (record {
      fog_id = fog_id_setting;
      zone = fog_zone;
      signing_key = signing_key;
      psk_store = entries;
      sessions = record { ttl = session_ttl; sessions = [] };
      devices = [];
      ledger = ledger;
      epochs = epochs;
      challenge_ttl = challenge_ttl;
      admin_key = admin_key;
      allowed_types = allowed_device_types;
      token_state = new_token_state;
    })

  unfoldable pub fog_public_key_hex : FogContext → Str
  fog_public_key_hex ctx = to_hex (public_key_bytes c ctx.signing_key)

  unfoldable pub health : Handler HealthResponse
  unfolding fog_public_key_hex
  health ctx = (
    done (record {
      fog_id = ctx.fog_id;
      zone = ctx.zone;
      fog_public_key = fog_public_key_hex ctx;
      registered_psks = psk_count ctx.psk_store;
      anchored_epochs = block_count ctx.ledger;
      current_epoch = ctx.epochs.current_epoch_id;
      queued = batch_size ctx.epochs;
    }),
    ctx,
  )
