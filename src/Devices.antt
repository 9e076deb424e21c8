-- ===== src/Devices.antt =====
-- A simulated device and its requests (devices/device.py, devices/runtime_client.py). Its HTTP
-- client is connected to one fog: a request runs the handler, and every status but 200 raises.
pub mod Runtime
pub mod Honest
use blockchain_io_t_a.Fog.Registration
use blockchain_io_t_a.Common.Canonical.{pop_message}
use blockchain_io_t_a.Common.Crypto.{Crypto, derive_did, public_key_bytes, sign}
use blockchain_io_t_a.Common.Schemas.{MetadataRequest, ProofPackage, PublicKeyRequest}
use blockchain_io_t_a.Fog.App.{fog_zone}
use blockchain_io_t_a.Fog.Context.{Detail, FogContext, Handler, Outcome, crash, done, http}
use blockchain_io_t_a.Fog.EpochRoutes.{get_proof_route}
use blockchain_io_t_a.Fog.Registration.{
  PopResponse, QueuedResponse, register_metadata, register_pop, register_pubkey,
}
use blockchain_io_t_a.Prelude.{
  Eq, Error, Option, Result, [], nat_eq, none, ok, raise, some, text_eq, value_error, ℕ, ◌++◌, ◌∷◌,
}
use blockchain_io_t_a.Prelude.Dict.{Dict, lookup}
use blockchain_io_t_a.Prelude.Text.{Bytes, Str, codes, from_hex, to_hex}
use blockchain_io_t_a.Psk.{scheme}

-- Where a request failed, in the words of the code.
pub data Stage : Type 0 where
  start_stage public_key_stage possession_stage metadata_stage proof_stage : Stage
  token_issue_stage token_nonce_stage verify_nonce_stage : Stage

-- A step of a device: a value, RegistrationError or RuntimeAccessError with the status, or another
-- exception. The detail is none where the fog answers no HTTPException.
pub data Answer (A : Type 0) : Type 0 where
  returned : A → Answer A
  failed : Stage → ℕ → Option Detail → Answer A
  died : Error → Answer A

-- `timings` is left out: it only measures.
pub record Device : Type 0 where
  pub name : Str
  pub psk : Str
  pub private_key : ℕ
  pub pk_bytes : Bytes
  pub did : Str
  pub session_id : Option Str
  pub leaf : Option Str
  pub proof_package : Option ProofPackage

abbrev pub Client : Type 0 → Type 0
Client A = Device → FogContext → Answer A × Device × FogContext

abbrev pub go_on :
    {A B : Type 0}
    → (A → Client B)
    → Answer A × Device × FogContext
    → Answer B × Device × FogContext
go_on f (returned a, d, ctx) = f a d ctx
go_on f (failed stage status detail, d, ctx) = (failed stage status detail, d, ctx)
go_on f (died x, d, ctx) = (died x, d, ctx)

infixl 5 ◌>>=◌ ◌>>◌
abbrev pub ◌>>=◌ : {A B : Type 0} → Client A → (A → Client B) → Client B
◌>>=◌ m f d ctx = go_on f (m d ctx)

abbrev pub ◌>>◌ : {A B : Type 0} → Client A → Client B → Client B
m >> k = m >>= λ _. k

module _ {A : Type 0} where
  abbrev pub give : A → Client A
  give a d ctx = (returned a, d, ctx)

  -- What the client makes of an outcome.
  abbrev pub answered : Stage → Outcome A → Answer A
  answered stage (done a) = returned a
  answered stage (http status detail) = failed stage status (some detail)
  answered stage (crash x) = failed stage 500 none

  -- `_post` and `_json_or_raise`
  unfoldable pub post : Stage → Handler A → Client A
  post stage h d ctx = let (o, ctx') = h ctx in (answered stage o, d, ctx')

  abbrev pub or_die : Result A → Client A
  or_die (ok a) d ctx = (returned a, d, ctx)
  or_die (raise x) d ctx = (died x, d, ctx)

-- an answer that the client reads as it comes
abbrev pub observe : {A : Type 0} → Handler A → Client (Outcome A)
observe h d ctx = let (o, ctx') = h ctx in (returned o, d, ctx')

abbrev pub self : Client Device
self d ctx = (returned d, d, ctx)

abbrev pub update : (Device → Device) → Client (Unit {0})
update f d ctx = (returned tt, f d, ctx)

-- `self.session_id` in a JSON body: None is refused with 422 before the handler runs.
unfoldable pub session_of : Stage → Client Str
session_of stage d ctx = elim d.session_id [
  | none ↦ (failed stage 422 none, d, ctx)
  | some s ↦ (returned s, d, ctx)
]

-- DEMO_DEVICES: the type and the role of each
unfoldable pub demo_devices : Dict Str (Str × Str)
demo_devices =
    (codes "temp01", (codes "temperature_sensor", codes "sensor"))
    ∷ (codes "pressure01", (codes "pressure_sensor", codes "sensor"))
    ∷ (codes "meter01", (codes "smart_meter", codes "sensor"))
    ∷ (codes "camera01", (codes "camera", codes "monitor"))
    ∷ (codes "valve01", (codes "valve_controller", codes "actuator"))
    ∷ (codes "motor01", (codes "motor_controller", codes "actuator"))
    ∷ (codes "plc01", (codes "plc", codes "controller"))
    ∷ (codes "temp02", (codes "temperature_sensor", codes "sensor"))
    ∷ []

abbrev pub default_vendor : Str
default_vendor = codes "Acme"

abbrev pub sim_device_type : Str × Str
sim_device_type = (codes "temperature_sensor", codes "sensor")

-- `DEMO_DEVICES.get(self.name, SIM_DEVICE_TYPE)`
unfoldable pub default_metadata : Str → Str × Str
default_metadata name = elim (lookup name demo_devices) [ none ↦ sim_device_type | some t ↦ t ]

-- `value or default`
abbrev pub text_or : Option Str → Str → Str
text_or none other = other
text_or (some []) other = other
text_or (some (x ∷ s)) other = x ∷ s

module _ (c : Crypto) where
  -- `__init__` with the key that it loads or makes
  unfoldable pub new_device : Str → Str → ℕ → Device
  new_device name psk private_key = record {
    name = name;
    psk = psk;
    private_key = private_key;
    pk_bytes = public_key_bytes c private_key;
    did = derive_did c (public_key_bytes c private_key);
    session_id = none;
    leaf = none;
    proof_package = none;
  }

  -- `fresh` and `now` are the session id and the time that the fog takes.
  unfoldable pub register_start : Str → ℕ → Client Str
  register_start fresh now = do
    d ← self
    let header = scheme ++ codes " " ++ d.name ++ codes ":" ++ d.psk
    r ← post start_stage (Registration.register_start c (some header) fresh now)
    update (λ d. record d { session_id = some r.session_id })
    give r.session_id

  unfoldable pub submit_public_key : Bytes → ℕ → ℕ → Client Str
  unfolding session_of
  submit_public_key random now now' = do
    d ← self
    session_id ← session_of public_key_stage
    let body : PublicKeyRequest = record {
      session_id = session_id;
      did = d.did;
      public_key = to_hex d.pk_bytes;
    }
    r ← post public_key_stage (register_pubkey c body random now now')
    give r.challenge

  unfoldable pub sign_challenge : Device → Str → Result Str
  sign_challenge d challenge_hex = elim (from_hex challenge_hex) [
    | none ↦ raise value_error
    | some challenge ↦ ok (to_hex (sign c d.private_key (pop_message challenge d.did)))
  ]

  unfoldable pub prove_possession : Str → ℕ → ℕ → ℕ → Client PopResponse
  unfolding session_of sign_challenge
  prove_possession challenge_hex now now' now'' = do
    d ← self
    signature ← or_die (sign_challenge d challenge_hex)
    session_id ← session_of possession_stage
    post possession_stage
        (register_pop c (record { session_id = session_id; signature = signature }) now now' now'')

  unfoldable pub submit_metadata :
      Option Str → Option Str → Str → Str → ℕ → ℕ → Client QueuedResponse
  unfolding session_of default_metadata
  submit_metadata device_type role vendor zone now now' = do
    d ← self
    session_id ← session_of metadata_stage
    let usual = default_metadata d.name
    let body : MetadataRequest = record {
      session_id = session_id;
      device_name = d.name;
      device_type = text_or device_type usual.0;
      zone = zone;
      vendor = vendor;
      role = text_or role usual.1;
    }
    r ← post metadata_stage (register_metadata c body now now')
    update (λ d. record d { leaf = some r.leaf })
    give r

  unfoldable pub fetch_proof : Option ℕ → Client ProofPackage
  fetch_proof epoch_id = do
    d ← self
    pkg ← post proof_stage (get_proof_route d.did epoch_id)
    update (λ d. record d { proof_package = some pkg })
    give pkg

  -- Times of the fog in the order in which it reads them.
  unfoldable pub register : Str → Bytes → (ℕ → ℕ) → Client QueuedResponse
  unfolding register_start submit_public_key prove_possession submit_metadata
  register fresh random time = do
    register_start fresh (time 0)
    challenge ← submit_public_key random (time 1) (time 2)
    prove_possession challenge (time 3) (time 4) (time 5)
    submit_metadata none none default_vendor fog_zone (time 6) (time 7)

  unfoldable pub onboard : Str → Bytes → (ℕ → ℕ) → Client PopResponse
  unfolding register_start submit_public_key prove_possession
  onboard fresh random time = do
    register_start fresh (time 0)
    challenge ← submit_public_key random (time 1) (time 2)
    prove_possession challenge (time 3) (time 4) (time 5)
