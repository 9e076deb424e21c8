-- ===== src/Storage.antt =====
-- The in-memory state of the fog (fog/storage/device_store.py).
pub mod Expired
use blockchain_io_t_a.Common.Schemas.{DeviceRecord, DeviceStatus, status_eq}
use blockchain_io_t_a.Prelude.{
  Bool, List, Option, [], any, false, if◌then◌else◌, ltb, nat_eq, none, not, select, some, text_eq,
  true, ℕ, ◌&&◌, ◌+◌, ◌==◌,
}
use blockchain_io_t_a.Prelude.Dict.{Dict, contains, erase, insert, lookup, values}
use blockchain_io_t_a.Prelude.Text.{Str}

pub data SessionState : Type 0 where
  authenticated key_submitted pop_verified metadata_accepted : SessionState

abbrev pub state_eq : SessionState → SessionState → Bool
state_eq authenticated authenticated = true
state_eq key_submitted key_submitted = true
state_eq pop_verified pop_verified = true
state_eq metadata_accepted metadata_accepted = true
state_eq _ _ = false

-- Times are whole numbers of seconds of the fog's clock.
pub record Session : Type 0 where
  pub session_id : Str
  pub provisioning_id : Str
  pub created_at : ℕ
  pub state : SessionState
  pub did : Option Str
  pub public_key : Option Str
  pub challenge : Option Str
  pub challenge_expires : ℕ
  pub challenge_used : Bool
  pub timings : Dict Str ℕ

pub record SessionStore : Type 0 where
  pub ttl : ℕ
  pub sessions : Dict Str Session

-- `fresh` is the random session id.
unfoldable pub create_session : SessionStore → Str → Str → ℕ → Session × SessionStore
create_session store provisioning_id fresh now =
    let s : Session = record {
      session_id = fresh;
      provisioning_id = provisioning_id;
      created_at = now;
      state = authenticated;
      did = none;
      public_key = none;
      challenge = none;
      challenge_expires = 0;
      challenge_used = true;
      timings = [];
    } in
    (s, record store { sessions = insert fresh s store.sessions })

-- An expired session is removed when it is asked for.
unfoldable pub get_session : SessionStore → Str → ℕ → Option Session × SessionStore
get_session store session_id now = elim (lookup session_id store.sessions) [
  | none ↦ (none, store)
  | some s ↦
      if ltb (s.created_at + store.ttl) now
      then (none, record store { sessions = erase session_id store.sessions })
      else (some s, store)
]

abbrev pub text_is : Option Str → Str → Bool
text_is none t = false
text_is (some s) t = s == t

-- The test of did_in_use on one session.
unfoldable pub uses_did : Str → Str → Session → Bool
uses_did did exclude_session s =
    text_is s.did did
    && (not (s.session_id == exclude_session) && not (state_eq s.state authenticated))

unfoldable pub did_in_use : SessionStore → Str → Str → Bool
unfolding uses_did
did_in_use store did exclude_session = any (uses_did did exclude_session) (values store.sessions)

-- `_devices`
abbrev pub DeviceStore : Type 0
DeviceStore = Dict Str DeviceRecord

unfoldable pub upsert : DeviceStore → DeviceRecord → DeviceStore
upsert devices record' = insert record'.did record' devices

unfoldable pub exists : DeviceStore → Str → Bool
exists devices did = contains did devices

unfoldable pub set_status : DeviceStore → Str → DeviceStatus → DeviceStore
set_status devices did status = elim (lookup did devices) [
  | none ↦ devices
  | some rec ↦ insert did (record rec { status = status }) devices
]

unfoldable pub by_status : DeviceStore → DeviceStatus → List DeviceRecord
by_status devices status = select (λ d. status_eq d.status status) (values devices)

unfoldable pub get_device : DeviceStore → Str → Option DeviceRecord
get_device devices did = lookup did devices

unfoldable pub all_devices : DeviceStore → List DeviceRecord
all_devices devices = values devices
