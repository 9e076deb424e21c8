-- ===== src/Common/Schemas.antt =====
-- The record shapes that the components share (common/schemas.py).
use blockchain_io_t_a.Prelude.{Bool, List, Option, false, true, ℕ}
use blockchain_io_t_a.Prelude.Text.{Str}

pub data DeviceStatus : Type 0 where
  pending tokenized registered revoked : DeviceStatus

abbrev pub status_eq : DeviceStatus → DeviceStatus → Bool
status_eq pending pending = true
status_eq tokenized tokenized = true
status_eq registered registered = true
status_eq revoked revoked = true
status_eq _ _ = false

pub record MetadataRequest : Type 0 where
  pub session_id : Str
  pub device_name : Str
  pub device_type : Str
  pub zone : Str
  pub vendor : Str
  pub role : Str

pub record PublicKeyRequest : Type 0 where
  pub session_id : Str
  pub did : Str
  pub public_key : Str

pub record PopRequest : Type 0 where
  pub session_id : Str
  pub signature : Str

-- A step of a proof path as the dict that travels: a key may be missing.
pub record ProofStep : Type 0 where
  pub sibling : Option Str
  pub side : Option Str

pub record ProofPackage : Type 0 where
  pub did : Str
  pub public_key : Str
  pub leaf : Str
  pub epoch_id : ℕ
  pub root : Str
  pub proof_path : List ProofStep
  pub fog_id : Str
  pub fog_signature : Str

pub record DeviceRecord : Type 0 where
  pub did : Str
  pub public_key : Str
  pub status : DeviceStatus
  pub device_name : Option Str
  pub device_type : Option Str
  pub zone : Option Str
  pub vendor : Option Str
  pub role : Option Str
  pub leaf : Option Str
  pub epoch_id : Option ℕ
