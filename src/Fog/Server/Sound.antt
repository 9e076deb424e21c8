-- ===== src/Fog/Server/Sound.antt =====
-- What holds of the context of a running fog.
use blockchain_io_t_a.Common.Crypto.{Crypto}
use blockchain_io_t_a.Common.Schemas.{ProofPackage}
use blockchain_io_t_a.Epochs.{EpochManager, PendingEntry}
use blockchain_io_t_a.Epochs.Issued.{Verifies}
use blockchain_io_t_a.Epochs.Ready.{IsReady}
use blockchain_io_t_a.Fog.Context.{FogContext}
use blockchain_io_t_a.Fog.Server.Keys.{IsStore, KeepsKeys, SameKeys, key_of}
use blockchain_io_t_a.Fog.Server.Sessions.{AreApart, SameKeys-AreApart}
use blockchain_io_t_a.Ledger.{Ledger, get_root}
use blockchain_io_t_a.Prelude.{none, some, ℕ, ◌∙◌, ◌≡◌, ◌≤◌}
use blockchain_io_t_a.Prelude.Dict.{Dict}
use blockchain_io_t_a.Prelude.Dict.Entries.{Every, Every-mono}
use blockchain_io_t_a.Prelude.Text.{Str, from_hex}
use blockchain_io_t_a.Storage.{DeviceStore, SessionStore}
use blockchain_io_t_a.Tokens.Nonces.{TokenState}

-- A queued entry stands under its own DID, its leaf is the hash of its DID and key, and its key is
-- the recorded one.
abbrev pub IsQueued : Crypto → DeviceStore → Str → PendingEntry → Type 0
IsQueued c devices did e =
    (did ≡ e.did)
    × IsReady c e
    × (text : Str) × (key_of devices did ≡ some text)
    × (from_hex text ≡ from_hex e.public_key)

-- A package is of the DID that it is kept under, and the verifier accepts it against the root that
-- the ledger holds for its epoch.
abbrev pub IsAnchored : Crypto → ℕ → Ledger → Str → ProofPackage → Type 0
IsAnchored c key ledger did pkg =
    (did ≡ pkg.did)
    × (root : Str) × (get_root ledger pkg.epoch_id ≡ some root)
    × Verifies c (some root) key pkg

abbrev pub AllAnchored : Crypto → ℕ → Ledger → ℕ → Dict Str ProofPackage → Type 0
AllAnchored c key ledger n packages =
    Every (λ did pkg. (pkg.epoch_id ≡ n) × IsAnchored c key ledger did pkg) packages

pub record IsKeeping (c : Crypto) (key : ℕ) (devices : DeviceStore) (epochs : EpochManager)
    (ledger : Ledger) : Type 0 where
  pub own_key : epochs.signing_key ≡ key
  pub queued : Every (IsQueued c devices) epochs.pending
  pub numbered : (n : ℕ) → epochs.current_epoch_id ≤ n → get_root ledger n ≡ none
  pub issued : Every (AllAnchored c key ledger) epochs.packages
  pub latest : Every (IsAnchored c key ledger) epochs.latest_package

pub record IsSound (c : Crypto) (ctx : FogContext) : Type 0 where
  pub store : IsStore c ctx.devices
  pub sessions : AreApart ctx.sessions.sessions ctx.devices
  pub keeping : IsKeeping c ctx.signing_key ctx.devices ctx.epochs ctx.ledger

pub KeepsKeys-IsKeeping :
    (c : Crypto) (key : ℕ) (devices devices' : DeviceStore) (epochs : EpochManager)
    (ledger : Ledger)
    → KeepsKeys devices devices'
    → IsKeeping c key devices epochs ledger
    → IsKeeping c key devices' epochs ledger
KeepsKeys-IsKeeping c key devices devices' epochs ledger keeps w = record {
  own_key = w.own_key;
  queued =
      Every-mono (IsQueued c devices) (IsQueued c devices')
        (λ did e (named, ready, text, has, key). (named, ready, text, keeps did text has, key))
        epochs.pending w.queued;
  numbered = w.numbered;
  issued = w.issued;
  latest = w.latest;
}

-- New sessions, and devices with the same keys, in place of the old ones.
pub put-IsSound :
    (c : Crypto) (ctx : FogContext) (sessions : SessionStore) (devices : DeviceStore)
    (token_state : TokenState)
    → IsSound c ctx
    → SameKeys ctx.devices devices
    → IsStore c devices
    → AreApart sessions.sessions ctx.devices
    → IsSound c (record ctx { sessions = sessions; devices = devices; token_state = token_state })
put-IsSound c ctx sessions devices token_state w same store apart = record {
  store = store;
  sessions = SameKeys-AreApart sessions.sessions ctx.devices devices same apart;
  keeping =
      KeepsKeys-IsKeeping c ctx.signing_key ctx.devices devices ctx.epochs ctx.ledger
        (λ did text has. same did ∙ has) w.keeping;
}

-- A context with the same devices, epochs, ledger and key, and other sessions.
pub sessions-IsSound :
    (c : Crypto) (ctx ctx' : FogContext)
    → IsSound c ctx
    → AreApart ctx'.sessions.sessions ctx.devices
    → ctx'.devices ≡ ctx.devices
    → ctx'.epochs ≡ ctx.epochs
    → ctx'.ledger ≡ ctx.ledger
    → ctx'.signing_key ≡ ctx.signing_key
    → IsSound c ctx'
sessions-IsSound c ctx ctx' w apart d e l k = record {
  store = rw d w.store;
  sessions = rw d apart;
  keeping = rw (d, e, l, k) w.keeping;
}
