-- ===== src/Epochs.antt =====
-- The epoch manager (fog/batch/epoch_manager.py).
pub mod Admitted
pub mod Batch
pub mod Close
pub mod Complete
pub mod Issued
pub mod Live
pub mod Unsaved
pub mod Members
pub mod Outcome
pub mod Ready
pub mod Total
pub mod Verified
use blockchain_io_t_a.Prelude.{
  Bool, Eq, List, Option, Result, [], epoch_error, false, if◌then◌else◌, key_error, length, map,
  mem, nat_beq, nat_eq, none, not, ok, or_raise, raise, require, select, some, suc, text_eq,
  type_error, value_error, ℕ, ◌&&◌, ◌++◌, ◌+◌, ◌>>=◌, ◌>>◌, ◌||◌, ◌∷◌,
}
use blockchain_io_t_a.Common.Canonical.{leaf_hash}
use blockchain_io_t_a.Common.Crypto.{Crypto}
use blockchain_io_t_a.Common.Schemas.{DeviceRecord, ProofPackage, pending, registered, revoked}
use blockchain_io_t_a.Ledger.{Ledger, anchor_root, latest_epoch}
use blockchain_io_t_a.Merkle.Proof.{root}
use blockchain_io_t_a.Merkle.Sort.{sorted}
use blockchain_io_t_a.Merkle.Tree.{MerkleTree, merkle_tree}
use blockchain_io_t_a.Prelude.{true}
use blockchain_io_t_a.Prelude.Dict.{Dict, contains, insert, keys, lookup, values}
use blockchain_io_t_a.Prelude.Json.{Object, Value, bool, null, num}
use blockchain_io_t_a.Prelude.Text.{Bytes, Str, from_hex, to_hex}
use blockchain_io_t_a.Proofs.{build_proof_package}
use blockchain_io_t_a.Storage.{DeviceStore, by_status}

pub record PendingEntry : Type 0 where
  pub did : Str
  pub public_key : Str
  pub leaf : Bytes
  pub queued_at : ℕ

pub record EpochManager : Type 0 where
  pub signing_key : ℕ
  pub fog_id : Str
  pub carry_forward : Bool
  pub current_epoch_id : ℕ
  pub pending : Dict Str PendingEntry
  pub packages : Dict ℕ (Dict Str ProofPackage)
  pub latest_package : Dict Str ProofPackage
  pub active_dids : List Str

-- `timings_ms` is left out: it only measures.
pub record EpochResult : Type 0 where
  pub epoch_id : ℕ
  pub root : Str
  pub block : Object
  pub sorted_leaves : List (ℕ × Str × Str)
  pub packages : Dict Str ProofPackage
  pub new_devices : ℕ
  pub carried_forward : ℕ
  pub excluded : List Str

-- What finalize_epoch changes: the manager, and the stores that it shares with the fog.
pub record EpochState : Type 0 where
  pub manager : EpochManager
  pub devices : DeviceStore
  pub ledger : Ledger

-- `latest + 1`, or 1 where there is no latest epoch
unfoldable pub first_epoch : Option Value → Result ℕ
first_epoch none = ok 1
first_epoch (some v) = elim v [
  | null ↦ ok 1
  | num n ↦ ok (n + 1)
  | bool b ↦ ok (if b then 2 else 1)
  | _ ↦ raise type_error
]

-- `__init__`
unfoldable pub epoch_manager : Ledger → ℕ → Str → Bool → Result EpochManager
unfolding latest_epoch first_epoch
epoch_manager ledger signing_key fog_id carry_forward = do
  latest ← latest_epoch ledger
  first ← first_epoch latest
  ok (record {
    signing_key = signing_key;
    fog_id = fog_id;
    carry_forward = carry_forward;
    current_epoch_id = first;
    pending = [];
    packages = [];
    latest_package = [];
    active_dids = [];
  })

unfoldable pub batch_size : EpochManager → ℕ
batch_size m = length m.pending

unfoldable pub pending_dids : EpochManager → List Str
pending_dids m = keys m.pending

-- `blocked`: the excluded and the revoked DIDs
unfoldable pub blocked_dids : DeviceStore → List Str → List Str
blocked_dids devices excluded =
    excluded ++ map (λ (d : DeviceRecord). d.did) (by_status devices revoked)

-- The first loop of finalize_epoch: the devices that are carried forward. `bytes.fromhex(rec.leaf)`
-- raises TypeError on None.
unfoldable pub carry :
    List Str
    → Dict Str PendingEntry
    → List DeviceRecord
    → Dict Str PendingEntry × ℕ
    → Result (Dict Str PendingEntry × ℕ)
carry blocked batch [] acc = ok acc
carry blocked batch (rec ∷ recs) (members, carried) =
    elim (not (mem rec.did blocked) && not (contains rec.did batch)) [
      | true ↦ do
        text ← or_raise rec.leaf type_error
        leaf ← or_raise (from_hex text) value_error
        carry blocked batch recs (
          insert rec.did
              (record { did = rec.did; public_key = rec.public_key; leaf = leaf; queued_at = 0 })
              members,
          carried + 1,
        )
      | false ↦ carry blocked batch recs (members, carried)
    ]

-- The second loop: the new batch.
unfoldable pub admit :
    List Str → Dict Str PendingEntry → Dict Str PendingEntry × ℕ → Dict Str PendingEntry × ℕ
admit blocked [] acc = acc
admit blocked ((did, entry) ∷ batch) (members, new) =
    admit blocked batch
      (if mem did blocked then (members, new) else (insert did entry members, new + 1))

-- `{e.leaf: e for e in members.values()}`
unfoldable pub by_leaf : List PendingEntry → Dict Bytes PendingEntry → Dict Bytes PendingEntry
by_leaf [] d = d
by_leaf (e ∷ es) d = by_leaf es (insert e.leaf e d)

-- Step 5 for one device.
unfoldable pub mark_registered : ℕ → Str × ProofPackage → DeviceStore → DeviceStore
mark_registered epoch_id (did, pkg) devices = elim (lookup did devices) [
  | none ↦ devices
  | some rec ↦
      insert did
        (record rec { status = registered; leaf = some pkg.leaf; epoch_id = some epoch_id }) devices
]

unfoldable pub mark_all : ℕ → Dict Str ProofPackage → DeviceStore → DeviceStore
unfolding mark_registered
mark_all epoch_id [] devices = devices
mark_all epoch_id (p ∷ ps) devices = mark_all epoch_id ps (mark_registered epoch_id p devices)

unfoldable pub put_all : Dict Str ProofPackage → Dict Str ProofPackage → Dict Str ProofPackage
put_all [] latest = latest
put_all ((did, pkg) ∷ ps) latest = put_all ps (insert did pkg latest)

-- `sorted_view`, from position `i` on
unfoldable pub view : ℕ → Dict Bytes PendingEntry → List Bytes → Result (List (ℕ × Str × Str))
view i entries [] = ok []
view i entries (leaf ∷ leaves) = do
  e ← or_raise (lookup leaf entries) key_error
  rest ← view (suc i) entries leaves
  ok ((i, to_hex leaf, e.did) ∷ rest)

-- The elements of a set that was made from a list.
unfoldable pub unique : List Str → List Str
unique [] = []
unique (x ∷ xs) = let rest = unique xs in if mem x xs then rest else x ∷ rest

-- The DIDs that the new root leaves out: blocked ones that were waiting or active.
unfoldable pub dropped_dids : EpochManager → List Str → List Str
unfolding unique
dropped_dids m blocked =
    sorted (unique (select (λ d. contains d m.pending || mem d m.active_dids) blocked))

module _ (c : Crypto) where
  unfoldable pub add_leaf : EpochManager → Str → Bytes → ℕ → Result (EpochManager × Str)
  add_leaf m did pk now = do
    require (not (contains did m.pending)) epoch_error
    leaf ← leaf_hash c did pk
    let entry : PendingEntry = record {
      did = did;
      public_key = to_hex pk;
      leaf = leaf;
      queued_at = now;
    }
    ok (record m { pending = insert did entry m.pending }, to_hex leaf)

  -- The loop of step 4: one package for each leaf of the tree.
  unfoldable pub build_packages :
      MerkleTree
      → ℕ
      → Str
      → ℕ
      → Dict Bytes PendingEntry
      → List Bytes
      → Dict Str ProofPackage
      → Result (Dict Str ProofPackage)
  build_packages tree epoch_id fog_id key entries [] packages = ok packages
  build_packages tree epoch_id fog_id key entries (leaf ∷ leaves) packages = do
    e ← or_raise (lookup leaf entries) key_error
    pkg ← build_proof_package c e.did e.public_key leaf tree epoch_id fog_id key
    build_packages tree epoch_id fog_id key entries leaves (insert e.did pkg packages)

  -- `members` and the counts of carried and of new devices.
  unfoldable pub collect :
      EpochManager → DeviceStore → List Str → Result (Dict Str PendingEntry × ℕ × ℕ)
  collect m devices blocked = do
    (carried, count) ←
        (if m.carry_forward
          then carry blocked m.pending (by_status devices registered) ([], 0)
          else ok ([], 0))
    let (members, new) = admit blocked m.pending (carried, 0)
    ok (members, count, new)

  -- Steps 4 and 5, with the root anchored in `ledger`.
  unfoldable pub issue_proofs :
      EpochState
      → MerkleTree
      → Object
      → Dict Str PendingEntry
      → ℕ
      → ℕ
      → List Str
      → Result (EpochResult × EpochState)
  issue_proofs st tree block members carried new dropped = do
    let m = st.manager
    let entries = by_leaf (values members) []
    let epoch_id = m.current_epoch_id
    packages ← build_packages tree epoch_id m.fog_id m.signing_key entries tree.leaves []
    sorted_view ← view 0 entries tree.leaves
    ok (
      record {
        epoch_id = epoch_id;
        root = to_hex (root tree);
        block = block;
        sorted_leaves = sorted_view;
        packages = packages;
        new_devices = new;
        carried_forward = carried;
        excluded = dropped;
      },
      record st {
        manager = record m {
          packages = insert epoch_id packages m.packages;
          latest_package = put_all packages m.latest_package;
          active_dids = keys packages;
          pending = [];
          current_epoch_id = epoch_id + 1;
        };
        devices = mark_all epoch_id packages st.devices;
      },
    )

  -- Up to step 2: the members and their tree, or why there is none.
  unfoldable pub prepare :
      EpochManager → DeviceStore → List Str → Result (MerkleTree × Dict Str PendingEntry × ℕ × ℕ)
  prepare m devices blocked = do
    (members, carried, new) ← collect m devices blocked
    require (not (nat_beq (length members) 0)) epoch_error
    let leaves_sorted = sorted (map (λ (e : PendingEntry). e.leaf) (values members))
    tree ← merkle_tree c leaves_sorted false
    ok (tree, members, carried, new)

  -- A raise before the anchoring leaves all as it was; one after it leaves the root anchored.
  unfoldable pub finalize_epoch : EpochState → List Str → Str → Result EpochResult × EpochState
  finalize_epoch st exclude_dids timestamp =
      let m = st.manager in
      let blocked = blocked_dids st.devices exclude_dids in
      elim (prepare m st.devices blocked) [
        | raise x ↦ (raise x, st)
        | ok (tree, members, carried, new) ↦
            elim (anchor_root c st.ledger m.current_epoch_id (to_hex (root tree))
              (length tree.leaves) timestamp) [
                | raise x ↦ (raise x, st)
                | ok (ledger, block) ↦
                    let anchored = record st { ledger = ledger } in
                    elim (issue_proofs anchored tree block members carried new
                      (dropped_dids m blocked)) [
                        | raise x ↦ (raise x, anchored)
                        | ok (result, st') ↦ (ok result, st')
                      ]
              ]
      ]

unfoldable pub get_package : EpochManager → Str → Option ℕ → Option ProofPackage
get_package m did none = lookup did m.latest_package
get_package m did (some epoch_id) = elim (lookup epoch_id m.packages) [
  | none ↦ none
  | some packages ↦ lookup did packages
]

module _ (c : Crypto) where
  -- One round of the loop of start_auto_close: an EpochError is passed over, and what else is raised
  -- ends the thread.
  unfoldable pub auto_close : EpochState → Str → Result (Unit {0}) × EpochState
  auto_close st timestamp =
      if nat_beq (batch_size st.manager) 0
      then (ok tt, st)
      else (let (result, st') = finalize_epoch c st [] timestamp in
          (
            elim result [
              | ok r ↦ ok tt
              | raise x ↦ elim x [ epoch_error ↦ ok tt | other ↦ raise other ]
            ],
            st',
          ))
