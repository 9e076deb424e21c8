-- ===== src/Epochs/Batch.antt =====
-- Whom finalize_epoch leaves out: revocation takes effect at the next epoch.
use blockchain_io_t_a.Common.Crypto.{Crypto}
use blockchain_io_t_a.Common.Schemas.{ProofPackage, registered}
use blockchain_io_t_a.Epochs.{EpochManager, PendingEntry, build_packages, by_leaf, collect}
use blockchain_io_t_a.Epochs.Members.{Admits, build_packages-Every, by_leaf-Every, collect-Every}
use blockchain_io_t_a.Merkle.Tree.{MerkleTree}
use blockchain_io_t_a.Prelude.{
  All-every, Bool, List, Option-cases, [], arith, false, inl, inr, mem, nat_eq, not, ok, refl,
  text_beq_iff, text_eq, true, ℕ, ◌&&◌, ◌==◌, ◌∷◌, ◌≡◌,
}
use blockchain_io_t_a.Prelude.Dict.{Dict, contains, lookup, values}
use blockchain_io_t_a.Prelude.Dict.Entries.{Every, Every-mono, lookup-Every}
use blockchain_io_t_a.Prelude.Text.{Str}
use blockchain_io_t_a.Storage.{DeviceStore, by_status}

-- No entry of these is of a blocked DID.
abbrev pub free : List Str → PendingEntry → Bool
free blocked e = not (mem e.did blocked)

-- Each entry is queued under its own DID, as add_leaf writes it.
abbrev pub keyed : Dict Str PendingEntry → Bool
keyed [] = true
keyed ((did, e) ∷ d) = (e.did == did) && keyed d

pub keyed-Every : (d : Dict Str PendingEntry) → keyed d ≡ true → Every (λ did e. did ≡ e.did) d
keyed-Every [] h = tt
keyed-Every ((did, e) ∷ d) h =
    (ground (arith, text_beq_iff e.did did), keyed-Every d (ground arith))

pub Every-keyed : (d : Dict Str PendingEntry) → Every (λ did e. e.did ≡ did) d → keyed d ≡ true
Every-keyed [] h = refl
Every-keyed ((did, e) ∷ d) (same, h) = ground (arith, text_beq_iff e.did did, Every-keyed d h)

-- The members of an epoch are of DIDs that are not blocked.
pub collect-free :
    (c : Crypto) (m : EpochManager) (devices : DeviceStore) (blocked : List Str)
    (members : Dict Str PendingEntry) (carried new : ℕ)
    → keyed m.pending ≡ true
    → collect c m devices blocked ≡ ok (members, carried, new)
    → Every (λ did e. free blocked e ≡ true) members
collect-free c m devices blocked members carried new k h =
    collect-Every (λ did e. free blocked e ≡ true) blocked c m devices members carried new
      (Every-mono (λ did e. did ≡ e.did) (Admits (λ did e. free blocked e ≡ true) blocked)
        (λ did e same kept. ground arith) m.pending (keyed-Every m.pending k))
      (All-every (λ rec kept text leaf a b. ground arith) (by_status devices registered)) h

-- The members of an epoch are kept under their own DIDs, too.
pub collect-keyed :
    (c : Crypto) (m : EpochManager) (devices : DeviceStore) (blocked : List Str)
    (members : Dict Str PendingEntry) (carried new : ℕ)
    → keyed m.pending ≡ true
    → collect c m devices blocked ≡ ok (members, carried, new)
    → Every (λ did e. did ≡ e.did) members
collect-keyed c m devices blocked members carried new k h =
    collect-Every (λ did e. did ≡ e.did) blocked c m devices members carried new
      (Every-mono (λ did e. did ≡ e.did) (Admits (λ did e. did ≡ e.did) blocked)
        (λ did e same kept. same) m.pending (keyed-Every m.pending k))
      (All-every (λ rec kept text leaf a b. refl) (by_status devices registered)) h

absent :
    {V : Type 0} (blocked : List Str) (did : Str) (d : Dict Str V)
    → Every (λ k v. mem k blocked ≡ false) d
    → mem did blocked ≡ true
    → contains did d ≡ false
absent blocked did d free' h = elim (Option-cases (lookup did d)) [
  | inl none_there ↦ ground arith
  | inr (v, there) ↦
      let unblocked = lookup-Every (λ k v. mem k blocked ≡ false) did v d free' there in
      absurd (ground arith)
]

module _ (c : Crypto) where
  -- No package is made of a blocked DID.
  pub build_packages-absent :
      (blocked : List Str) (did : Str) (tree : MerkleTree) (epoch_id : ℕ) (fog_id : Str) (key : ℕ)
      (members : Dict Str PendingEntry) (packages : Dict Str ProofPackage)
      → Every (λ k e. free blocked e ≡ true) members
      → build_packages c tree epoch_id fog_id key (by_leaf (values members) []) tree.leaves []
        ≡ ok packages
      → mem did blocked ≡ true
      → contains did packages ≡ false
  build_packages-absent blocked did tree epoch_id fog_id key members packages f built =
      let entries = by_leaf (values members) [] in
      let kept =
        by_leaf-Every (λ k e. free blocked e ≡ true) (λ leaf e. free blocked e ≡ true) (λ k e h. h)
          members [] f tt in
      absent blocked did packages (
        build_packages-Every c (λ k pkg. mem k blocked ≡ false) tree epoch_id fog_id key entries
          tree.leaves [] packages
          (All-every
            (λ leaf e pkg there made.
              let unblocked =
                lookup-Every (λ leaf e. free blocked e ≡ true) leaf e entries kept there in
              ground arith)
            tree.leaves)
          built tt)
