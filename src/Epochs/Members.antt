-- ===== src/Epochs/Members.antt =====
-- What holds of the entries that an epoch is made of holds of its members, and then of the packages
-- that are made for them.
use blockchain_io_t_a.Common.Crypto.{Crypto}
use blockchain_io_t_a.Common.Schemas.{DeviceRecord, ProofPackage, registered}
use blockchain_io_t_a.Epochs.{
  EpochManager, PendingEntry, admit, build_packages, by_leaf, carry, collect,
}
use blockchain_io_t_a.Merkle.Tree.{MerkleTree}
use blockchain_io_t_a.Prelude.{
  All, Bool-cases, List, Option-cases, Result-cases, [], arith, false, inl, inr, mem, nat_eq, not,
  ok, some, text_eq, ℕ, ◌&&◌, ◌+◌, ◌∷◌, ◌≡◌,
}
use blockchain_io_t_a.Prelude.Dict.{Dict, contains, insert, lookup, values}
use blockchain_io_t_a.Prelude.Dict.Entries.{Every, insert-Every}
use blockchain_io_t_a.Prelude.Text.{Bytes, Str, from_hex}
use blockchain_io_t_a.Proofs.{build_proof_package}
use blockchain_io_t_a.Storage.{DeviceStore, by_status}

-- The entry of a device that is carried forward.
abbrev pub carried_entry : DeviceRecord → Bytes → PendingEntry
carried_entry rec leaf = record {
  did = rec.did;
  public_key = rec.public_key;
  leaf = leaf;
  queued_at = 0;
}

module _ (P : Str → PendingEntry → Type 0) (blocked : List Str) where
  -- `P` holds of the device, once it is carried forward.
  abbrev pub Carries : DeviceRecord → Type 0
  Carries rec =
      mem rec.did blocked ≡ false
      → (text : Str) (leaf : Bytes) → rec.leaf ≡ some text
      → from_hex text ≡ some leaf
      → P rec.did (carried_entry rec leaf)

  -- `P` holds of a queued entry that is not blocked.
  abbrev pub Admits : Str → PendingEntry → Type 0
  Admits did e = mem did blocked ≡ false → P did e

  carry-Every :
      (batch : Dict Str PendingEntry) (recs : List DeviceRecord)
      (members members' : Dict Str PendingEntry) (n n' : ℕ)
      → carry blocked batch recs (members, n) ≡ ok (members', n')
      → All Carries recs
      → Every P members
      → Every P members'
  unfolding carry
  carry-Every batch [] members members' n n' h l a =
      let same : members ≡ members' = ground arith in rw (← same) a
  carry-Every batch (rec ∷ recs) members members' n n' h (l, ls) a =
      elim (Bool-cases (not (mem rec.did blocked) && not (contains rec.did batch))) [
        | inr skipped ↦ carry-Every batch recs members members' n n' (ground arith) ls a
        | inl carried ↦ elim (Option-cases rec.leaf) [
          | inl no_leaf ↦ absurd (ground arith)
          | inr (text, has_text) ↦ elim (Option-cases (from_hex text)) [
            | inl bad ↦ absurd (ground arith)
            | inr (leaf, is_leaf) ↦
                let e = carried_entry rec leaf in
                carry-Every batch recs (insert rec.did e members) members' (n + 1) n' (ground arith)
                  ls
                  (insert-Every P rec.did e members (l (ground arith) text leaf has_text is_leaf) a)
          ]
        ]
      ]

  admit-Every :
      (batch : Dict Str PendingEntry) (members : Dict Str PendingEntry) (n : ℕ)
      → Every Admits batch
      → Every P members
      → Every P (admit blocked batch (members, n)).0
  unfolding admit
  admit-Every [] members n b a = a
  admit-Every ((did, e) ∷ batch) members n (r, b) a = elim (Bool-cases (mem did blocked)) [
    | inl out ↦
        let same : admit blocked ((did, e) ∷ batch) (members, n)
            ≡ admit blocked batch (members, n) =
          ground arith in
        rw same (admit-Every batch members n b a)
    | inr kept ↦
        let same : admit blocked ((did, e) ∷ batch) (members, n)
            ≡ admit blocked batch (insert did e members, n + 1) =
          ground arith in
        rw same (
          admit-Every batch (insert did e members) (n + 1) b
            (insert-Every P did e members (r kept) a))
  ]

  pub collect-Every :
      (c : Crypto) (m : EpochManager) (devices : DeviceStore) (members : Dict Str PendingEntry)
      (carried new : ℕ)
      → Every Admits m.pending
      → All Carries (by_status devices registered)
      → collect c m devices blocked ≡ ok (members, carried, new)
      → Every P members
  unfolding collect
  collect-Every c m devices members carried new r l h = elim (Bool-cases m.carry_forward) [
    | inr without ↦
        let same : members ≡ (admit blocked m.pending ([], 0)).0 = ground arith in
        rw same (admit-Every m.pending [] 0 r tt)
    | inl with_old ↦
        elim (Result-cases (carry blocked m.pending (by_status devices registered) ([], 0))) [
          | inr (x, raised) ↦ absurd (ground arith)
          | inl ((old, count), ran) ↦
              let same : members ≡ (admit blocked m.pending (old, 0)).0 = ground arith in
              rw same (
                admit-Every m.pending old 0 r
                  (carry-Every m.pending (by_status devices registered) [] old 0 count ran l tt))
        ]
  ]

pub by_leaf-Every :
    (P : Str → PendingEntry → Type 0) (Q : Bytes → PendingEntry → Type 0)
    → ((did : Str) (e : PendingEntry) → P did e → Q e.leaf e)
    → (d : Dict Str PendingEntry) (acc : Dict Bytes PendingEntry) → Every P d
    → Every Q acc
    → Every Q (by_leaf (values d) acc)
unfolding by_leaf
by_leaf-Every P Q f [] acc r b = b
by_leaf-Every P Q f ((did, e) ∷ d) acc (r, rs) b =
    by_leaf-Every P Q f d (insert e.leaf e acc) rs (insert-Every Q e.leaf e acc (f did e r) b)

module _ (c : Crypto) (Q : Str → ProofPackage → Type 0) (tree : MerkleTree) (epoch_id : ℕ)
    (fog_id : Str) (key : ℕ) (entries : Dict Bytes PendingEntry) where
  -- `Q` holds of the package that is made for the leaf.
  abbrev pub Packs : Bytes → Type 0
  Packs leaf =
      (e : PendingEntry) (pkg : ProofPackage)
      → lookup leaf entries ≡ some e
      → build_proof_package c e.did e.public_key leaf tree epoch_id fog_id key ≡ ok pkg
      → Q e.did pkg

  pub build_packages-Every :
      (leaves : List Bytes) (packages packages' : Dict Str ProofPackage)
      → All Packs leaves
      → build_packages c tree epoch_id fog_id key entries leaves packages ≡ ok packages'
      → Every Q packages
      → Every Q packages'
  unfolding build_packages
  build_packages-Every [] packages packages' q h a =
      let same : packages ≡ packages' = ground arith in rw (← same) a
  build_packages-Every (leaf ∷ leaves) packages packages' (q, qs) h a =
      elim (Option-cases (lookup leaf entries)) [
        | inl missing ↦ absurd (ground arith)
        | inr (e, there) ↦
            elim (Result-cases
              (build_proof_package c e.did e.public_key leaf tree epoch_id fog_id key)) [
                | inr (x, raised) ↦ absurd (ground arith)
                | inl (pkg, built) ↦
                    build_packages-Every leaves (insert e.did pkg packages) packages' qs
                      (ground arith) (insert-Every Q e.did pkg packages (q e pkg there built) a)
              ]
      ]
