-- ===== src/Epochs/Total.antt =====
-- Once a root is anchored, the rest of finalize_epoch does not fail.
use blockchain_io_t_a.Common.Crypto.{Crypto, Sound}
use blockchain_io_t_a.Common.Schemas.{ProofPackage, registered}
use blockchain_io_t_a.Epochs.{EpochManager, PendingEntry, build_packages, by_leaf, prepare, view}
use blockchain_io_t_a.Epochs.Close.{prepare-ok}
use blockchain_io_t_a.Epochs.Members.{by_leaf-Every}
use blockchain_io_t_a.Epochs.Ready.{AllHash-ready, AllLeaved, AllReady, IsReady, collect-ready}
use blockchain_io_t_a.Fog.Revocation.{given}
use blockchain_io_t_a.Merkle.Proof.{root}
use blockchain_io_t_a.Merkle.Proof.Complete.{build_complete}
use blockchain_io_t_a.Merkle.Proof.Levels.{AllHash, IsHash}
use blockchain_io_t_a.Merkle.Sort.{sorted}
use blockchain_io_t_a.Merkle.Sorting.{mem-sorted}
use blockchain_io_t_a.Merkle.Total.{AllHash-sorted}
use blockchain_io_t_a.Merkle.Tree.{MerkleTree, merkle_tree, merkle_tree-eq}
use blockchain_io_t_a.Prelude.{
  All, All-mem, List, Option-cases, [], arith, false, inl, inr, length, map, mem, nat_eq, ok, refl,
  some, suc, text_eq, true, ℕ, ◌<◌, ◌||◌, ◌∷◌, ◌≡◌,
}
use blockchain_io_t_a.Prelude.Dict.{Dict, contains, insert, lookup, lookup-insert, values}
use blockchain_io_t_a.Prelude.Dict.Entries.{Every, lookup-Every}
use blockchain_io_t_a.Prelude.Text.{Bytes, Str, to_hex}
use blockchain_io_t_a.Proofs.Complete.{verify_proof_package-build}
use blockchain_io_t_a.Storage.{DeviceStore, by_status}

by_leaf-contains :
    (leaf : Bytes) (es : List PendingEntry) (d : Dict Bytes PendingEntry)
    → (mem leaf (map (λ (e : PendingEntry). e.leaf) es) || contains leaf d) ≡ true
    → contains leaf (by_leaf es d) ≡ true
unfolding by_leaf
by_leaf-contains leaf [] d h = ground arith
by_leaf-contains leaf (e ∷ es) d h =
    by_leaf-contains leaf es (insert e.leaf e d) (ground (arith, lookup-insert e.leaf leaf e d))

-- Each leaf of the tree is the leaf of an entry.
pub entries-cover :
    (leaf : Bytes) (es : List PendingEntry)
    → mem leaf (sorted (map (λ (e : PendingEntry). e.leaf) es)) ≡ true
    → contains leaf (by_leaf es []) ≡ true
entries-cover leaf es h =
    by_leaf-contains leaf es []
      (ground (arith, mem-sorted leaf (map (λ (e : PendingEntry). e.leaf) es)))

pub view-total :
    (i : ℕ) (entries : Dict Bytes PendingEntry) (leaves : List Bytes)
    → All (λ leaf. contains leaf entries ≡ true) leaves
    → (v : List (ℕ × Str × Str)) × (view i entries leaves ≡ ok v)
unfolding view
view-total i entries [] h = ([], refl)
view-total i entries (leaf ∷ leaves) (known, h) = elim (Option-cases (lookup leaf entries)) [
  | inl missing ↦ absurd (ground arith)
  | inr (e, there) ↦
      let (rest, viewed) = view-total (suc i) entries leaves h in
      ((i, to_hex leaf, e.did) ∷ rest, ground arith)
]

module _ (c : Crypto) (tree : MerkleTree) (entries : Dict Bytes PendingEntry) where
  -- The entry of a leaf is found, and it is of that leaf.
  abbrev pub Covers : Bytes → Type 0
  Covers leaf =
      (e : PendingEntry) × (lookup leaf entries ≡ some e)
      × (e.leaf ≡ leaf)
      × IsReady c e
      × (mem leaf tree.leaves ≡ true)

  pub build_packages-total :
      Sound c
      → (given : List Bytes) (epoch_id : ℕ) (fog_id : Str) (key : ℕ) (leaves : List Bytes)
        (packages : Dict Str ProofPackage)
      → AllHash tree.leaves
      → merkle_tree c given false ≡ ok tree
      → All Covers leaves
      → (packages' : Dict Str ProofPackage) × (build_packages c tree epoch_id fog_id key entries
            leaves packages
          ≡ ok packages')
  unfolding build_packages
  build_packages-total s given epoch_id fog_id key [] packages hs made h = (packages, refl)
  build_packages-total s given epoch_id fog_id key (leaf ∷ leaves) packages hs made
        ((e, there, same, (pk, is_key, hashed), known), h) =
      let (pkg, built, verified) =
        verify_proof_package-build c s given false tree e.did e.public_key pk leaf epoch_id fog_id
          key hs made is_key (rw (← same) hashed) known in
      let (packages', rest) =
        build_packages-total s given epoch_id fog_id key leaves (insert e.did pkg packages) hs made
          h in
      (packages', ground arith)

merkle_tree-pos :
    (c : Crypto) (leaves : List Bytes) {t : MerkleTree}
    → merkle_tree c leaves false ≡ ok t
    → 0 < length t.leaves
unfolding merkle_tree
merkle_tree-pos c [] {t} h = ground arith
merkle_tree-pos c (x ∷ leaves) {t} h =
    let (is_leaves, _, _, _) = merkle_tree-eq c (x ∷ leaves) false h in rw is_leaves (omega arith)

module _ (c : Crypto) (s : Sound c) where
  -- What the tree and the members of an epoch are, where what was queued is ready.
  pub record IsPrepared (tree : MerkleTree) (members : Dict Str PendingEntry) : Type 0 where
    pub given : List Bytes
    pub made : merkle_tree c given false ≡ ok tree
    pub hashes : AllHash tree.leaves
    pub root_hash : IsHash (root tree)
    pub known : All (λ leaf. contains leaf (by_leaf (values members) []) ≡ true) tree.leaves
    pub covered : All (Covers c tree (by_leaf (values members) [])) tree.leaves

  tree-IsPrepared :
      (tree : MerkleTree) (members : Dict Str PendingEntry)
      → Every (λ did. IsReady c) members
      → merkle_tree c (sorted (map (λ (e : PendingEntry). e.leaf) (values members))) false ≡ ok tree
      → IsPrepared tree members
  unfolding root
  tree-IsPrepared tree members ready made =
      let given = sorted (map (λ (e : PendingEntry). e.leaf) (values members)) in
      let entries = by_leaf (values members) [] in
      let of_leaf = λ (leaf : Bytes) (e : PendingEntry). (e.leaf ≡ leaf) × IsReady c e in
      let (is_leaves, _, built, _) = merkle_tree-eq c given false made in
      let hashes : AllHash tree.leaves =
        rw is_leaves (AllHash-sorted _ (AllHash-ready c s members ready)) in
      let by =
        by_leaf-Every (λ did. IsReady c) of_leaf (λ did e r. (refl, r)) members [] ready tt in
      let (levels, built', top_hash, _) =
        build_complete c s (suc (length tree.leaves)) tree.leaves hashes
          (merkle_tree-pos c given made) (omega arith) in
      let is_levels : tree.levels ≡ tree.leaves ∷ levels = cc in
      let known = λ (leaf : Bytes) (h : mem leaf tree.leaves ≡ true).
        entries-cover leaf (values members) (rw (← is_leaves) h) in
      record {
        given = given;
        made = made;
        hashes = hashes;
        root_hash = rw is_levels top_hash;
        known = All-mem tree.leaves known;
        covered = All-mem tree.leaves λ leaf h. elim (Option-cases (lookup leaf entries)) [
          | inl missing ↦ absurd (ground (arith, known leaf h))
          | inr (e, there) ↦
              let (same, r) = lookup-Every of_leaf leaf e entries by there in (e, there, same, r, h)
        ];
      }

  pub prepare-IsPrepared :
      (m : EpochManager) (devices : DeviceStore) (blocked : List Str) (tree : MerkleTree)
      (members : Dict Str PendingEntry) (carried new : ℕ)
      → AllReady c m.pending
      → AllLeaved c (by_status devices registered)
      → prepare c m devices blocked ≡ ok (tree, members, carried, new)
      → IsPrepared tree members
  prepare-IsPrepared m devices blocked tree members carried new ready leaved h =
      let (collected, made) = prepare-ok c m devices blocked tree members carried new h in
      tree-IsPrepared tree members
        (collect-ready c m devices blocked members carried new ready leaved collected) made
