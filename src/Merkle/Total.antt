-- ===== src/Merkle/Total.antt =====
-- When the constructor succeeds: on one or more distinct hashes, and on nothing else.
use blockchain_io_t_a.Common.Canonical.{hash_len}
use blockchain_io_t_a.Common.Crypto.{Crypto, Sound}
use blockchain_io_t_a.Merkle.Proof.Complete.{build_complete}
use blockchain_io_t_a.Merkle.Proof.Levels.{AllHash, IsHash}
use blockchain_io_t_a.Merkle.Sort.{distinct, insert_leaf, sorted}
use blockchain_io_t_a.Merkle.Tree.{MerkleTree, build, enumerate, merkle_tree}
use blockchain_io_t_a.Prelude.{
  Bool, Bool-cases, List, [], all, arith, false, if◌then◌else◌, inl, inr, length, mem, nat_beq,
  nat_eq, ok, raise, refl, suc, text_beq_refl, text_eq, true, value_error, ◌++◌, ◌<◌, ◌∷◌, ◌≡◌, ◌≢◌,
}
use blockchain_io_t_a.Prelude.Json.{text_le}
use blockchain_io_t_a.Prelude.Text.{Bytes}

length-insert_leaf : (x : Bytes) (l : List Bytes) → length (insert_leaf x l) ≡ suc (length l)
unfolding insert_leaf
length-insert_leaf x [] = refl
length-insert_leaf x (y ∷ l) = ground (arith, length-insert_leaf x l)

pub length-sorted : (l : List Bytes) → length (sorted l) ≡ length l
unfolding sorted
length-sorted [] = refl
length-sorted (x ∷ l) = omega (arith, length-insert_leaf x (sorted l), length-sorted l)

AllHash-insert_leaf :
    (x : Bytes) (l : List Bytes) → IsHash x → AllHash l → AllHash (insert_leaf x l)
unfolding insert_leaf
AllHash-insert_leaf x [] h k = (h, tt)
AllHash-insert_leaf x (y ∷ l) h k = elim (Bool-cases (text_le x y)) [
  | inl below ↦ rw below (h, k)
  | inr above ↦ rw above (k.0, AllHash-insert_leaf x l h k.1)
]

pub AllHash-sorted : (l : List Bytes) → AllHash l → AllHash (sorted l)
unfolding sorted
AllHash-sorted [] h = tt
AllHash-sorted (x ∷ l) h = AllHash-insert_leaf x (sorted l) h.0 (AllHash-sorted l h.1)

all-AllHash : (l : List Bytes) → AllHash l → all (λ leaf. nat_beq (length leaf) hash_len) l ≡ true
all-AllHash [] h = refl
all-AllHash (x ∷ l) h = ground (arith, all-AllHash l h.1)

module _ (c : Crypto) (s : Sound c) where
  ordered_built :
      (ordered : List Bytes)
      → AllHash ordered
      → 0 < length ordered
      → (levels : List (List Bytes)) × (build c (suc (length ordered)) ordered ≡ ok levels)
  ordered_built ordered h pos =
      let (levels, ends, _, _) =
        build_complete c s (suc (length ordered)) ordered h pos (omega arith) in
      (ordered ∷ levels, ends)

  -- Any one or more distinct 32-byte hashes make a tree: the loop of `_build` ends and nothing
  -- raises. Its leaves are those given, in order where `sort` is set.
  pub merkle_tree-total :
      (leaves : List Bytes) (sort : Bool)
      → AllHash leaves
      → 0 < length leaves
      → distinct leaves ≡ true
      → (t : MerkleTree) × (merkle_tree c leaves sort ≡ ok t)
        × (t.leaves ≡ (if sort then sorted leaves else leaves))
  unfolding merkle_tree
  merkle_tree-total leaves true h pos d =
      let (levels, ends) =
        ordered_built (sorted leaves) (AllHash-sorted leaves h)
          (omega (arith, length-sorted leaves)) in
      (
        record { leaves = sorted leaves; index = enumerate 0 (sorted leaves) []; levels = levels },
        ground (arith, all-AllHash leaves h),
        refl,
      )
  merkle_tree-total leaves false h pos d =
      let (levels, ends) = ordered_built leaves h pos in
      (
        record { leaves = leaves; index = enumerate 0 leaves []; levels = levels },
        ground (arith, all-AllHash leaves h),
        refl,
      )

-- Leaves of which no tree is made.
pub data IsBad : List Bytes → Type 0 where
  no_leaf : IsBad []
  wrong_length :
      (before : List Bytes) (leaf : Bytes) (behind : List Bytes)
      → length leaf ≢ 32
      → IsBad (before ++ leaf ∷ behind)
  given_twice :
      (before : List Bytes) (leaf : Bytes) (between behind : List Bytes)
      → IsBad (before ++ leaf ∷ between ++ leaf ∷ behind)

mem-middle :
    (before : List Bytes) (leaf : Bytes) (behind : List Bytes)
    → mem leaf (before ++ leaf ∷ behind) ≡ true
mem-middle [] leaf behind = ground (arith, text_beq_refl leaf)
mem-middle (x ∷ before) leaf behind = ground (arith, mem-middle before leaf behind)

distinct-twice :
    (before : List Bytes) (leaf : Bytes) (between behind : List Bytes)
    → distinct (before ++ leaf ∷ between ++ leaf ∷ behind) ≡ false
unfolding distinct
distinct-twice [] leaf between behind = ground (arith, mem-middle between leaf behind)
distinct-twice (x ∷ before) leaf between behind =
    ground (arith, distinct-twice before leaf between behind)

all-length :
    (before : List Bytes) (leaf : Bytes) (behind : List Bytes)
    → length leaf ≢ 32
    → all (λ leaf. nat_beq (length leaf) hash_len) (before ++ leaf ∷ behind) ≡ false
all-length [] leaf behind h = ground arith
all-length (x ∷ before) leaf behind h = ground (arith, all-length before leaf behind h)

-- The constructor raises ValueError where there is no leaf, where some leaf is not 32 bytes long,
-- and where some leaf is given twice, at whatever places these stand and sorted or not.
pub merkle_tree-refuses :
    (c : Crypto) (leaves : List Bytes) (sort : Bool)
    → IsBad leaves
    → merkle_tree c leaves sort ≡ raise value_error
unfolding merkle_tree
merkle_tree-refuses c leaves sort no_leaf = ground arith
merkle_tree-refuses c leaves sort (wrong_length before leaf behind h) =
    ground (arith, all-length before leaf behind h)
merkle_tree-refuses c leaves sort (given_twice before leaf between behind) =
    ground (arith, distinct-twice before leaf between behind)
