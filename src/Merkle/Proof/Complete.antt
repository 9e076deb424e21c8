-- ===== src/Merkle/Proof/Complete.antt =====
-- Every leaf of a tree has a proof that the verifier accepts, and the constructor's loop ends.
use blockchain_io_t_a.Common.Crypto.{Crypto, Sound}
use blockchain_io_t_a.Common.Schemas.{ProofStep}
use blockchain_io_t_a.Merkle.Proof.{
  climb, get_proof, proof_at, reconstruct_root, root, verify_proof,
}
use blockchain_io_t_a.Merkle.Proof.Levels.{AllHash, IsHash, climb-level_step, pair_level-total}
use blockchain_io_t_a.Merkle.Tree.{
  MerkleTree, build, bytes, enumerate, hex, merkle_tree, merkle_tree-eq, pair_level, top,
}
use blockchain_io_t_a.Prelude.{
  Bool, Bool-cases, List, Option-cases, [], ap, arith, get_elem?, inl, inr, length, mem, nat_eq, ok,
  refl, some, suc, text_beq_iff, text_beq_refl, text_eq, true, zero, ℕ, ◌+◌, ◌/◌, ◌<◌, ◌==◌, ◌||◌,
  ◌∙◌, ◌∷◌, ◌≡◌, ◌≤◌, ◌⊎◌,
}
use blockchain_io_t_a.Prelude.Dict.{Dict, contains, insert, lookup, lookup-insert}
use blockchain_io_t_a.Prelude.Text.{Bytes, from_hex-to_hex, to_hex}

single_get : (x : Bytes) (index : ℕ) (y : Bytes) → get_elem? (x ∷ []) index ≡ some y → y ≡ x
single_get x zero y g = ground arith
single_get x (suc index) y g = cc

build_more :
    (c : Crypto) (fuel : ℕ) (current above : List Bytes) {levels : List (List Bytes)}
    → pair_level c current ≡ ok above
    → build c fuel above ≡ ok levels
    → 1 < length current
    → build c (suc fuel) current ≡ ok (current ∷ levels)
unfolding build
build_more c fuel current above made built more = ground arith

module _ (c : Crypto) (s : Sound c) where
  -- The loop of `_build` ends within its fuel, and from every node of the first level the proof
  -- climbs to the top.
  pub build_complete :
      (fuel : ℕ) (current : List Bytes)
      → AllHash current
      → 0 < length current
      → length current ≤ fuel
      → (levels : List (List Bytes)) × (build c fuel current ≡ ok (current ∷ levels))
        × IsHash (top (current ∷ levels))
        × ((index : ℕ) (x : Bytes)
            → get_elem? current index ≡ some x
            → climb c x (proof_at index (current ∷ levels)) ≡ some (top (current ∷ levels)))
  unfolding build proof_at top climb
  build_complete zero current h pos enough = absurd (omega arith)
  build_complete (suc fuel) [] h pos enough = absurd (omega arith)
  build_complete (suc fuel) (x ∷ []) h pos enough =
      ([], refl, h.0, λ index y g. ap some (single_get x index y g))
  build_complete (suc fuel) (x ∷ y ∷ rest) h pos enough =
      let current = x ∷ y ∷ rest in
      let (above, made, size, hashes) = pair_level-total c s current h in
      let (levels, built, hash, climbs) =
        build_complete fuel above hashes (omega arith) (omega arith) in
      (
        above ∷ levels,
        build_more c fuel current above made built (omega arith),
        hash,
        λ index b g.
            let (p, found, leads) = climb-level_step c s current above index b h made g in
            leads (proof_at (index / 2) (above ∷ levels)) ∙ climbs (index / 2) p found,
      )

-- `_index` gives positions at which the leaf stands.
enumerate_sound :
    (leaves : List Bytes) (i : ℕ) (d : Dict Bytes ℕ) (b : Bytes) (j : ℕ)
    → lookup b (enumerate i leaves d) ≡ some j
    → (lookup b d ≡ some j) ⊎ ((k : ℕ) × (j ≡ i + k) × (get_elem? leaves k ≡ some b))
unfolding enumerate
enumerate_sound [] i d b j h = inl h
enumerate_sound (leaf ∷ leaves) i d b j h =
    elim (enumerate_sound leaves (suc i) (insert leaf i d) b j h) [
      | inl old ↦ elim (Bool-cases (b == leaf)) [
        | inl same ↦
            inr (0, ground (arith, lookup-insert leaf b i d), ground (arith, text_beq_iff b leaf))
        | inr other ↦ inl (ground (arith, lookup-insert leaf b i d))
      ]
      | inr (k, e, found) ↦ inr (suc k, omega arith, found)
    ]

enumerate-known :
    (leaves : List Bytes) (i : ℕ) (d : Dict Bytes ℕ) (b : Bytes)
    → (mem b leaves || contains b d) ≡ true
    → (j : ℕ) × (lookup b (enumerate i leaves d) ≡ some j)
unfolding enumerate
enumerate-known [] i d b h = elim (Option-cases (lookup b d)) [
  | inl missing ↦ ground arith
  | inr found ↦ found
]
enumerate-known (leaf ∷ leaves) i d b h =
    enumerate-known leaves (suc i) (insert leaf i d) b (ground (arith, lookup-insert leaf b i d))

-- A leaf of the tree has a position in `_index`.
index_of-known :
    (leaves : List Bytes) (b : Bytes)
    → mem b leaves ≡ true
    → (j : ℕ) × (lookup b (enumerate 0 leaves []) ≡ some j) × (get_elem? leaves j ≡ some b)
index_of-known leaves b h =
    let (j, found) = enumerate-known leaves 0 [] b (ground arith) in
    elim (enumerate_sound leaves 0 [] b j found) [
      | inl none_yet ↦ cc
      | inr (k, e, stands) ↦ (j, found, let same : j ≡ k = omega arith in rw same stands)
    ]

pub mem-pos : (leaves : List Bytes) (b : Bytes) → mem b leaves ≡ true → 0 < length leaves
mem-pos [] b h = cc
mem-pos (x ∷ xs) b h = omega arith

pub AllHash-mem :
    (leaves : List Bytes) (b : Bytes) → AllHash leaves → mem b leaves ≡ true → IsHash b
AllHash-mem [] b h m = cc
AllHash-mem (x ∷ xs) b h m = elim (Bool-cases (b == x)) [
  | inl same ↦ rw ((text_beq_iff b x).0 same) h.0
  | inr other ↦ AllHash-mem xs b h.1 (ground arith)
]

-- The verifier's tests around the climb.
verify_proof-of_climb :
    (c : Crypto) (leaf : Bytes) (path : List ProofStep) (expected : Bytes)
    → length leaf ≡ 32
    → length expected ≡ 32
    → climb c leaf path ≡ some expected
    → verify_proof c (bytes leaf) path (bytes expected) ≡ true
unfolding verify_proof
verify_proof-of_climb c leaf path expected p q e = ground (arith, text_beq_refl expected)

module _ (c : Crypto) (s : Sound c) where
  -- A tree built from hashes: for every leaf that `_index` knows, get_proof gives a path and
  -- verify_proof accepts it against the root of the tree.
  pub verify_proof-get_proof :
      (leaves : List Bytes) (sort : Bool) (t : MerkleTree) (leaf : Bytes)
      → AllHash t.leaves
      → merkle_tree c leaves sort ≡ ok t
      → mem leaf t.leaves ≡ true
      → (path : List ProofStep) × (get_proof t (bytes leaf) ≡ ok path)
        × (verify_proof c (bytes leaf) path (bytes (root t)) ≡ true)
  unfolding get_proof root
  verify_proof-get_proof leaves sort t leaf h made known =
      let (ordered, indexed, built, _) = merkle_tree-eq c leaves sort made in
      let (levels, ends, hash, climbs) =
        build_complete c s (suc (length t.leaves)) t.leaves h (mem-pos t.leaves leaf known)
          (omega arith) in
      let (index, found, stands) = index_of-known t.leaves leaf known in
      let same : t.levels ≡ t.leaves ∷ levels = ground arith in
      (
        proof_at index t.levels,
        rw (indexed, found),
        rw same (
            verify_proof-of_climb c leaf _ _ (AllHash-mem t.leaves leaf h known).0 hash.0
              (climbs index leaf stands)),
      )

  -- What verify_proof accepts as bytes, reconstruct_root gives for the hex text.
  pub reconstruct_root-of_verify :
      (leaf : Bytes) (path : List ProofStep) (r : Bytes)
      → IsHash leaf
      → verify_proof c (bytes leaf) path (bytes r) ≡ true
      → reconstruct_root c (hex (to_hex leaf)) path ≡ some r
  unfolding verify_proof reconstruct_root
  reconstruct_root-of_verify leaf path r h e = elim (Option-cases (climb c leaf path)) [
    | inl none_found ↦ absurd (ground arith)
    | inr (v, climbed) ↦ ground (arith, from_hex-to_hex leaf h.1, text_beq_iff v r)
  ]
