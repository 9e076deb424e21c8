-- ===== src/Merkle/Bounds.antt =====
-- How high a tree is, and how long a proof can be.
use blockchain_io_t_a.Prelude.{
  >>=-eq-ok, Bool, List, [], ap, arith, false, length, length-append, ltb, ok, refl, suc, true,
  zero, ℕ, ◌*◌, ◌+◌, ◌-◌, ◌/◌, ◌<◌, ◌>>=◌, ◌^◌, ◌∷◌, ◌≡◌, ◌≤◌,
}
use blockchain_io_t_a.Common.Crypto.{Crypto}
use blockchain_io_t_a.Common.Schemas.{ProofStep}
use blockchain_io_t_a.Devices.{answered}
use blockchain_io_t_a.Fog.Context.{found}
use blockchain_io_t_a.Merkle.Closed.{pair_level-ok}
use blockchain_io_t_a.Merkle.Proof.{get_proof, height, index_of, level_step, proof_at, tree_size}
use blockchain_io_t_a.Merkle.Total.{length-sorted}
use blockchain_io_t_a.Merkle.Tree.{
  HexOrBytes, MerkleTree, build, merkle_tree, merkle_tree-eq, pair_level,
}
use blockchain_io_t_a.Prelude.Text.{Bytes}

-- The height of a tree of n leaves: the least h for which n is at most 2 ^ h.
abbrev IsLog : ℕ → ℕ → Type 0
IsLog n zero = n ≡ 1
IsLog n (suc k) = (2 ^ k < n) × (n ≤ 2 ^ k + 2 ^ k)

double : (k : ℕ) → 2 ^ suc k ≡ 2 ^ k + 2 ^ k
double k = omega arith

IsLog-half : (n m h : ℕ) → 1 < n → m ≡ (n + 1) / 2 → IsLog m h → IsLog n (suc h)
IsLog-half n m zero more half low = (omega arith, omega arith)
IsLog-half n m (suc k) more half (low, high) = (omega (arith, double k), omega (arith, double k))

length-pair_level :
    (c : Crypto) (current : List Bytes) {above : List Bytes}
    → pair_level c current ≡ ok above
    → length above ≡ (length current + 1) / 2
unfolding pair_level
length-pair_level c [] h = ground arith
length-pair_level c (x ∷ []) h = ground arith
length-pair_level c (x ∷ y ∷ rest) h =
    let (parent, above, hashed, made, cons) = pair_level-ok c x y rest h in
    let rest_length = length-pair_level c rest made in rw cons (omega arith)

build-pair :
    (c : Crypto) (fuel : ℕ) (x y : Bytes) (rest : List Bytes) {levels : List (List Bytes)}
    → build c (suc fuel) (x ∷ y ∷ rest) ≡ ok levels
    → (above : List Bytes) × (levels' : List (List Bytes)) × (pair_level c (x ∷ y ∷ rest)
        ≡ ok above)
      × (build c fuel above ≡ ok levels')
      × (levels ≡ (x ∷ y ∷ rest) ∷ levels')
unfolding build
build-pair c fuel x y rest {levels} h =
    let current = x ∷ y ∷ rest in
    let more : ltb 1 (length current) ≡ true = ground arith in
    let opened : (pair_level c current >>= λ above.
    build c fuel above >>= λ levels. ok (current ∷ levels))
        ≡ ok levels =
      ground arith in
    let (above, made, after) = >>=-eq-ok (pair_level c current) _ opened in
    let (levels', built, closes) = >>=-eq-ok (build c fuel above) _ after in
    (above, levels', made, built, ground arith)

build-IsLog :
    (c : Crypto) (fuel : ℕ) (current : List Bytes) {levels : List (List Bytes)}
    → 0 < length current
    → build c fuel current ≡ ok levels
    → (h : ℕ) × (length levels ≡ suc h) × IsLog (length current) h
unfolding build
build-IsLog c zero current pos h = cc
build-IsLog c (suc fuel) [] pos h = absurd (omega arith)
build-IsLog c (suc fuel) (x ∷ []) pos h = (0, ground arith, refl)
build-IsLog c (suc fuel) (x ∷ y ∷ rest) {levels} pos h =
    let current = x ∷ y ∷ rest in
    let (above, levels', made, built, cons) = build-pair c fuel x y rest h in
    let size = length-pair_level c current made in
    let (k, count, log) = build-IsLog c fuel above (omega arith) built in
    (
      suc k,
      omega (arith, ap length cons),
      IsLog-half (length current) (length above) k (omega arith) size log,
    )

length-level_step : (index : ℕ) (level : List Bytes) → length (level_step index level) ≤ 1
unfolding level_step
length-level_step index level = ground arith

length-proof_at :
    (index : ℕ) (levels : List (List Bytes)) → length (proof_at index levels) ≤ length levels - 1
unfolding proof_at
length-proof_at index [] = omega arith
length-proof_at index (level ∷ []) = omega arith
length-proof_at index (level ∷ level' ∷ levels) = omega (
  arith,
  length-append {0} {A = ProofStep} (level_step index level)
      (proof_at (index / 2) (level' ∷ levels)),
  length-level_step index level,
  length-proof_at (index / 2) (level' ∷ levels),
)

length-merkle_tree :
    (c : Crypto) (leaves : List Bytes) (sort : Bool) (t : MerkleTree)
    → merkle_tree c leaves sort ≡ ok t
    → 0 < length t.leaves
unfolding merkle_tree
length-merkle_tree c [] sort t h = cc
length-merkle_tree c (x ∷ leaves) true t h =
    omega (arith, ap length (merkle_tree-eq c (x ∷ leaves) true h).0, length-sorted (x ∷ leaves))
length-merkle_tree c (x ∷ leaves) false t h =
    omega (arith, ap length (merkle_tree-eq c (x ∷ leaves) false h).0)

IsLog-bounds : (n h : ℕ) → IsLog n h → (n ≤ 2 ^ h) × (2 ^ h < 2 * n)
IsLog-bounds n zero single = (omega arith, omega arith)
IsLog-bounds n (suc k) (low, high) = (omega (arith, double k), omega (arith, double k))

get_proof-eq :
    (t : MerkleTree) (leaf : HexOrBytes) {path : List ProofStep}
    → get_proof t leaf ≡ ok path
    → (index : ℕ) × (path ≡ proof_at index t.levels)
unfolding get_proof
get_proof-eq t leaf h =
    let (index, found, made) = >>=-eq-ok (index_of t leaf) _ h in (index, ground arith)

-- The height of a tree is the logarithm of its size rounded up, and a proof that `get_proof`
-- answers has at most as many steps as the tree is high.
pub get_proof-bounds :
    (c : Crypto) (leaves : List Bytes) (sort : Bool) (t : MerkleTree) (leaf : HexOrBytes)
    (path : List ProofStep)
    → merkle_tree c leaves sort ≡ ok t
    → get_proof t leaf ≡ ok path
    → (tree_size t ≤ 2 ^ height t) × (2 ^ height t < 2 * tree_size t) × (length path ≤ height t)
unfolding tree_size height
get_proof-bounds c leaves sort t leaf path h answered =
    let (_, _, built, _) = merkle_tree-eq c leaves sort h in
    let (k, count, log) =
      build-IsLog c (suc (length t.leaves)) t.leaves (length-merkle_tree c leaves sort t h) built in
    let level : height t ≡ k = omega arith in
    let (enough, tight) = IsLog-bounds (length t.leaves) k log in
    let (index, made) = get_proof-eq t leaf answered in
    (rw level enough, rw level tight, rw made (length-proof_at index t.levels))
