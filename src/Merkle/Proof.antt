-- ===== src/Merkle/Proof.antt =====
-- get_proof, reconstruct_root and verify_proof (fog/merkle/merkle_tree.py).
pub mod Levels
pub mod Complete
use blockchain_io_t_a.Prelude.{
  Bool, Eq, List, Option, Result, [], false, get_or, if◌then◌else◌, key_error, length, ltb, nat_beq,
  nat_eq, none, ok, or_raise, raise, some, text_eq, true, ℕ, ◌%◌, ◌++◌, ◌+◌, ◌-◌, ◌/◌, ◌==◌, ◌>>=◌,
  ◌>>◌, ◌∷◌,
}
use blockchain_io_t_a.Common.Canonical.{hash_len, node_hash}
use blockchain_io_t_a.Common.Crypto.{Crypto}
use blockchain_io_t_a.Common.Schemas.{ProofStep}
use blockchain_io_t_a.Merkle.Tree.{HexOrBytes, MerkleTree, as_bytes, merkle_tree, top}
use blockchain_io_t_a.Prelude.Dict.{contains, lookup}
use blockchain_io_t_a.Prelude.Text.{Bytes, Str, codes, from_hex, to_hex}

abbrev pub side_left : Str
side_left = codes "L"

abbrev pub side_right : Str
side_right = codes "R"

-- `index ^ 1`
unfoldable pub flip : ℕ → ℕ
flip index = if nat_beq (index % 2) 0 then index + 1 else index - 1

-- What one round of the loop in get_proof adds: nothing for a promoted node.
unfoldable pub level_step : ℕ → List Bytes → List ProofStep
level_step index level =
    let sibling = flip index in
    if ltb sibling (length level)
    then record {
      sibling = some (to_hex (get_or level sibling []));
      side = some (if ltb sibling index then side_left else side_right);
    }
      ∷ []
    else []

-- The loop over `levels[:-1]`.
unfoldable pub proof_at : ℕ → List (List Bytes) → List ProofStep
unfolding level_step flip
proof_at index [] = []
proof_at index (level ∷ []) = []
proof_at index (level ∷ level' ∷ levels) =
    level_step index level ++ proof_at (index / 2) (level' ∷ levels)

unfoldable pub contains_leaf : MerkleTree → HexOrBytes → Result Bool
unfolding as_bytes
contains_leaf t leaf = do b ← as_bytes leaf; ok (contains b t.index)

unfoldable pub index_of : MerkleTree → HexOrBytes → Result ℕ
unfolding as_bytes
index_of t leaf = do b ← as_bytes leaf; or_raise (lookup b t.index) key_error

unfoldable pub get_proof : MerkleTree → HexOrBytes → Result (List ProofStep)
unfolding index_of
get_proof t leaf = do index ← index_of t leaf; ok (proof_at index t.levels)

unfoldable pub tree_size : MerkleTree → ℕ
tree_size t = length t.leaves

-- number of hashing levels above the leaves
unfoldable pub height : MerkleTree → ℕ
height t = length t.levels - 1

unfoldable pub root : MerkleTree → Bytes
root t = top t.levels

unfoldable pub root_hex : MerkleTree → Str
unfolding root
root_hex t = to_hex (root t)

-- The value of a call inside a `try` whose handler returns None.
abbrev pub returned {ℓ} : {A : Type ℓ} → Result A → Option A
returned (ok a) = some a
returned (raise x) = none

module _ (c : Crypto) where
  -- One round of the loop in reconstruct_root.
  unfoldable pub step_up : Bytes → ProofStep → Option Bytes
  step_up current step = elim step.sibling [
    | none ↦ none
    | some text ↦ elim (from_hex text) [
      | none ↦ none
      | some sibling ↦
          if nat_beq (length sibling) hash_len
          then elim step.side [
            | none ↦ none
            | some side ↦
                if side == side_left
                then returned (node_hash c sibling current)
                else if side == side_right
                then returned (node_hash c current sibling)
                else none
          ]
          else none
    ]
  ]

  unfoldable pub climb : Bytes → List ProofStep → Option Bytes
  unfolding step_up
  climb current [] = some current
  climb current (step ∷ path) = elim (step_up current step) [
    | none ↦ none
    | some parent ↦ climb parent path
  ]

  unfoldable pub reconstruct_root : HexOrBytes → List ProofStep → Option Bytes
  unfolding as_bytes
  reconstruct_root leaf path = elim (as_bytes leaf) [
    | raise _ ↦ none
    | ok current ↦ if nat_beq (length current) hash_len then climb current path else none
  ]

  unfoldable pub verify_proof : HexOrBytes → List ProofStep → HexOrBytes → Bool
  unfolding as_bytes reconstruct_root
  verify_proof leaf path root = elim (as_bytes root) [
    | raise _ ↦ false
    | ok expected ↦
        if nat_beq (length expected) hash_len
        then elim (reconstruct_root leaf path) [ none ↦ false | some top ↦ top == expected ]
        else false
  ]

  unfoldable pub compute_root : List Bytes → Result Bytes
  compute_root leaves = do tree ← merkle_tree c leaves true; ok (root tree)
