-- ===== src/Merkle/Tree.antt =====
-- MerkleTree: the constructor, `_build` and the read access.
use blockchain_io_t_a.Common.Canonical.{hash_len, node_hash}
use blockchain_io_t_a.Common.Crypto.{Crypto}
use blockchain_io_t_a.Merkle.Sort.{distinct, sorted}
use blockchain_io_t_a.Prelude.{
  Bool, List, Result, [], all, arith, diverges, false, if◌then◌else◌, length, ltb, nat_beq, nat_eq,
  not, ok, or_raise, raise, require, suc, text_eq, true, value_error, zero, ℕ, ◌>>=◌, ◌>>◌, ◌∷◌,
  ◌≡◌,
}
use blockchain_io_t_a.Prelude.Dict.{Dict, insert}
use blockchain_io_t_a.Prelude.Text.{Bytes, Str, from_hex}

-- `HexOrBytes`
pub data HexOrBytes : Type 0 where
  bytes : Bytes → HexOrBytes
  hex : Str → HexOrBytes

unfoldable pub as_bytes : HexOrBytes → Result Bytes
as_bytes (bytes b) = ok b
as_bytes (hex s) = or_raise (from_hex s) value_error

pub record MerkleTree : Type 0 where
  pub leaves : List Bytes
  pub index : Dict Bytes ℕ
  pub levels : List (List Bytes)

-- `{leaf: i for i, leaf in enumerate(leaves)}`, from position `i` on
unfoldable pub enumerate : ℕ → List Bytes → Dict Bytes ℕ → Dict Bytes ℕ
enumerate i [] d = d
enumerate i (leaf ∷ leaves) d = enumerate (suc i) leaves (insert leaf i d)

-- `self.levels[-1][0]`: there is a last level, and it holds one node.
unfoldable pub top : List (List Bytes) → Bytes
top [] = []
top ([] ∷ []) = []
top ((x ∷ level) ∷ []) = x
top (level ∷ level' ∷ levels) = top (level' ∷ levels)

module _ (c : Crypto) where
  -- The `for` loop of `_build`: one level from the one below it.
  unfoldable pub pair_level : List Bytes → Result (List Bytes)
  pair_level [] = ok []
  pair_level (x ∷ []) = ok (x ∷ [])
  pair_level (x ∷ y ∷ rest) = do
    parent ← node_hash c x y
    above ← pair_level rest
    ok (parent ∷ above)

  -- The `while` loop of `_build`. `diverges` means that the fuel has run out.
  unfoldable pub build : ℕ → List Bytes → Result (List (List Bytes))
  unfolding pair_level
  build zero current = raise diverges
  build (suc fuel) current = elim (ltb 1 (length current)) [
    | true ↦ do above ← pair_level current; levels ← build fuel above; ok (current ∷ levels)
    | false ↦ ok (current ∷ [])
  ]

  -- `MerkleTree(leaves, sort)`
  unfoldable pub merkle_tree : List Bytes → Bool → Result MerkleTree
  merkle_tree leaves sort = do
    require (not (nat_beq (length leaves) 0)) value_error
    require (all (λ leaf. nat_beq (length leaf) hash_len) leaves) value_error
    require (distinct leaves) value_error
    let ordered = if sort then sorted leaves else leaves
    levels ← build (suc (length ordered)) ordered
    ok (record { leaves = ordered; index = enumerate 0 ordered []; levels = levels })

  -- What the constructor has checked and made.
  pub merkle_tree-eq :
      (leaves : List Bytes) (sort : Bool) {t : MerkleTree}
      → merkle_tree leaves sort ≡ ok t
      → (t.leaves ≡ (if sort then sorted leaves else leaves))
        × (t.index ≡ enumerate 0 t.leaves [])
        × (build (suc (length t.leaves)) t.leaves ≡ ok t.levels)
        × (distinct leaves ≡ true)
  unfolding merkle_tree
  merkle_tree-eq leaves sort {t} h = ground arith
