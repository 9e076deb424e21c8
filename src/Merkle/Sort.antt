-- ===== src/Merkle/Sort.antt =====
-- `sorted` on byte strings, and the tests of the MerkleTree constructor that do not see the order.
use blockchain_io_t_a.Prelude.{
  Bool, List, [], if◌then◌else◌, mem, nat_eq, not, text_eq, true, ◌&&◌, ◌∷◌,
}
use blockchain_io_t_a.Prelude.Json.{text_le}
use blockchain_io_t_a.Prelude.Text.{Bytes}

unfoldable pub insert_leaf : Bytes → List Bytes → List Bytes
insert_leaf x [] = x ∷ []
insert_leaf x (y ∷ ys) = let rest = insert_leaf x ys in if text_le x y then x ∷ y ∷ ys else y ∷ rest

-- `sorted(leaves)`
unfoldable pub sorted : List Bytes → List Bytes
sorted [] = []
sorted (x ∷ xs) = insert_leaf x (sorted xs)

-- `len(set(leaves)) == len(leaves)`
unfoldable pub distinct : List Bytes → Bool
distinct [] = true
distinct (x ∷ xs) = not (mem x xs) && distinct xs
