-- ===== src/Merkle/Sorting.antt =====
-- Sorting the leaves neither adds nor drops one.
use blockchain_io_t_a.Merkle.Sort.{distinct, insert_leaf, sorted}
use blockchain_io_t_a.Prelude.{
  List, [], arith, mem, nat_eq, not, refl, text_beq_iff, text_eq, ◌&&◌, ◌∷◌, ◌≡◌,
}
use blockchain_io_t_a.Prelude.Text.{Bytes}

mem-insert_leaf : (b x : Bytes) (l : List Bytes) → mem b (insert_leaf x l) ≡ mem b (x ∷ l)
unfolding insert_leaf
mem-insert_leaf b x [] = refl
mem-insert_leaf b x (y ∷ l) = ground (arith, mem-insert_leaf b x l)

pub mem-sorted : (b : Bytes) (l : List Bytes) → mem b (sorted l) ≡ mem b l
unfolding sorted
mem-sorted b [] = refl
mem-sorted b (x ∷ l) = ground (arith, mem-insert_leaf b x (sorted l), mem-sorted b l)

distinct-insert_leaf :
    (x : Bytes) (l : List Bytes) → distinct (insert_leaf x l) ≡ (not (mem x l) && distinct l)
unfolding distinct insert_leaf
distinct-insert_leaf x [] = refl
distinct-insert_leaf x (y ∷ l) =
    ground
      (arith, distinct-insert_leaf x l, mem-insert_leaf y x l, text_beq_iff x y, text_beq_iff y x)

pub distinct-sorted : (l : List Bytes) → distinct (sorted l) ≡ distinct l
unfolding distinct sorted
distinct-sorted [] = refl
distinct-sorted (x ∷ l) =
    ground (arith, distinct-insert_leaf x (sorted l), mem-sorted x l, distinct-sorted l)
