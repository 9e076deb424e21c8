-- ===== src/Merkle/Order.antt =====
-- The order of arrival does not matter: `sorted`, and the constructor's tests, give the same for
-- every arrangement of the leaves.
use mathlib.Core.List.{Permᴰ, Perm}
use mathlib.Core.Logic.{∥∥₁_elim}
use native.Mathlib.Decide.{ℕ_discrete}
use blockchain_io_t_a.Common.Crypto.{Crypto}
use blockchain_io_t_a.Merkle.Sort.{distinct, insert_leaf, sorted}
use blockchain_io_t_a.Merkle.Tree.{MerkleTree, merkle_tree}
use blockchain_io_t_a.Prelude.{
  Bool, Error, List, Result, [], all, ap, arith, inl, inr, length, mem, nat_eq, refl, suc,
  text_beq_iff, text_eq, true, ℕ, ◌∙◌, ◌∷◌, ◌≡◌, ◌⊎◌,
}
use blockchain_io_t_a.Prelude.Json.{text_le}
use blockchain_io_t_a.Prelude.Text.{Bytes}

text_le-total : (xs ys : List ℕ) → (text_le xs ys ≡ true) ⊎ (text_le ys xs ≡ true)
unfolding text_le
text_le-total [] ys = inl refl
text_le-total (x ∷ xs) [] = inr refl
text_le-total (x ∷ xs) (y ∷ ys) = elim (text_le-total xs ys) [
  | inl h ↦ ground arith
  | inr h ↦ ground arith
]

text_le_antisymm : (xs ys : List ℕ) → text_le xs ys ≡ true → text_le ys xs ≡ true → xs ≡ ys
unfolding text_le
text_le_antisymm [] [] h k = refl
text_le_antisymm [] (y ∷ ys) h k = cc
text_le_antisymm (x ∷ xs) [] h k = cc
text_le_antisymm (x ∷ xs) (y ∷ ys) h k = ground (arith, text_le_antisymm xs ys)

text_le_trans :
    (xs ys zs : List ℕ) → text_le xs ys ≡ true → text_le ys zs ≡ true → text_le xs zs ≡ true
unfolding text_le
text_le_trans [] ys zs h k = refl
text_le_trans (x ∷ xs) [] zs h k = cc
text_le_trans (x ∷ xs) (y ∷ ys) [] h k = cc
text_le_trans (x ∷ xs) (y ∷ ys) (z ∷ zs) h k = ground (arith, text_le_trans xs ys zs)

insert_leaf_comm :
    (x y : Bytes) (l : List Bytes)
    → insert_leaf x (insert_leaf y l) ≡ insert_leaf y (insert_leaf x l)
unfolding insert_leaf
insert_leaf_comm x y [] = grind (arith, text_le-total x y, text_le_antisymm x y)
insert_leaf_comm x y (z ∷ l) = ground (
  arith,
  insert_leaf_comm x y l,
  text_le-total x y,
  text_le-total x z,
  text_le-total y z,
  text_le_antisymm x y,
  text_le_trans x y z,
  text_le_trans y x z,
)

mem-perm : {xs ys : List Bytes} (b : Bytes) → Permᴰ xs ys → mem b xs ≡ mem b ys
mem-perm b Permᴰ.nil = refl
mem-perm b (Permᴰ.cons e p) = ground (arith, mem-perm b p)
mem-perm b (Permᴰ.swap e f) = ground arith
mem-perm b (Permᴰ.trans p q) = mem-perm b p ∙ mem-perm b q

distinct-perm : {xs ys : List Bytes} → Permᴰ xs ys → distinct xs ≡ distinct ys
unfolding distinct
distinct-perm Permᴰ.nil = refl
distinct-perm (Permᴰ.cons {a} {b} {l₁} {l₂} e p) = ground (arith, mem-perm a p, distinct-perm p)
distinct-perm (Permᴰ.swap {a} {b} {a'} {b'} e f) =
    ground (arith, text_beq_iff a b, text_beq_iff b a)
distinct-perm (Permᴰ.trans p q) = distinct-perm p ∙ distinct-perm q

sorted-perm : {xs ys : List Bytes} → Permᴰ xs ys → sorted xs ≡ sorted ys
unfolding sorted
sorted-perm Permᴰ.nil = refl
sorted-perm (Permᴰ.cons e p) = ground (arith, sorted-perm p)
sorted-perm (Permᴰ.swap {a} {b} {a'} {b'} {l} e f) = ground (arith, insert_leaf_comm a b (sorted l))
sorted-perm (Permᴰ.trans p q) = sorted-perm p ∙ sorted-perm q

length-perm : {xs ys : List Bytes} → Permᴰ xs ys → length xs ≡ length ys
length-perm Permᴰ.nil = refl
length-perm (Permᴰ.cons e p) = ap suc (length-perm p)
length-perm (Permᴰ.swap e f) = refl
length-perm (Permᴰ.trans p q) = length-perm p ∙ length-perm q

all-perm : (test : Bytes → Bool) {xs ys : List Bytes} → Permᴰ xs ys → all test xs ≡ all test ys
all-perm test Permᴰ.nil = refl
all-perm test (Permᴰ.cons e p) = ground (arith, all-perm test p, ap test e)
all-perm test (Permᴰ.swap e f) = ground (arith, ap test e, ap test f)
all-perm test (Permᴰ.trans p q) = all-perm test p ∙ all-perm test q

Error-discrete : Discrete Error
Error-discrete = hlevel

tree-set : IsSet (Result MerkleTree)
tree-set = hlevel ℕ_discrete

module _ (c : Crypto) where
  -- The same leaves in any order of arrival give the same tree, root and proofs included, or the
  -- same exception.
  pub merkle_tree-perm :
      (xs ys : List Bytes) → Perm xs ys → merkle_tree c xs true ≡ merkle_tree c ys true
  unfolding merkle_tree
  merkle_tree-perm xs ys p =
      ∥∥₁_elim p (tree-set _ _)
        λ q. rw (length-perm q, all-perm _ q, distinct-perm q, sorted-perm q)
