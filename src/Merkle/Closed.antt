-- ===== src/Merkle/Closed.antt =====
-- What stands in a tree: each node is a leaf, or the hash of two nodes of the tree.
use blockchain_io_t_a.Common.Canonical.{node_hash, node_hash-ok, node_input}
use blockchain_io_t_a.Common.Crypto.{Crypto}
use blockchain_io_t_a.Merkle.Inputs.{
  level_inputs, mem-append_cases, mem-append_left, mem-append_right, tree_inputs,
}
use blockchain_io_t_a.Merkle.Tree.{build, pair_level}
use blockchain_io_t_a.Prelude.{
  >>=-eq-ok, Bool-cases, List, [], arith, inl, inr, length, ltb, mem, nat_eq, ok, suc, text_beq_iff,
  text_beq_refl, text_eq, true, zero, ℕ, ◌++◌, ◌==◌, ◌>>=◌, ◌∙◌, ◌∷◌, ◌≡◌, ◌⊎◌,
}
use blockchain_io_t_a.Prelude.Text.{Bytes}

-- the nodes of all levels
abbrev pub nodes : List (List Bytes) → List Bytes
nodes [] = []
nodes (level ∷ levels) = level ++ nodes levels

pub record IsParent (c : Crypto) (all_nodes inputs : List Bytes) (v l r : Bytes) : Type 0 where
  pub left : mem l all_nodes ≡ true
  pub right : mem r all_nodes ≡ true
  pub left_length : length l ≡ 32
  pub right_length : length r ≡ 32
  pub hashed : v ≡ c.sha256 (node_input l r)
  pub listed : mem (node_input l r) inputs ≡ true

pub weaken-IsParent :
    (c : Crypto) {ns ins ns' ins' : List Bytes} (v l r : Bytes)
    → ((b : Bytes) → mem b ns ≡ true → mem b ns' ≡ true)
    → ((b : Bytes) → mem b ins ≡ true → mem b ins' ≡ true)
    → IsParent c ns ins v l r
    → IsParent c ns' ins' v l r
weaken-IsParent c v l r f g p = record {
  left = f l p.left;
  right = f r p.right;
  left_length = p.left_length;
  right_length = p.right_length;
  hashed = p.hashed;
  listed = g _ p.listed;
}

pub pair_level-ok :
    (c : Crypto) (x y : Bytes) (rest : List Bytes) {above : List Bytes}
    → pair_level c (x ∷ y ∷ rest) ≡ ok above
    → (parent : Bytes) × (above' : List Bytes) × (node_hash c x y ≡ ok parent)
      × (pair_level c rest ≡ ok above')
      × (above ≡ parent ∷ above')
unfolding pair_level
pair_level-ok c x y rest h =
    let (parent, hashed, more) = >>=-eq-ok (node_hash c x y) _ h in
    let (above', made, done) = >>=-eq-ok (pair_level c rest) _ more in
    (parent, above', hashed, made, ground arith)

module _ (c : Crypto) where
  -- A node of a level stands in the level below, or is the hash of two nodes of it.
  level_closed :
      (current above : List Bytes) (v : Bytes)
      → pair_level c current ≡ ok above
      → mem v above ≡ true
      → (mem v current ≡ true)
        ⊎ ((l : Bytes) × (r : Bytes) × IsParent c current (level_inputs current) v l r)
  unfolding pair_level level_inputs
  level_closed [] above v e m = absurd (ground arith)
  level_closed (x ∷ []) above v e m = inl (ground arith)
  level_closed (x ∷ y ∷ rest) above v e m =
      let (parent, above', hashed, made, cons) = pair_level-ok c x y rest e in
      let (len_x, len_y, is_hash) = node_hash-ok c x y hashed in
      let m' : mem v (parent ∷ above') ≡ true = rw cons at m in
      elim (Bool-cases (v == parent)) [
        | inl same ↦ inr (
          x,
          y,
          record {
            left = ground (arith, text_beq_refl x);
            right = ground (arith, text_beq_refl y);
            left_length = len_x;
            right_length = len_y;
            hashed = (text_beq_iff v parent).0 same ∙ is_hash;
            listed = ground (arith, text_beq_refl (node_input x y));
          },
        )
        | inr other ↦ elim (level_closed rest above' v made (ground arith)) [
          | inl below ↦ inl (ground arith)
          | inr (l, r, p) ↦
              inr (l, r, weaken-IsParent c v l r (λ b h. ground arith) (λ b h. ground arith) p)
        ]
      ]

  build-ok :
      (fuel : ℕ) (current : List Bytes) {levels : List (List Bytes)}
      → build c (suc fuel) current ≡ ok levels
      → (levels ≡ current ∷ [])
        ⊎ ((above : List Bytes) × (rest : List (List Bytes)) × (pair_level c current ≡ ok above)
            × (build c fuel above ≡ ok rest)
            × (levels ≡ current ∷ rest))
  unfolding build
  build-ok fuel current {levels} h = elim (Bool-cases (ltb 1 (length current))) [
    | inl more ↦
        let opened : (pair_level c current >>= λ above.
        build c fuel above >>= λ levels. ok (current ∷ levels))
            ≡ ok levels =
          ground arith in
        let (above, made, after) = >>=-eq-ok (pair_level c current) _ opened in
        let (rest, built, done) = >>=-eq-ok (build c fuel above) _ after in
        inr (above, rest, made, built, ground arith)
    | inr done ↦ inl (ground arith)
  ]

  -- What holds of the levels above holds with one more level below them.
  grow_closed :
      (current above : List Bytes) (rest : List (List Bytes)) (v : Bytes)
      → pair_level c current ≡ ok above
      → (mem v (nodes rest) ≡ true
          → (mem v above ≡ true)
            ⊎ ((l : Bytes) × (r : Bytes) × IsParent c (nodes rest) (tree_inputs rest) v l r))
      → mem v (nodes (current ∷ rest)) ≡ true
      → (mem v current ≡ true)
        ⊎ ((l : Bytes) × (r : Bytes) × IsParent c
              (nodes (current ∷ rest))
              (tree_inputs (current ∷ rest))
              v
              l
              r)
  unfolding tree_inputs
  grow_closed current above rest v made ih m = elim (mem-append_cases v current (nodes rest) m) [
    | inl here ↦ inl here
    | inr further ↦ elim (ih further) [
      | inl next ↦ elim (level_closed current above v made next) [
        | inl here ↦ inl here
        | inr (l, r, p) ↦ inr (
          l,
          r,
          weaken-IsParent c v l r (λ b h. mem-append_left b current (nodes rest) h)
              (λ b h. mem-append_left b (level_inputs current) (tree_inputs rest) h) p,
        )
      ]
      | inr (l, r, p) ↦ inr (
        l,
        r,
        weaken-IsParent c v l r (λ b h. mem-append_right b current (nodes rest) h)
            (λ b h. mem-append_right b (level_inputs current) (tree_inputs rest) h) p,
      )
    ]
  ]

  -- Every node of a tree is a leaf, or the hash of two nodes of the tree.
  pub tree_closed :
      (fuel : ℕ) (current : List Bytes) (levels : List (List Bytes)) (v : Bytes)
      → build c fuel current ≡ ok levels
      → mem v (nodes levels) ≡ true
      → (mem v current ≡ true)
        ⊎ ((l : Bytes) × (r : Bytes) × IsParent c (nodes levels) (tree_inputs levels) v l r)
  unfolding tree_inputs
  tree_closed zero current levels v e m = absurd (unfold build in cc)
  tree_closed (suc fuel) current levels v e m = elim (build-ok fuel current e) [
    | inl single ↦ elim (mem-append_cases v current [] (rw single at m)) [
      | inl here ↦ inl here
      | inr nowhere ↦ cc
    ]
    | inr (above, rest, made, built, cons) ↦
        rw cons (
          grow_closed current above rest v made (tree_closed fuel above rest v built)
            (rw cons at m))
  ]
