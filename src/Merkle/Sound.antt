-- ===== src/Merkle/Sound.antt =====
-- A path that climbs into a tree starts inside the tree, unless two of the hashed messages collide.
use blockchain_io_t_a.Common.Canonical.{leaf_prefix, node_hash, node_input}
use blockchain_io_t_a.Common.Crypto.{Crypto, Sound}
use blockchain_io_t_a.Common.Schemas.{ProofStep}
use blockchain_io_t_a.Merkle.Closed.{nodes, tree_closed}
use blockchain_io_t_a.Merkle.Inputs.{
  no_collision, no_collision-eq, path_inputs, step_input, tree_inputs,
}
use blockchain_io_t_a.Merkle.Proof.{climb, step_up}
use blockchain_io_t_a.Merkle.Tree.{build}
use blockchain_io_t_a.Prelude.{
  List, Option-cases, [], ap, arith, inl, inr, length, mem, nat_eq, ok, refl, some, sym,
  text_beq_refl, text_eq, true, ℕ, ◌++◌, ◌∙◌, ◌∷◌, ◌≡◌, ◌≢◌, ◌⊎◌,
}
use blockchain_io_t_a.Prelude.Text.{Bytes, from_hex}

pub append-injective :
    (xs ys zs ws : List ℕ) → length xs ≡ length ys → xs ++ zs ≡ ys ++ ws → (xs ≡ ys) × (zs ≡ ws)
append-injective [] [] zs ws l e = (refl, e)
append-injective [] (y ∷ ys) zs ws l e = absurd (omega arith)
append-injective (x ∷ xs) [] zs ws l e = absurd (omega arith)
append-injective (x ∷ xs) (y ∷ ys) zs ws l e =
    let (same, rest) = append-injective xs ys zs ws (omega arith) (cc) in (cc, rest)

node_input-injective :
    (l r l' r' : Bytes)
    → length l ≡ length l'
    → node_input l r ≡ node_input l' r'
    → (l ≡ l') × (r ≡ r')
unfolding node_input
node_input-injective l r l' r' len e = append-injective l l' r r' len (cc)

pub step_up-ok :
    (c : Crypto) (current : Bytes) (step : ProofStep) {p : Bytes}
    → step_up c current step ≡ some p
    → (sibling : Bytes) × (length sibling ≡ 32)
      × (p ≡ c.sha256 (step_input c current step))
      × ((step_input c current step ≡ node_input sibling current)
          ⊎ (step_input c current step ≡ node_input current sibling))
unfolding step_up step_input node_hash
step_up-ok c current step h = elim (Option-cases step.sibling) [
  | inl missing ↦ absurd (ground arith)
  | inr (text, present) ↦ elim (Option-cases (from_hex text)) [
    | inl malformed ↦ absurd (ground arith)
    | inr (sibling, decoded) ↦ (sibling, ground arith, ground arith, ground arith)
  ]
]

-- A message that begins as a leaf's does.
abbrev pub IsLeafInput : Bytes → Type 0
IsLeafInput m = (rest : Bytes) × (m ≡ leaf_prefix ∷ rest)

pub leaf_input-ne_node : (m l r : Bytes) → IsLeafInput m → m ≢ node_input l r
unfolding node_input
leaf_input-ne_node m l r (rest, begins) e = cc

module _ (c : Crypto) (s : Sound c) (leaves : List Bytes) (levels : List (List Bytes)) (fuel : ℕ)
    (built : build c fuel leaves ≡ ok levels) (inputs : List Bytes)
    (free : no_collision c inputs ≡ true)
    (tree_listed : (m : Bytes) → mem m (tree_inputs levels) ≡ true → mem m inputs ≡ true)
    (leaf_listed : (b : Bytes)
      → mem b leaves ≡ true
      → (m : Bytes) × (b ≡ c.sha256 m) × IsLeafInput m × (mem m inputs ≡ true)) where
  -- A node of the tree that hashes a node message is the parent of two nodes of the tree.
  node_in_tree :
      (v l r : Bytes)
      → length l ≡ 32
      → mem (node_input l r) inputs ≡ true
      → v ≡ c.sha256 (node_input l r)
      → mem v (nodes levels) ≡ true
      → (mem l (nodes levels) ≡ true) × (mem r (nodes levels) ≡ true)
  node_in_tree v l r len listed e m = elim (tree_closed c fuel leaves levels v built m) [
    | inl leaf ↦
        let (n, hashed, begins, in_list) = leaf_listed v leaf in
        absurd (
          leaf_input-ne_node n l r begins
            (no_collision-eq c inputs n (node_input l r) free in_list listed (sym hashed ∙ e)))
    | inr (l', r', p) ↦
        let same =
          no_collision-eq c inputs (node_input l r) (node_input l' r') free listed
            (tree_listed _ p.listed) (sym e ∙ p.hashed) in
        let (el, er) = node_input-injective l r l' r' (len ∙ sym p.left_length) same in
        (rw el p.left, rw er p.right)
  ]

  pub climb_sound :
      (path : List ProofStep) (current v : Bytes)
      → length current ≡ 32
      → ((m : Bytes) → mem m (path_inputs c current path) ≡ true → mem m inputs ≡ true)
      → climb c current path ≡ some v
      → mem v (nodes levels) ≡ true
      → mem current (nodes levels) ≡ true
  unfolding climb path_inputs
  climb_sound [] current v len listed e m = let same : current ≡ v = ground arith in rw same m
  climb_sound (step ∷ path) current v len listed e m =
      elim (Option-cases (step_up c current step)) [
        | inl stopped ↦ absurd (ground arith)
        | inr (p, stepped) ↦
            let (sibling, size, hash, sides) = step_up-ok c current step stepped in
            let input = step_input c current step in
            let in_list = listed input (ground (arith, text_beq_refl input)) in
            let above =
              climb_sound path (c.sha256 input) v (s.sha256_length input)
                (λ m h. listed m (ground arith)) (ground arith) m in
            elim sides [
              | inl left ↦
                  (node_in_tree (c.sha256 input) sibling current size (rw left at in_list)
                    (ap c.sha256 left) above).1
              | inr right ↦
                  (node_in_tree (c.sha256 input) current sibling len (rw right at in_list)
                    (ap c.sha256 right) above).0
            ]
      ]
