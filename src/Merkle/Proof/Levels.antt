-- ===== src/Merkle/Proof/Levels.antt =====
-- One level of the tree: pairing is total on hashes, and one round of get_proof leads a node to its
-- parent.
use blockchain_io_t_a.Common.Canonical.{node_hash-eq, node_input}
use blockchain_io_t_a.Common.Crypto.{Crypto, Sound}
use blockchain_io_t_a.Common.Schemas.{ProofStep}
use blockchain_io_t_a.Merkle.Proof.{climb, flip, level_step, side_left, side_right, step_up}
use blockchain_io_t_a.Merkle.Tree.{pair_level}
use blockchain_io_t_a.Prelude.{
  List, [], arith, get_elem?, length, ok, refl, some, suc, zero, ℕ, ◌++◌, ◌+◌, ◌/◌, ◌∷◌, ◌≡◌,
}
use blockchain_io_t_a.Prelude.Text.{Bytes, IsBytes, from_hex-to_hex, to_hex}

-- a 32-byte hash
abbrev pub IsHash : Bytes → Type 0
IsHash b = (length b ≡ 32) × IsBytes b

abbrev pub AllHash : List Bytes → Type 0
AllHash [] = Unit {0}
AllHash (b ∷ bs) = IsHash b × AllHash bs

module _ (c : Crypto) (s : Sound c) where
  pub pair_level-total :
      (current : List Bytes)
      → AllHash current
      → (above : List Bytes) × (pair_level c current ≡ ok above)
        × (length above ≡ (length current + 1) / 2)
        × AllHash above
  unfolding pair_level
  pair_level-total [] h = ([], refl, omega arith, tt)
  pair_level-total (x ∷ []) h = (x ∷ [], refl, omega arith, h)
  pair_level-total (x ∷ y ∷ rest) h =
      let (above, made, size, hashes) = pair_level-total rest h.1.1 in
      let parent = c.sha256 (node_input x y) in
      (
        parent ∷ above,
        rw (node_hash-eq c x y h.0.0 h.1.0.0, made),
        omega arith,
        ((s.sha256_length _, s.sha256_bytes _), hashes),
      )

  -- A step to the right or to the left from one of two hashes.
  step_up-right :
      (x y : Bytes)
      → IsHash x
      → IsHash y
      → step_up c x (record { sibling = some (to_hex y); side = some side_right })
        ≡ some (c.sha256 (node_input x y))
  unfolding step_up
  step_up-right x y h k = ground (arith, from_hex-to_hex y k.1, node_hash-eq c x y h.0 k.0)

  step_up-left :
      (x y : Bytes)
      → IsHash x
      → IsHash y
      → step_up c y (record { sibling = some (to_hex x); side = some side_left })
        ≡ some (c.sha256 (node_input x y))
  unfolding step_up
  step_up-left x y h k = ground (arith, from_hex-to_hex x h.1, node_hash-eq c x y h.0 k.0)

flip-pair : (j : ℕ) → flip (suc (suc j)) ≡ suc (suc (flip j))
unfolding flip
flip-pair j = ground arith

level_step-pair :
    (x y : Bytes) (rest : List Bytes) (j : ℕ)
    → level_step (suc (suc j)) (x ∷ y ∷ rest) ≡ level_step j rest
unfolding level_step
level_step-pair x y rest j = rw flip-pair (ground arith)

level_step-first :
    (x y : Bytes) (rest : List Bytes)
    → level_step 0 (x ∷ y ∷ rest)
      ≡ record { sibling = some (to_hex y); side = some side_right } ∷ []
unfolding level_step flip
level_step-first x y rest = ground arith

level_step-second :
    (x y : Bytes) (rest : List Bytes)
    → level_step 1 (x ∷ y ∷ rest) ≡ record { sibling = some (to_hex x); side = some side_left } ∷ []
unfolding level_step flip
level_step-second x y rest = ground arith

level_step-last : (x : Bytes) → level_step 0 (x ∷ []) ≡ []
unfolding level_step flip
level_step-last x = refl

module _ (c : Crypto) (s : Sound c) where
  pair_level-cons :
      (y z : Bytes) (rest above : List Bytes)
      → AllHash (y ∷ z ∷ rest)
      → pair_level c (y ∷ z ∷ rest) ≡ ok above
      → (above' : List Bytes) × (above ≡ c.sha256 (node_input y z) ∷ above')
        × (pair_level c rest ≡ ok above')
  unfolding pair_level
  pair_level-cons y z rest above h e =
      let (above', made, size, hashes) = pair_level-total c s rest h.1.1 in
      (above', ground (arith, node_hash-eq c y z h.0.0 h.1.0.0), made)

  -- A node at `index` leads to the node at `index / 2` one level up, whatever path follows.
  pub climb-level_step :
      (current above : List Bytes) (index : ℕ) (x : Bytes)
      → AllHash current
      → pair_level c current ≡ ok above
      → get_elem? current index ≡ some x
      → (p : Bytes) × (get_elem? above (index / 2) ≡ some p)
        × ((path : List ProofStep) → climb c x (level_step index current ++ path) ≡ climb c p path)
  unfolding climb pair_level
  climb-level_step [] above index x h e g = cc
  climb-level_step (y ∷ []) above zero x h e g = (x, ground arith, λ path. rw level_step-last refl)
  climb-level_step (y ∷ []) above (suc index) x h e g = cc
  climb-level_step (y ∷ z ∷ rest) above zero x h e g =
      let (above', cons, made) = pair_level-cons y z rest above h e in
      (
        c.sha256 (node_input y z),
        ground arith,
        λ path. ground (arith, level_step-first y z rest, step_up-right c s y z h.0 h.1.0),
      )
  climb-level_step (y ∷ z ∷ rest) above (suc zero) x h e g =
      let (above', cons, made) = pair_level-cons y z rest above h e in
      (
        c.sha256 (node_input y z),
        ground arith,
        λ path. ground (arith, level_step-second y z rest, step_up-left c s y z h.0 h.1.0),
      )
  climb-level_step (y ∷ z ∷ rest) above (suc (suc j)) x h e g =
      let (above', cons, made) = pair_level-cons y z rest above h e in
      let (p, found, leads) = climb-level_step rest above' j x h.1.1 made g in
      let half : suc (suc j) / 2 ≡ suc (j / 2) = omega arith in
      (p, rw (cons, half) found, λ path. rw level_step-pair (leads path))
