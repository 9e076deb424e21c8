-- ===== src/Merkle/Inputs.antt =====
-- The messages that a tree and a climb hash, and what it means that no two of them collide.
-- A real hash function of 32 bytes has collisions: a theorem that needs none names the messages.
use blockchain_io_t_a.Common.Canonical.{node_input}
use blockchain_io_t_a.Common.Crypto.{Crypto}
use blockchain_io_t_a.Common.Schemas.{ProofStep}
use blockchain_io_t_a.Merkle.Proof.{side_left}
use blockchain_io_t_a.Prelude.{
  Bool, Bool-cases, List, [], all, arith, if◌then◌else◌, inl, inr, mem, nat_eq, none, not, some,
  text_beq_iff, text_eq, true, ◌++◌, ◌==◌, ◌||◌, ◌∷◌, ◌≡◌, ◌⊎◌,
}
use blockchain_io_t_a.Prelude.Text.{Bytes, from_hex}

module _ (c : Crypto) where
  -- No two different messages of the list have one hash.
  abbrev pub no_collision : List Bytes → Bool
  no_collision inputs = all (λ x. all (λ y. not (c.sha256 x == c.sha256 y) || x == y) inputs) inputs

  -- What step_up hashes, or nothing where the step is malformed.
  unfoldable pub step_input : Bytes → ProofStep → Bytes
  step_input current step = elim step.sibling [
    | none ↦ []
    | some text ↦ elim (from_hex text) [
      | none ↦ []
      | some sibling ↦ elim step.side [
        | none ↦ []
        | some side ↦
            if side == side_left then node_input sibling current else node_input current sibling
      ]
    ]
  ]

  unfoldable pub path_inputs : Bytes → List ProofStep → List Bytes
  path_inputs current [] = []
  path_inputs current (step ∷ path) =
      step_input current step ∷ path_inputs (c.sha256 (step_input current step)) path

unfoldable pub level_inputs : List Bytes → List Bytes
level_inputs [] = []
level_inputs (x ∷ []) = []
level_inputs (x ∷ y ∷ rest) = node_input x y ∷ level_inputs rest

-- The messages that `_build` hashes for these levels.
unfoldable pub tree_inputs : List (List Bytes) → List Bytes
unfolding level_inputs
tree_inputs [] = []
tree_inputs (level ∷ levels) = level_inputs level ++ tree_inputs levels

pub mem-append_left : (b : Bytes) (xs ys : List Bytes) → mem b xs ≡ true → mem b (xs ++ ys) ≡ true
mem-append_left b [] ys h = cc
mem-append_left b (x ∷ xs) ys h = ground (arith, mem-append_left b xs ys)

pub mem-append_right : (b : Bytes) (xs ys : List Bytes) → mem b ys ≡ true → mem b (xs ++ ys) ≡ true
mem-append_right b [] ys h = h
mem-append_right b (x ∷ xs) ys h = ground (arith, mem-append_right b xs ys)

pub mem-append_cases :
    (b : Bytes) (xs ys : List Bytes)
    → mem b (xs ++ ys) ≡ true
    → (mem b xs ≡ true) ⊎ (mem b ys ≡ true)
mem-append_cases b [] ys h = inr h
mem-append_cases b (x ∷ xs) ys h = ground (arith, mem-append_cases b xs ys)

pub all-mem :
    (test : Bytes → Bool) (xs : List Bytes) (b : Bytes)
    → all test xs ≡ true
    → mem b xs ≡ true
    → test b ≡ true
all-mem test [] b h m = cc
all-mem test (x ∷ xs) b h m = elim (Bool-cases (b == x)) [
  | inl same ↦ rw ((text_beq_iff b x).0 same) (ground arith)
  | inr other ↦ all-mem test xs b (ground arith) (ground arith)
]

-- Two messages of the list with one hash are the same message.
pub no_collision-eq :
    (c : Crypto) (inputs : List Bytes) (x y : Bytes)
    → no_collision c inputs ≡ true
    → mem x inputs ≡ true
    → mem y inputs ≡ true
    → c.sha256 x ≡ c.sha256 y
    → x ≡ y
no_collision-eq c inputs x y free mx my e = ground (
  arith,
  all-mem (λ y. not (c.sha256 x == c.sha256 y) || x == y) inputs y
      (all-mem (λ x. all (λ y. not (c.sha256 x == c.sha256 y) || x == y) inputs) inputs x free mx)
      my,
  text_beq_iff (c.sha256 x) (c.sha256 y),
  text_beq_iff x y,
)
