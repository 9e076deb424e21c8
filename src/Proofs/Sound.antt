-- ===== src/Proofs/Sound.antt =====
-- An accepted package speaks of a device of the tree, unless two of the hashed messages collide.
use blockchain_io_t_a.Common.Canonical.{leaf_input, separator}
use blockchain_io_t_a.Common.Crypto.{Crypto}
use blockchain_io_t_a.Common.Schemas.{ProofStep}
use blockchain_io_t_a.Merkle.Inputs.{path_inputs, tree_inputs}
use blockchain_io_t_a.Merkle.Sound.{IsLeafInput, append-injective}
use blockchain_io_t_a.Merkle.Tree.{MerkleTree}
use blockchain_io_t_a.Prelude.{
  Bool, Bool-cases, List, [], ap, arith, false, inl, inr, length, length-append, map, mem, nat_eq,
  refl, text_beq_iff, text_beq_refl, text_eq, true, ℕ, ◌&&◌, ◌++◌, ◌==◌, ◌||◌, ◌∷◌, ◌≡◌,
}
use blockchain_io_t_a.Prelude.Text.{Bytes, Str, encode}
use blockchain_io_t_a.Prelude.Text.Utf8.{IsUnicode, encode-injective}

-- a device of the tree: its DID and its public key
abbrev pub Entry : Type 0
Entry = Str × Bytes

abbrev pub entry_input : Entry → Bytes
entry_input (did, pk) = leaf_input did pk

abbrev pub entry_leaf : Crypto → Entry → Bytes
entry_leaf c e = c.sha256 (entry_input e)

abbrev pub has_entry : Str → Bytes → List Entry → Bool
has_entry did pk [] = false
has_entry did pk ((d, k) ∷ es) = (did == d && pk == k) || has_entry did pk es

-- DIDs of Unicode text, with keys of 33 bytes
abbrev pub AreEntries : List Entry → Type 0
AreEntries [] = Unit {0}
AreEntries ((did, pk) ∷ es) = IsUnicode did × (length pk ≡ 33) × AreEntries es

-- All that is hashed for the tree of the entries and for the check of a claim against it.
unfoldable pub hashed_inputs :
    Crypto → List Entry → MerkleTree → Str → Bytes → List ProofStep → List Bytes
hashed_inputs c entries tree did pk path =
    map entry_input entries
    ++ (tree_inputs tree.levels
        ++ (leaf_input did pk ∷ path_inputs c (c.sha256 (leaf_input did pk)) path))

pub leaf_of_entry :
    (c : Crypto) (es : List Entry) (b : Bytes)
    → mem b (map (entry_leaf c) es) ≡ true
    → (m : Bytes) × (b ≡ c.sha256 m) × IsLeafInput m × (mem m (map entry_input es) ≡ true)
leaf_of_entry c [] b h = absurd (ground arith)
leaf_of_entry c (e ∷ es) b h = elim (Bool-cases (b == entry_leaf c e)) [
  | inl same ↦ (
    entry_input e,
    (text_beq_iff b (entry_leaf c e)).0 same,
    (encode e.0 ++ separator ∷ e.1, unfold leaf_input in refl),
    ground (arith, text_beq_refl (entry_input e)),
  )
  | inr other ↦
      let (m, hashed, begins, listed) = leaf_of_entry c es b (ground arith) in
      (m, hashed, begins, ground arith)
]

-- The DID and the key can be read off the message of a leaf.
split_at_end :
    (xs ys zs ws : List ℕ) → length zs ≡ length ws → xs ++ zs ≡ ys ++ ws → (xs ≡ ys) × (zs ≡ ws)
split_at_end xs ys zs ws len e =
    append-injective xs ys zs ws
      (omega (
        arith,
        ap (length {A = ℕ}) e,
        length-append {0} {A = ℕ} xs zs,
        length-append {0} {A = ℕ} ys ws,
      ))
      e

pub leaf_input-injective :
    (did did' : Str) (pk pk' : Bytes)
    → IsUnicode did
    → IsUnicode did'
    → length pk ≡ length pk'
    → leaf_input did pk ≡ leaf_input did' pk'
    → (did ≡ did') × (pk ≡ pk')
unfolding leaf_input
leaf_input-injective did did' pk pk' u u' len e =
    let (encoded, rest) =
      split_at_end (encode did) (encode did') (separator ∷ pk) (separator ∷ pk') (omega arith)
        (cc) in
    (encode-injective did did' u u' encoded, cc)

pub entry_of_input :
    (es : List Entry) (did : Str) (pk : Bytes)
    → IsUnicode did
    → length pk ≡ 33
    → AreEntries es
    → mem (leaf_input did pk) (map entry_input es) ≡ true
    → has_entry did pk es ≡ true
entry_of_input [] did pk u len are h = absurd (ground arith)
entry_of_input ((d, k) ∷ es) did pk u len are h =
    elim (Bool-cases (leaf_input did pk == leaf_input d k)) [
      | inl same ↦
          let (p, q) =
            leaf_input-injective did d pk k u are.0 (omega arith)
              ((text_beq_iff (leaf_input did pk) (leaf_input d k)).0 same) in
          ground (arith, text_beq_iff did d, text_beq_iff pk k)
      | inr other ↦ ground (arith, entry_of_input es did pk u len are.2)
    ]
