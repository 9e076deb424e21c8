-- ===== src/Proofs/Membership.antt =====
-- Headline of the verifier: acceptance against an anchored root means membership.
use blockchain_io_t_a.Common.Canonical.{leaf_hash, leaf_hash-eq, leaf_input, node_input, separator}
use blockchain_io_t_a.Common.Crypto.{Crypto, Sound}
use blockchain_io_t_a.Common.Schemas.{ProofPackage, ProofStep}
use blockchain_io_t_a.Epochs.Batch.{free}
use blockchain_io_t_a.Merkle.Closed.{nodes, tree_closed}
use blockchain_io_t_a.Merkle.Inputs.{
  mem-append_left, mem-append_right, no_collision, no_collision-eq, path_inputs, tree_inputs,
}
use blockchain_io_t_a.Merkle.Proof.{climb, reconstruct_root, root, step_up}
use blockchain_io_t_a.Merkle.Proof.Levels.{IsHash}
use blockchain_io_t_a.Merkle.Sort.{sorted}
use blockchain_io_t_a.Merkle.Sorting.{mem-sorted}
use blockchain_io_t_a.Merkle.Sound.{IsLeafInput, climb_sound, leaf_input-ne_node, step_up-ok}
use blockchain_io_t_a.Merkle.Tree.{MerkleTree, merkle_tree, merkle_tree-eq, top}
use blockchain_io_t_a.Prelude.{
  Bool, List, Option-cases, Result-cases, [], ap, arith, false, if◌then◌else◌, inl, inr, length,
  map, mem, nat_eq, ok, refl, some, sym, text_beq_iff, text_beq_refl, text_eq, true, ℕ, ◌++◌, ◌∙◌,
  ◌∷◌, ◌≡◌, ◌⊎◌,
}
use blockchain_io_t_a.Prelude.Text.{Bytes, IsBytes, Str, encode, from_hex, from_hex-to_hex, to_hex}
use blockchain_io_t_a.Prelude.Text.Utf8.{IsUnicode}
use blockchain_io_t_a.Proofs.{
  VerificationResult, check_membership, check_signature, recompute_leaf, verify_proof_package,
}
use blockchain_io_t_a.Proofs.Sound.{
  AreEntries, Entry, entry_input, entry_leaf, entry_of_input, has_entry, hashed_inputs,
  leaf_of_entry,
}

top_cases :
    (levels : List (List Bytes)) → (top levels ≡ []) ⊎ (mem (top levels) (nodes levels) ≡ true)
unfolding top
top_cases [] = inl refl
top_cases ([] ∷ []) = inl refl
top_cases ((x ∷ level) ∷ []) = inr (ground (arith, text_beq_refl x))
top_cases ([] ∷ level' ∷ levels) = top_cases (level' ∷ levels)
top_cases ((x ∷ level) ∷ level' ∷ levels) = elim (top_cases (level' ∷ levels)) [
  | inl no_node ↦ inl no_node
  | inr node ↦ inr (mem-append_right _ (x ∷ level) (nodes (level' ∷ levels)) node)
]

climb-IsHash :
    (c : Crypto) (s : Sound c) (path : List ProofStep) (current : Bytes) {v : Bytes}
    → IsHash current
    → climb c current path ≡ some v
    → IsHash v
unfolding climb
climb-IsHash c s [] current {v} h e = let same : v ≡ current = ground arith in rw same h
climb-IsHash c s (step ∷ path) current h e = elim (Option-cases (step_up c current step)) [
  | inl stopped ↦ absurd (ground arith)
  | inr (p, stepped) ↦
      let (sibling, size, hash, sides) = step_up-ok c current step stepped in
      climb-IsHash c s path p (rw hash (s.sha256_length _, s.sha256_bytes _)) (ground arith)
]

pub to_hex-injective : (xs ys : Bytes) → IsBytes xs → IsBytes ys → to_hex xs ≡ to_hex ys → xs ≡ ys
to_hex-injective xs ys p q e = cc (from_hex-to_hex xs p, from_hex-to_hex ys q, ap from_hex e)

signed_root :
    (c : Crypto) (pkg : ProofPackage) (trusted_hex : Str) (fog_pk : Bytes)
    → check_signature c pkg trusted_hex fog_pk ≡ ok true
    → pkg.root ≡ trusted_hex
unfolding check_signature
signed_root c pkg trusted_hex fog_pk h = ground (arith, text_beq_iff pkg.root trusted_hex)

-- What an accepting run of verify_proof_package has established.
pub verify_proof_package-accepted :
    (c : Crypto) (s : Sound c) (pkg : ProofPackage) (trusted_hex : Str) (fog_pk : Bytes)
    {r : VerificationResult}
    → verify_proof_package c pkg (some trusted_hex) fog_pk ≡ ok r
    → r.accepted ≡ true
    → (pk : Bytes) × (v : Bytes) × (from_hex pkg.public_key ≡ some pk)
      × (length pk ≡ 33)
      × (climb c (c.sha256 (leaf_input pkg.did pk)) pkg.proof_path ≡ some v)
      × (to_hex v ≡ trusted_hex)
      × (pkg.leaf ≡ to_hex (c.sha256 (leaf_input pkg.did pk)))
      × (pkg.root ≡ trusted_hex)
      × (check_signature c pkg trusted_hex fog_pk ≡ ok true)
unfolding verify_proof_package recompute_leaf check_membership reconstruct_root
verify_proof_package-accepted c s pkg trusted_hex fog_pk {r} h a =
    elim (Option-cases (from_hex pkg.public_key)) [
      | inl malformed ↦ absurd (ground arith)
      | inr (pk, decoded) ↦ elim (Result-cases (leaf_hash c pkg.did pk)) [
        | inr (x, raised) ↦ absurd (ground arith)
        | inl (leaf, hashed) ↦
            let (is_hash, size) = leaf_hash-eq c pkg.did pk hashed in
            let good = from_hex-to_hex leaf (rw is_hash (s.sha256_bytes _)) in
            let long : length leaf ≡ 32 = rw is_hash (s.sha256_length _) in
            elim (Option-cases (climb c leaf pkg.proof_path)) [
              | inl stopped ↦ absurd (ground (arith, text_beq_iff (to_hex leaf) pkg.leaf))
              | inr (v, climbed) ↦
                  let same : to_hex leaf ≡ pkg.leaf =
                    ground (arith, text_beq_iff (to_hex leaf) pkg.leaf) in
                  let top : to_hex v ≡ trusted_hex =
                    ground (arith, text_beq_iff (to_hex v) trusted_hex) in
                  let signed : check_signature c pkg trusted_hex fog_pk ≡ ok true =
                    ground (arith, text_beq_iff (to_hex v) trusted_hex) in
                  (
                    pk,
                    v,
                    decoded,
                    size,
                    rw is_hash at climbed,
                    top,
                    rw (← is_hash) (sym same),
                    signed_root c pkg trusted_hex fog_pk signed,
                    signed,
                  )
            ]
      ]
    ]

mem-ordered :
    (b : Bytes) (sort : Bool) (l : List Bytes) → mem b (if sort then sorted l else l) ≡ mem b l
mem-ordered b true l = mem-sorted b l
mem-ordered b false l = refl

module _ (c : Crypto) (s : Sound c) (entries : List Entry) (sort : Bool) (tree : MerkleTree)
    (made : merkle_tree c (map (entry_leaf c) entries) sort ≡ ok tree) where
  -- A leaf of the tree is the hash of an entry's message.
  leaf_of_tree :
      (b : Bytes)
      → mem b tree.leaves ≡ true
      → (m : Bytes) × (b ≡ c.sha256 m) × IsLeafInput m × (mem m (map entry_input entries) ≡ true)
  leaf_of_tree b h =
      let (ordered, _, _, _) = merkle_tree-eq c (map (entry_leaf c) entries) sort made in
      leaf_of_entry c entries b
        (sym (mem-ordered b sort (map (entry_leaf c) entries)) ∙ (rw ordered at h))

  -- The root's value is made of bytes: it is a hash, where the tree has one.
  root-IsBytes : IsBytes (root tree)
  unfolding root
  root-IsBytes = elim (top_cases tree.levels) [
    | inl no_node ↦ rw no_node tt
    | inr node ↦
        let (_, _, built, _) = merkle_tree-eq c (map (entry_leaf c) entries) sort made in
        elim (tree_closed c _ tree.leaves tree.levels (top tree.levels) built node) [
          | inl leaf ↦
              let (m, hashed, _, _) = leaf_of_tree (top tree.levels) leaf in
              rw hashed (s.sha256_bytes m)
          | inr (l, r, p) ↦ rw p.hashed (s.sha256_bytes (node_input l r))
        ]
  ]

  -- A message of a leaf, checked against the tree, is the message of an entry.
  leaf_input-of_node :
      (inputs : List Bytes) (m : Bytes)
      → no_collision c inputs ≡ true
      → ((b : Bytes) → mem b (map entry_input entries) ≡ true → mem b inputs ≡ true)
      → ((b : Bytes) → mem b (tree_inputs tree.levels) ≡ true → mem b inputs ≡ true)
      → mem m inputs ≡ true
      → IsLeafInput m
      → mem (c.sha256 m) (nodes tree.levels) ≡ true
      → mem m (map entry_input entries) ≡ true
  leaf_input-of_node inputs m free entries_listed tree_listed listed (rest, begins) node =
      let (_, _, built, _) = merkle_tree-eq c (map (entry_leaf c) entries) sort made in
      elim (tree_closed c _ tree.leaves tree.levels (c.sha256 m) built node) [
        | inl leaf ↦
            let (n, hashed, _, among) = leaf_of_tree (c.sha256 m) leaf in
            let same = no_collision-eq c inputs m n free listed (entries_listed n among) hashed in
            rw same among
        | inr (l, r, p) ↦ absurd (
            leaf_input-ne_node m l r (rest, begins)
              (no_collision-eq c inputs m (node_input l r) free listed (tree_listed _ p.listed)
                p.hashed))
      ]

module _ (c : Crypto) (s : Sound c) where
  -- The candidate root that the check compared is a node of the tree.
  root_node :
      (tree : MerkleTree) (v : Bytes)
      → IsBytes (root tree)
      → IsHash v
      → to_hex v ≡ to_hex (root tree)
      → mem v (nodes tree.levels) ≡ true
  unfolding root
  root_node tree v rb h e =
      let same = to_hex-injective v (root tree) h.1 rb e in
      elim (top_cases tree.levels) [
        | inl no_node ↦ absurd (omega (arith, h.0, ap (length {A = ℕ}) (same ∙ no_node)))
        | inr node ↦ rw same node
      ]

  -- If verify_proof_package accepts a package against the root of the tree of some entries, then
  -- the DID and the key of the package are an entry of that tree, so long as no two of the messages
  -- hashed for the tree and for the check collide.
  pub verify_proof_package_sound :
      (entries : List Entry) (sort : Bool) (tree : MerkleTree) (pkg : ProofPackage) (pk : Bytes)
      (fog_pk : Bytes) (r : VerificationResult)
      → AreEntries entries
      → IsUnicode pkg.did
      → merkle_tree c (map (entry_leaf c) entries) sort ≡ ok tree
      → from_hex pkg.public_key ≡ some pk
      → no_collision c (hashed_inputs c entries tree pkg.did pk pkg.proof_path) ≡ true
      → verify_proof_package c pkg (some (to_hex (root tree))) fog_pk ≡ ok r
      → r.accepted ≡ true
      → has_entry pkg.did pk entries ≡ true
  unfolding hashed_inputs
  verify_proof_package_sound entries sort tree pkg pk fog_pk r are u made decoded free h a =
      let (pk', v, decoded', size, climbed, top_hex, _, _, _) =
        verify_proof_package-accepted c s pkg (to_hex (root tree)) fog_pk h a in
      let same_pk : pk' ≡ pk = ground arith in
      let m = leaf_input pkg.did pk in
      let inputs = hashed_inputs c entries tree pkg.did pk pkg.proof_path in
      let es = map entry_input entries in
      let ts = tree_inputs tree.levels in
      let own = m ∷ path_inputs c (c.sha256 m) pkg.proof_path in
      let climbed' : climb c (c.sha256 m) pkg.proof_path ≡ some v = rw same_pk at climbed in
      let hash : IsHash (c.sha256 m) = (s.sha256_length m, s.sha256_bytes m) in
      let at_top =
        root_node tree v (root-IsBytes c s entries sort tree made)
          (climb-IsHash c s pkg.proof_path (c.sha256 m) hash climbed') top_hex in
      let trees_listed = λ (b : Bytes) (q : mem b ts ≡ true).
        mem-append_right b es (ts ++ own) (mem-append_left b ts own q) in
      let own_listed = λ (b : Bytes) (q : mem b own ≡ true).
        mem-append_right b es (ts ++ own) (mem-append_right b ts own q) in
      let (_, _, built, _) = merkle_tree-eq c (map (entry_leaf c) entries) sort made in
      let node =
        climb_sound c s tree.leaves tree.levels _ built inputs free trees_listed
          (λ b q.
            let (n, hashed, begins, among) = leaf_of_tree c s entries sort tree made b q in
            (n, hashed, begins, mem-append_left n es (ts ++ own) among))
          pkg.proof_path (c.sha256 m) v hash.0 (λ b q. own_listed b (ground arith)) climbed'
          at_top in
      entry_of_input entries pkg.did pk u (rw same_pk at size) are (
        leaf_input-of_node c s entries sort tree made inputs m free
          (λ b q. mem-append_left b es (ts ++ own) q) trees_listed
          (own_listed m (ground (arith, text_beq_refl m)))
          (encode pkg.did ++ separator ∷ pk, unfold leaf_input in refl) node)
