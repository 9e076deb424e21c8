-- ===== src/Proofs/Complete.antt =====
-- A package that the fog builds is accepted against the root of its tree.
use blockchain_io_t_a.Common.Canonical.{leaf_hash}
use blockchain_io_t_a.Common.Crypto.{Crypto, Sound, public_key_bytes, sign, verify-sign}
use blockchain_io_t_a.Common.Schemas.{ProofPackage, ProofStep}
use blockchain_io_t_a.Merkle.Proof.{root}
use blockchain_io_t_a.Merkle.Proof.Complete.{
  AllHash-mem, reconstruct_root-of_verify, verify_proof-get_proof,
}
use blockchain_io_t_a.Merkle.Proof.Levels.{AllHash}
use blockchain_io_t_a.Merkle.Tree.{MerkleTree, merkle_tree}
use blockchain_io_t_a.Prelude.{
  Bool, List, arith, mem, nat_eq, ok, refl, some, text_beq_refl, text_eq, true, ℕ, ◌≡◌,
}
use blockchain_io_t_a.Prelude.Text.{Bytes, Str, from_hex, from_hex-to_hex, to_hex}
use blockchain_io_t_a.Proofs.{
  VerificationResult, all_checks, build_proof_package, check_membership, check_signature,
  membership_proven, package_message, recompute_leaf, verify_proof_package,
}

-- How verify_proof_package reports success.
abbrev pub success : Str → Str → VerificationResult
success leaf_hex root_hex = record {
  accepted = true;
  reason = membership_proven;
  detected_by = all_checks;
  recomputed_leaf = some leaf_hex;
  reconstructed_root = some root_hex;
  trusted_root = some root_hex;
}

-- The package of build_proof_package, its parts given.
abbrev pub built_package :
    Str → Str → Bytes → MerkleTree → ℕ → Str → Bytes → List ProofStep → ProofPackage
built_package did pk_hex leaf tree epoch_id fog_id signature path = record {
  did = did;
  public_key = pk_hex;
  leaf = to_hex leaf;
  epoch_id = epoch_id;
  root = to_hex (root tree);
  proof_path = path;
  fog_id = fog_id;
  fog_signature = to_hex signature;
}

module _ (c : Crypto) (s : Sound c) where
  check_signature-built :
      (pkg : ProofPackage) (key : ℕ)
      → pkg.fog_signature
        ≡ to_hex (sign c key (package_message pkg.did pkg.leaf pkg.root pkg.epoch_id pkg.fog_id))
      → check_signature c pkg pkg.root (public_key_bytes c key) ≡ ok true
  unfolding check_signature
  check_signature-built pkg key e =
      let message = package_message pkg.did pkg.leaf pkg.root pkg.epoch_id pkg.fog_id in
      ground (
        arith,
        text_beq_refl pkg.root,
        from_hex-to_hex (sign c key message) (unfold sign in s.sign_bytes key message),
        verify-sign c s key message,
      )

  -- Take a leaf of a tree of hashes that is the hash of a DID and a key. build_proof_package
  -- makes a package of it, and that passes verify_proof_package against the root of the tree and
  -- the fog's own key.
  pub verify_proof_package-build :
      (leaves : List Bytes) (sort : Bool) (tree : MerkleTree) (did pk_hex : Str) (pk leaf : Bytes)
      (epoch_id : ℕ) (fog_id : Str) (key : ℕ)
      → AllHash tree.leaves
      → merkle_tree c leaves sort ≡ ok tree
      → from_hex pk_hex ≡ some pk
      → leaf_hash c did pk ≡ ok leaf
      → mem leaf tree.leaves ≡ true
      → (pkg : ProofPackage) × (build_proof_package c did pk_hex leaf tree epoch_id fog_id key
          ≡ ok pkg)
        × (verify_proof_package c pkg (some (to_hex (root tree))) (public_key_bytes c key)
            ≡ ok (success (to_hex leaf) (to_hex (root tree))))
  unfolding build_proof_package verify_proof_package recompute_leaf check_membership
  verify_proof_package-build leaves sort tree did pk_hex pk leaf epoch_id fog_id key h made decoded
        hashed known =
      let (path, proved, climbs) = verify_proof-get_proof c s leaves sort tree leaf h made known in
      let pkg =
        built_package did pk_hex leaf tree epoch_id fog_id
          (sign c key (package_message did (to_hex leaf) (to_hex (root tree)) epoch_id fog_id))
          path in
      (
        pkg,
        rw proved,
        ground (
          arith,
          reconstruct_root-of_verify c s leaf path (root tree)
              (AllHash-mem tree.leaves leaf h known) climbs,
          check_signature-built pkg key refl,
          text_beq_refl (to_hex leaf),
          text_beq_refl (to_hex (root tree)),
        ),
      )
