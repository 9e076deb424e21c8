-- ===== src/Proofs.antt =====
-- Proof packages (fog/proofs/proof_package.py).
pub mod Complete
pub mod Sound
pub mod Membership
use blockchain_io_t_a.Common.Canonical.{leaf_hash}
use blockchain_io_t_a.Common.Crypto.{Crypto, sign, verify}
use blockchain_io_t_a.Common.Schemas.{ProofPackage}
use blockchain_io_t_a.Merkle.Proof.{get_proof, reconstruct_root, root}
use blockchain_io_t_a.Merkle.Tree.{MerkleTree, bytes, hex}
use blockchain_io_t_a.Prelude.{
  Bool, Eq, Option, Result, [], false, if◌then◌else◌, nat_eq, none, ok, or_raise, raise, some,
  text_eq, value_error, ℕ, ◌==◌, ◌>>=◌, ◌>>◌, ◌∷◌,
}
use blockchain_io_t_a.Prelude.Json.{Object, canonical_json, num, str}
use blockchain_io_t_a.Prelude.Text.{Bytes, Str, codes, from_hex, to_hex}

unfoldable pub package_fields : Str → Str → Str → ℕ → Str → Object
package_fields did leaf_hex root_hex epoch_id fog_id =
    (codes "did", str did)
    ∷ (codes "leaf", str leaf_hex)
    ∷ (codes "root", str root_hex)
    ∷ (codes "epoch_id", num epoch_id)
    ∷ (codes "fog_id", str fog_id)
    ∷ []

unfoldable pub package_message : Str → Str → Str → ℕ → Str → Bytes
package_message did leaf_hex root_hex epoch_id fog_id =
    canonical_json (package_fields did leaf_hex root_hex epoch_id fog_id)

-- the reason texts of VerificationResult
pub data Reason : Type 0 where
  malformed_identity leaf_mismatch no_anchored_root malformed_path : Reason
  root_mismatch bad_package_signature membership_proven : Reason

-- the component that rejects
pub data Detector : Type 0 where
  identity_check root_registry merkle_verifier signature_check all_checks : Detector

pub record VerificationResult : Type 0 where
  pub accepted : Bool
  pub reason : Reason
  pub detected_by : Detector
  pub recomputed_leaf : Option Str
  pub reconstructed_root : Option Str
  pub trusted_root : Option Str

module _ (c : Crypto) where
  unfoldable pub build_proof_package :
      Str → Str → Bytes → MerkleTree → ℕ → Str → ℕ → Result ProofPackage
  build_proof_package did pk_hex leaf tree epoch_id fog_id signing_key = do
    let root_hex = to_hex (root tree)
    path ← get_proof tree (bytes leaf)
    let signature =
        to_hex (sign c signing_key (package_message did (to_hex leaf) root_hex epoch_id fog_id))
    ok (record {
      did = did;
      public_key = pk_hex;
      leaf = to_hex leaf;
      epoch_id = epoch_id;
      root = root_hex;
      proof_path = path;
      fog_id = fog_id;
      fog_signature = signature;
    })

  -- `leaf_hash(pkg.did, bytes.fromhex(pkg.public_key)).hex()`
  unfoldable pub recompute_leaf : ProofPackage → Result Bytes
  recompute_leaf pkg = do
    pk ← or_raise (from_hex pkg.public_key) value_error
    leaf_hash c pkg.did pk

  -- Check 6. The signature is decoded only where the roots agree, and that may raise.
  unfoldable pub check_signature : ProofPackage → Str → Bytes → Result Bool
  check_signature pkg trusted_hex fog_pk =
      if pkg.root == trusted_hex
      then (do
        signature ← or_raise (from_hex pkg.fog_signature) value_error
        ok (
            verify c fog_pk (package_message pkg.did pkg.leaf pkg.root pkg.epoch_id pkg.fog_id)
              signature))
      else ok false

  -- Checks 4 to 6, with the recomputed leaf and the trusted root at hand.
  unfoldable pub check_membership : ProofPackage → Str → Str → Bytes → Result VerificationResult
  check_membership pkg recomputed trusted_hex fog_pk =
      elim (reconstruct_root c (hex recomputed) pkg.proof_path) [
        | none ↦ ok (record {
          accepted = false;
          reason = malformed_path;
          detected_by = merkle_verifier;
          recomputed_leaf = some recomputed;
          reconstructed_root = none;
          trusted_root = some trusted_hex;
        })
        | some candidate ↦
            if to_hex candidate == trusted_hex
            then (do
              signed ← check_signature pkg trusted_hex fog_pk
              ok (record {
                accepted = signed;
                reason = if signed then membership_proven else bad_package_signature;
                detected_by = if signed then all_checks else signature_check;
                recomputed_leaf = some recomputed;
                reconstructed_root = some (to_hex candidate);
                trusted_root = some trusted_hex;
              }))
            else ok (record {
              accepted = false;
              reason = root_mismatch;
              detected_by = merkle_verifier;
              recomputed_leaf = some recomputed;
              reconstructed_root = some (to_hex candidate);
              trusted_root = some trusted_hex;
            })
      ]

  unfoldable pub verify_proof_package :
      ProofPackage → Option Str → Bytes → Result VerificationResult
  verify_proof_package pkg trusted fog_pk = elim (recompute_leaf pkg) [
    | raise _ ↦ ok (record {
      accepted = false;
      reason = malformed_identity;
      detected_by = identity_check;
      recomputed_leaf = none;
      reconstructed_root = none;
      trusted_root = none;
    })
    | ok leaf ↦
        let recomputed = to_hex leaf in
        if recomputed == pkg.leaf
        then elim trusted [
          | none ↦ ok (record {
            accepted = false;
            reason = no_anchored_root;
            detected_by = root_registry;
            recomputed_leaf = some recomputed;
            reconstructed_root = none;
            trusted_root = none;
          })
          | some trusted_hex ↦ check_membership pkg recomputed trusted_hex fog_pk
        ]
        else ok (record {
          accepted = false;
          reason = leaf_mismatch;
          detected_by = identity_check;
          recomputed_leaf = some recomputed;
          reconstructed_root = none;
          trusted_root = none;
        })
  ]
