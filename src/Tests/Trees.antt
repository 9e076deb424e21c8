-- ===== src/Tests/Trees.antt =====
-- A tree of three devices, its proofs and the verifier.
use mathlib.Core.List.Perm
use blockchain_io_t_a.Common.Canonical.{leaf_hash, leaf_input, node_hash, node_input}
use blockchain_io_t_a.Common.Crypto.{load_public_key, public_key_bytes, sign, verify}
use blockchain_io_t_a.Common.Schemas.{ProofPackage, ProofStep}
use blockchain_io_t_a.Merkle.Bounds.{get_proof-bounds}
use blockchain_io_t_a.Merkle.Inputs.{level_inputs, path_inputs, step_input, tree_inputs}
use blockchain_io_t_a.Merkle.Order.{merkle_tree-perm}
use blockchain_io_t_a.Merkle.Proof.{
  climb, get_proof, height, index_of, proof_at, reconstruct_root, root, step_up, tree_size,
  verify_proof,
}
use blockchain_io_t_a.Merkle.Proof.Complete.{verify_proof-get_proof}
use blockchain_io_t_a.Merkle.Proof.Levels.{AllHash}
use blockchain_io_t_a.Merkle.Sort.{distinct, insert_leaf, sorted}
use blockchain_io_t_a.Merkle.Total.{merkle_tree-total}
use blockchain_io_t_a.Merkle.Tree.{
  MerkleTree, as_bytes, build, bytes, enumerate, merkle_tree, pair_level, top,
}
use blockchain_io_t_a.Prelude.{
  List, Result, [], arith, length, map, nat_eq, ok, raise, refl, some, text_eq, true, ◌*◌, ◌<◌, ◌^◌,
  ◌∷◌, ◌≡◌, ◌≤◌,
}
use blockchain_io_t_a.Prelude.Json.{canonical_json, text_le}
use blockchain_io_t_a.Prelude.Text.{Bytes, codes, decimal, encode, from_hex, hex_digit, to_hex}
use blockchain_io_t_a.Proofs.{
  build_proof_package, check_membership, check_signature, package_fields, package_message,
  recompute_leaf, verify_proof_package,
}
use blockchain_io_t_a.Proofs.Complete.{built_package, success, verify_proof_package-build}
use blockchain_io_t_a.Proofs.Membership.{verify_proof_package_sound}
use blockchain_io_t_a.Proofs.Sound.{Entry, entry_leaf, has_entry, hashed_inputs}
use blockchain_io_t_a.Tests.Toy.{toy, toy-Sound, toy_runs}

abbrev key1 : Bytes
key1 = toy.public_point 11

abbrev entries : List Entry
entries =
    (codes "did:iiot:a1", toy.public_point 11)
    ∷ (codes "did:iiot:b2", toy.public_point 22)
    ∷ (codes "did:iiot:c3", toy.public_point 33)
    ∷ []

unfoldable pub run : Unit {0}
unfolding toy_runs leaf_input encode merkle_tree build enumerate sorted insert_leaf text_le distinct
    pair_level node_hash node_input root top get_proof index_of proof_at as_bytes to_hex hex_digit
    from_hex climb step_up reconstruct_root verify_proof
run = tt

abbrev leaves : List Bytes
leaves = map (entry_leaf toy) entries

tree_of : Result MerkleTree → MerkleTree
tree_of (ok t) = t
tree_of (raise x) = record { leaves = []; index = []; levels = [] }

tree : MerkleTree
unfolding run tree_of
tree = tree_of (merkle_tree toy leaves true)

made : merkle_tree toy leaves true ≡ ok tree
unfolding run tree
made = refl

tree-AllHash : AllHash tree.leaves
unfolding run tree
tree-AllHash = omega arith

leaf1 : Bytes
unfolding run
leaf1 = entry_leaf toy (codes "did:iiot:a1", key1)

leaf1_proof : get_proof tree (bytes leaf1) ≡ ok (proof_at 0 tree.levels)
unfolding run tree leaf1
leaf1_proof = refl

verify_proof-get_proof_example :
    (path : List ProofStep) × (get_proof tree (bytes leaf1) ≡ ok path)
    × (verify_proof toy (bytes leaf1) path (bytes (root tree)) ≡ true)
unfolding run tree leaf1
verify_proof-get_proof_example =
    verify_proof-get_proof toy toy-Sound leaves true tree leaf1 tree-AllHash made refl

get_proof-bounds_example :
    (tree_size tree ≤ 2 ^ height tree)
    × (2 ^ height tree < 2 * tree_size tree)
    × (length (proof_at 0 tree.levels) ≤ height tree)
get_proof-bounds_example =
    get_proof-bounds toy leaves true tree (bytes leaf1) (proof_at 0 tree.levels) made leaf1_proof

leaf2 : Bytes
unfolding run
leaf2 = entry_leaf toy (codes "did:iiot:b2", toy.public_point 22)

merkle_tree-perm_example :
    merkle_tree toy (leaf1 ∷ leaf2 ∷ []) true ≡ merkle_tree toy (leaf2 ∷ leaf1 ∷ []) true
merkle_tree-perm_example =
    merkle_tree-perm toy (leaf1 ∷ leaf2 ∷ []) (leaf2 ∷ leaf1 ∷ []) (Perm.swap leaf2 leaf1 [])

merkle_tree-total_example :
    (t : MerkleTree) × (merkle_tree toy leaves true ≡ ok t) × (t.leaves ≡ sorted leaves)
unfolding run
merkle_tree-total_example =
    merkle_tree-total toy toy-Sound leaves true (omega arith) (omega arith) refl

verify_proof_package-build_example :
    (pkg : ProofPackage) × (build_proof_package toy
        (codes "did:iiot:a1")
        (to_hex key1)
        leaf1
        tree
        1
        (codes "fog_A")
        77
      ≡ ok pkg)
    × (verify_proof_package toy pkg (some (to_hex (root tree))) (public_key_bytes toy 77)
        ≡ ok (success (to_hex leaf1) (to_hex (root tree))))
unfolding run tree leaf1 leaf_hash
verify_proof_package-build_example =
    verify_proof_package-build toy toy-Sound leaves true tree (codes "did:iiot:a1") (to_hex key1)
      key1 leaf1 1 (codes "fog_A") 77 tree-AllHash made refl refl refl

packed : Result ProofPackage → ProofPackage
packed (ok p) = p
packed (raise x) = built_package [] [] [] tree 0 [] [] []

pkg : ProofPackage
unfolding packed run tree leaf1 build_proof_package package_message package_fields canonical_json
    decimal sign
pkg =
    packed
      (build_proof_package toy (codes "did:iiot:a1") (to_hex key1) leaf1 tree 1 (codes "fog_A") 77)

accepts :
    verify_proof_package toy pkg (some (to_hex (root tree))) (public_key_bytes toy 77)
    ≡ ok (success (to_hex leaf1) (to_hex (root tree)))
unfolding pkg verify_proof_package recompute_leaf leaf_hash check_membership check_signature verify
    load_public_key public_key_bytes
accepts = refl

verify_proof_package_sound_example : has_entry pkg.did key1 entries ≡ true
unfolding pkg hashed_inputs tree_inputs level_inputs path_inputs step_input
verify_proof_package_sound_example =
    verify_proof_package_sound toy toy-Sound entries true tree pkg key1 (public_key_bytes toy 77)
      (success (to_hex leaf1) (to_hex (root tree))) (omega arith) (omega arith) made refl refl
      accepts refl
