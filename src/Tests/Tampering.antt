-- ===== src/Tests/Tampering.antt =====
-- The run of attacks/tamper_proof.py with toy keys: the genuine package is accepted, and each of
-- the eleven attacks is detected.
use blockchain_io_t_a.Attacks.{new_identity, present}
use blockchain_io_t_a.Attacks.Tampering.{
  add_device, add_devices, attack_packages, change_first, change_last, close_epoch, commit_tamper,
  edit_first_root, flip_bit, flip_sibling, flipped_sibling, ledger_tamper, modified_did, other_side,
  present_as, swap_side, swapped_side, tamper_run, tamper_setup, tampered_leaves, with_identity,
  with_key, without_last,
}
use blockchain_io_t_a.Common.Crypto.{derive_did}
use blockchain_io_t_a.Epochs.{epoch_manager, first_epoch}
use blockchain_io_t_a.Ledger.{
  body_of, cache_from, check_block, check_blocks, check_hash, check_signed, last_block,
  latest_epoch, open_ledger, verify_chain,
}
use blockchain_io_t_a.Merkle.Proof.{compute_root}
use blockchain_io_t_a.Prelude.{Bool, List, [], ok, refl, true, ◌∷◌, ◌≡◌}
use blockchain_io_t_a.Prelude.Text.{codes}
use blockchain_io_t_a.Storage.{upsert}
use blockchain_io_t_a.Tests.Access.{access_runs}
use blockchain_io_t_a.Tests.Epochs.{test_clock}
use blockchain_io_t_a.Tests.Toy.{toy}

all_detected : List Bool
all_detected =
    true ∷ true ∷ true ∷ true ∷ true ∷ true ∷ true ∷ true ∷ true ∷ true ∷ true ∷ true ∷ []

tampering_is_detected :
    tamper_run toy 77
      ((codes "temp01", 11)
        ∷ (codes "pressure01", 12)
        ∷ (codes "camera01", 13)
        ∷ (codes "plc01", 14)
        ∷ [])
      ((codes "motor01", 15) ∷ (codes "valve01", 16) ∷ (codes "meter01", 17) ∷ [])
      18
      19
      5
      test_clock
      (codes "ffff")
    ≡ ok all_detected
unfolding access_runs tamper_run new_identity add_device add_devices tamper_setup modified_did
    with_key with_identity flipped_sibling swapped_side change_last flip_bit other_side without_last
    change_first flip_sibling swap_side edit_first_root present_as tampered_leaves attack_packages
    commit_tamper ledger_tamper close_epoch present open_ledger cache_from latest_epoch first_epoch
    epoch_manager last_block upsert derive_did verify_chain check_blocks check_block check_hash
    check_signed compute_root body_of all_detected
tampering_is_detected = refl
