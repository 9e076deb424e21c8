-- ===== src/Tests/Chain.antt =====
-- The ledger file of one epoch, as it is and with a changed signature.
use blockchain_io_t_a.Ledger.{chain_valid, genesis_prev_hash, trusted_key, verify_chain}
use blockchain_io_t_a.Ledger.Accepted.{IsChain, verify_chain_iff}
use blockchain_io_t_a.Ledger.Tampered.{verify_chain-from_hex, with_signature}
use blockchain_io_t_a.Prelude.{
  List, [], length, none, ok, raise, refl, some, true, value_error, ◌↔◌, ◌∷◌, ◌≡◌,
}
use blockchain_io_t_a.Prelude.Json.{Object, str}
use blockchain_io_t_a.Prelude.Text.{codes, from_hex}
use blockchain_io_t_a.Tests.Epochs.{
  close_run, closed_state, epoch_runs, queued_manager, valid_before,
}
use blockchain_io_t_a.Tests.Toy.{toy}

first_of : List Object → Object
first_of [] = []
first_of (b ∷ bs) = b

only_block : Object
unfolding epoch_runs closed_state close_run queued_manager first_of
only_block = first_of closed_state.ledger.blocks

file_written : closed_state.ledger.file ≡ some (only_block ∷ [])
unfolding epoch_runs closed_state close_run queued_manager first_of only_block
file_written = refl

verify_chain_iff_example :
    (verify_chain toy closed_state.ledger none ≡ ok (true, chain_valid 1)) ↔ (
      IsChain toy
        (trusted_key none closed_state.ledger.fog_pk)
        0
        (str genesis_prev_hash)
        (only_block ∷ [])
      × (chain_valid 1 ≡ chain_valid (length (only_block ∷ []))))
verify_chain_iff_example =
    verify_chain_iff toy closed_state.ledger none (only_block ∷ []) (chain_valid 1) file_written

not_hex : from_hex (codes "zz") ≡ none
unfolding from_hex
not_hex = refl

verify_chain-from_hex_example :
    verify_chain toy
      (record closed_state.ledger { file = some (with_signature (codes "zz") only_block ∷ []) })
      none
    ≡ raise value_error
verify_chain-from_hex_example =
    verify_chain-from_hex toy closed_state.ledger none [] only_block [] (codes "zz") (chain_valid 1)
      file_written valid_before not_hex
