-- ===== src/Tests/Closing.antt =====
-- The epoch of Tests/Epochs, before it is closed.
use blockchain_io_t_a.Common.Schemas.{registered}
use blockchain_io_t_a.Epochs.{
  EpochResult, EpochState, PendingEntry, blocked_dids, collect, finalize_epoch,
}
use blockchain_io_t_a.Epochs.Admitted.{collect-contains, dids_of}
use blockchain_io_t_a.Epochs.Complete.{leaves_of}
use blockchain_io_t_a.Epochs.Live.{finalize_epoch-total}
use blockchain_io_t_a.Epochs.Unsaved.{
  IsStuck, anchor_unsaved, finalize_epoch_saving, finalize_epoch_saving-outcomes,
}
use blockchain_io_t_a.Ledger.{genesis_prev_hash, get_root, last_block, prev_hash_of}
use blockchain_io_t_a.Merkle.Sort.{distinct}
use blockchain_io_t_a.Prelude.{
  Error, Result, [], arith, false, length, mem, nat_eq, none, not, ok, os_error, raise, refl,
  text_eq, true, ℕ, ◌&&◌, ◌<◌, ◌||◌, ◌∷◌, ◌≡◌, ◌⊎◌,
}
use blockchain_io_t_a.Prelude.Dict.{Dict, contains, values}
use blockchain_io_t_a.Prelude.Json.{str}
use blockchain_io_t_a.Prelude.Text.{Str}
use blockchain_io_t_a.Storage.{by_status}
use blockchain_io_t_a.Tests.Epochs.{
  after_add, did_a, did_b, epoch_runs, none_registered, open_state, queued_manager,
  queued_manager-keyed, queued_manager-ready, test_clock,
}
use blockchain_io_t_a.Tests.Toy.{toy, toy-Sound}

unwritten : (finalize_epoch_saving toy false open_state (did_b ∷ []) test_clock).0 ≡ raise os_error
unfolding epoch_runs queued_manager after_add finalize_epoch_saving anchor_unsaved
unwritten = refl

finalize_epoch_saving-outcomes_example :
    ((result : EpochResult) × (st' : EpochState) × (false ≡ true)
      × (finalize_epoch_saving toy false open_state (did_b ∷ []) test_clock ≡ (ok result, st')))
    ⊎ (((x : Error) × (finalize_epoch_saving toy false open_state (did_b ∷ []) test_clock
            ≡ (raise x, open_state)))
        ⊎ ((st' : EpochState) × (false ≡ false)
            × (finalize_epoch_saving toy false open_state (did_b ∷ []) test_clock
                ≡ (raise os_error, st'))
            × IsStuck toy open_state st'))
finalize_epoch_saving-outcomes_example =
    finalize_epoch_saving-outcomes toy toy-Sound false open_state (did_b ∷ []) test_clock
      queued_manager-ready none_registered

collect-contains_example :
    (members : Dict Str PendingEntry) × (carried new : ℕ) × (collect toy open_state.manager
        open_state.devices
        (did_b ∷ [])
      ≡ ok (members, carried, new))
    × (contains did_a members ≡ (
        not (mem did_a (did_b ∷ []))
        && (contains did_a open_state.manager.pending
            || (open_state.manager.carry_forward
                && mem did_a (dids_of (by_status open_state.devices registered))))))
collect-contains_example =
    collect-contains toy open_state.manager open_state.devices (did_b ∷ []) did_a none_registered

abbrev to_close : Result (Dict Str PendingEntry × ℕ × ℕ)
to_close =
    collect toy open_state.manager open_state.devices (blocked_dids open_state.devices (did_b ∷ []))

collected_of : Result (Dict Str PendingEntry × ℕ × ℕ) → Dict Str PendingEntry × ℕ × ℕ
collected_of (ok m) = m
collected_of (raise x) = ([], 0, 0)

collected_ok : to_close ≡ ok (collected_of to_close)
unfolding epoch_runs queued_manager after_add collected_of
collected_ok = refl

someone : 0 < length (collected_of to_close).0
unfolding epoch_runs queued_manager after_add collected_of
someone = omega arith

no_two_leaves : distinct (leaves_of (values (collected_of to_close).0)) ≡ true
unfolding epoch_runs queued_manager after_add collected_of distinct
no_two_leaves = refl

nothing_anchored : get_root open_state.ledger open_state.manager.current_epoch_id ≡ none
unfolding epoch_runs queued_manager after_add
nothing_anchored = refl

first_link : prev_hash_of open_state.ledger.blocks ≡ ok (str genesis_prev_hash)
unfolding prev_hash_of last_block
first_link = refl

finalize_epoch-total_example :
    (result : EpochResult) × (st' : EpochState) × (finalize_epoch toy open_state
        (did_b ∷ [])
        test_clock
      ≡ (ok result, st'))
    × ((did : Str) → contains did result.packages ≡ contains did (collected_of to_close).0)
finalize_epoch-total_example =
    finalize_epoch-total toy toy-Sound open_state (did_b ∷ []) test_clock (collected_of to_close).0
      (collected_of to_close).1 (collected_of to_close).2 (str genesis_prev_hash)
      queued_manager-ready none_registered queued_manager-keyed nothing_anchored first_link
      collected_ok someone no_two_leaves
