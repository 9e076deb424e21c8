-- ===== src/Tests/Epochs.antt =====
-- One epoch of two devices, of which one is then excluded; its packages and its ledger.
use blockchain_io_t_a.Common.Canonical.{leaf_hash}
use blockchain_io_t_a.Common.Crypto.{load_public_key, public_key_bytes, sign, verify}
use blockchain_io_t_a.Common.Schemas.{ProofPackage, registered}
use blockchain_io_t_a.Epochs.{
  EpochManager, EpochResult, EpochState, add_leaf, admit, blocked_dids, build_packages, by_leaf,
  carry, collect, dropped_dids, finalize_epoch, get_package, issue_proofs, mark_all,
  mark_registered, prepare, put_all, unique, view,
}
use blockchain_io_t_a.Epochs.Batch.{keyed}
use blockchain_io_t_a.Epochs.Issued.{Verifies}
use blockchain_io_t_a.Epochs.Outcome.{finalize_epoch-closes, finalize_epoch-excludes, left_out}
use blockchain_io_t_a.Epochs.Ready.{AllLeaved, AllReady, add_leaf-ready}
use blockchain_io_t_a.Epochs.Verified.{finalize_epoch-Verifies}
use blockchain_io_t_a.Ledger.{
  Ledger, anchor_root, block_hash, body_of, bytes_of, chain_valid, check_block, check_blocks,
  check_hash, check_signed, get_root, item, last_block, new_block, new_body, pick, prev_hash_of,
  verify_chain,
}
use blockchain_io_t_a.Ledger.Anchor.{anchor_root-append_only}
use blockchain_io_t_a.Ledger.Chain.{IsOpen, anchor_root-valid}
use blockchain_io_t_a.Prelude.{
  Option, Result, [], false, ledger_error, length, mem, nat_beq, nat_eq, none, ok, raise, refl,
  some, suc, text_eq, true, ℕ, ◌∷◌, ◌≡◌,
}
use blockchain_io_t_a.Prelude.Dict.{contains, keys}
use blockchain_io_t_a.Prelude.Json.{Object, canonical_json}
use blockchain_io_t_a.Prelude.Text.{Bytes, Str, codes, decimal, to_hex}
use blockchain_io_t_a.Proofs.{build_proof_package, package_fields, package_message}
use blockchain_io_t_a.Proofs.Sound.{entry_leaf}
use blockchain_io_t_a.Storage.{by_status}
use blockchain_io_t_a.Tests.Toy.{toy, toy-Sound}
use blockchain_io_t_a.Tests.Trees.{run}

abbrev pub key_a : Bytes
key_a = toy.public_point 11

abbrev pub key_b : Bytes
key_b = toy.public_point 22

abbrev pub did_a : Str
did_a = codes "did:iiot:a1"

abbrev pub did_b : Str
did_b = codes "did:iiot:b2"

abbrev pub test_clock : Str
test_clock = codes "2026-01-01T00:00:00Z"

abbrev pub empty_ledger : Ledger
empty_ledger = record {
  signing_key = 77;
  fog_id = codes "fog_A";
  fog_pk = public_key_bytes toy 77;
  blocks = [];
  root_cache = [];
  file = none;
}

abbrev pub empty_manager : EpochManager
empty_manager = record {
  signing_key = 77;
  fog_id = codes "fog_A";
  carry_forward = true;
  current_epoch_id = 1;
  pending = [];
  packages = [];
  latest_package = [];
  active_dids = [];
}

unfoldable pub epoch_runs : Unit {0}
unfolding run finalize_epoch prepare collect carry admit by_leaf build_packages view issue_proofs
    mark_all mark_registered put_all unique dropped_dids blocked_dids by_status add_leaf leaf_hash
    build_proof_package package_message package_fields canonical_json decimal sign anchor_root
    prev_hash_of last_block new_body new_block block_hash public_key_bytes get_root get_package
epoch_runs = tt

unfoldable pub after_add : Result (EpochManager × Str) → EpochManager
after_add (ok (m, leaf)) = m
after_add (raise x) = empty_manager

unfoldable pub queued_manager : EpochManager
unfolding epoch_runs after_add
queued_manager =
    after_add (add_leaf toy (after_add (add_leaf toy empty_manager did_a key_a 5)) did_b key_b 6)

abbrev pub open_state : EpochState
open_state = record { manager = queued_manager; devices = []; ledger = empty_ledger }

pub no_result : EpochResult
no_result = record {
  epoch_id = 0;
  root = [];
  block = [];
  sorted_leaves = [];
  packages = [];
  new_devices = 0;
  carried_forward = 0;
  excluded = [];
}

unfoldable pub result_of : Result EpochResult → EpochResult
result_of (ok r) = r
result_of (raise x) = no_result

unfoldable pub close_run : Result EpochResult × EpochState
unfolding epoch_runs queued_manager
close_run = finalize_epoch toy open_state (did_b ∷ []) test_clock

unfoldable pub closed_result : EpochResult
unfolding epoch_runs close_run result_of no_result
closed_result = result_of close_run.0

unfoldable pub closed_state : EpochState
unfolding epoch_runs close_run
closed_state = close_run.1

closes : finalize_epoch toy open_state (did_b ∷ []) test_clock ≡ (ok closed_result, closed_state)
unfolding epoch_runs close_run closed_result closed_state queued_manager
closes = refl

finalize_epoch-closes_example :
    (closed_result.epoch_id ≡ open_state.manager.current_epoch_id)
    × (get_root open_state.ledger closed_result.epoch_id ≡ none)
    × (get_root closed_state.ledger closed_result.epoch_id ≡ some closed_result.root)
    × ((n : ℕ)
        → nat_beq n closed_result.epoch_id ≡ false
        → get_root closed_state.ledger n ≡ get_root open_state.ledger n)
    × (closed_state.manager.current_epoch_id ≡ suc open_state.manager.current_epoch_id)
    × (closed_state.manager.pending ≡ [])
    × (closed_state.manager.active_dids ≡ keys closed_result.packages)
    × (keyed closed_state.manager.pending ≡ true)
finalize_epoch-closes_example =
    finalize_epoch-closes toy open_state closed_state (did_b ∷ []) test_clock closed_result closes

pub queued_manager-keyed : keyed open_state.manager.pending ≡ true
unfolding epoch_runs queued_manager after_add
queued_manager-keyed = refl

finalize_epoch-excludes_example :
    (contains did_b closed_result.packages ≡ false)
    × (get_package closed_state.manager did_b (some closed_result.epoch_id) ≡ none)
    × (mem did_b closed_state.manager.active_dids ≡ false)
finalize_epoch-excludes_example =
    finalize_epoch-excludes toy open_state closed_state (did_b ∷ []) test_clock closed_result closes
      queued_manager-keyed did_b (left_out refl)

first_added :
    add_leaf toy empty_manager did_a key_a 5
    ≡ ok (
      after_add (add_leaf toy empty_manager did_a key_a 5),
      to_hex (entry_leaf toy (did_a, key_a)),
    )
unfolding epoch_runs after_add
first_added = refl

add_leaf-ready_example : AllReady toy (after_add (add_leaf toy empty_manager did_a key_a 5)).pending
add_leaf-ready_example =
    add_leaf-ready toy empty_manager (after_add (add_leaf toy empty_manager did_a key_a 5)) did_a
      (to_hex (entry_leaf toy (did_a, key_a))) key_a 5 (toy-Sound.point_bytes 11) tt first_added

pub queued_manager-ready : AllReady toy open_state.manager.pending
unfolding epoch_runs queued_manager after_add
queued_manager-ready = ((key_a, refl, refl), ((key_b, refl, refl), tt))

pub none_registered : AllLeaved toy (by_status open_state.devices registered)
unfolding by_status
none_registered = tt

unfoldable pub package_of : Option ProofPackage → ProofPackage
package_of (some p) = p
package_of none = record {
  did = [];
  public_key = [];
  leaf = [];
  epoch_id = 0;
  root = [];
  proof_path = [];
  fog_id = [];
  fog_signature = [];
}

unfoldable pub package_a : ProofPackage
unfolding epoch_runs closed_state close_run queued_manager closed_result result_of package_of
package_a = package_of (get_package closed_state.manager did_a (some closed_result.epoch_id))

issued_a : get_package closed_state.manager did_a (some closed_result.epoch_id) ≡ some package_a
unfolding epoch_runs closed_state close_run queued_manager closed_result result_of package_of
    package_a
issued_a = refl

finalize_epoch-Verifies_example :
    Verifies toy
      (get_root closed_state.ledger closed_result.epoch_id)
      open_state.manager.signing_key
      package_a
finalize_epoch-Verifies_example =
    finalize_epoch-Verifies toy toy-Sound open_state closed_state (did_b ∷ []) test_clock
      closed_result queued_manager-ready none_registered closes did_a package_a issued_a

second : Result (Ledger × Object)
unfolding epoch_runs closed_result close_run closed_state queued_manager
second = anchor_root toy closed_state.ledger 2 closed_result.root 1 test_clock

ledger_of : Result (Ledger × Object) → Ledger × Object
ledger_of (ok p) = p
ledger_of (raise x) = (empty_ledger, [])

second_anchored :
    anchor_root toy closed_state.ledger 2 closed_result.root 1 test_clock
    ≡ ok ((ledger_of second).0, (ledger_of second).1)
unfolding epoch_runs closed_result close_run closed_state queued_manager second ledger_of result_of
second_anchored = refl

anchor_root-append_only_example :
    (get_root closed_state.ledger 2 ≡ none)
    × (get_root (ledger_of second).0 2 ≡ some closed_result.root)
    × ((n : ℕ)
        → nat_beq n 2 ≡ false
        → get_root (ledger_of second).0 n ≡ get_root closed_state.ledger n)
    × ((again time : Str) (count : ℕ)
        → anchor_root toy (ledger_of second).0 2 again count time ≡ raise ledger_error)
anchor_root-append_only_example =
    anchor_root-append_only toy closed_state.ledger (ledger_of second).0 2 1 closed_result.root
      test_clock (ledger_of second).1 second_anchored

opened : IsOpen toy closed_state.ledger
unfolding epoch_runs closed_state close_run queued_manager
opened = record { own_key = refl; written = refl }

unfoldable pub chain_runs : Unit {0}
unfolding epoch_runs verify_chain check_blocks check_block check_signed check_hash body_of pick item
    bytes_of verify load_public_key
chain_runs = tt

pub valid_before : verify_chain toy closed_state.ledger none ≡ ok (true, chain_valid 1)
unfolding chain_runs closed_state close_run queued_manager
valid_before = refl

anchor_root-valid_example :
    IsOpen toy (ledger_of second).0
    × (chain_valid 1 ≡ chain_valid (length closed_state.ledger.blocks))
    × (verify_chain toy (ledger_of second).0 none
        ≡ ok (true, chain_valid (suc (length closed_state.ledger.blocks))))
anchor_root-valid_example =
    anchor_root-valid toy toy-Sound closed_state.ledger (ledger_of second).0 2 1 closed_result.root
      test_clock (ledger_of second).1 (chain_valid 1) opened valid_before second_anchored
