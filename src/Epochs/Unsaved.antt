-- ===== src/Epochs/Unsaved.antt =====
-- finalize_epoch of fog/batch/epoch_manager.py where the ledger file cannot be written: `_save` of
-- registry/ledger.py raises OSError when the block and the root are already in the ledger's memory.
use blockchain_io_t_a.Common.Crypto.{Crypto, Sound}
use blockchain_io_t_a.Common.Schemas.{registered}
use blockchain_io_t_a.Epochs.{EpochResult, EpochState, blocked_dids, finalize_epoch, prepare}
use blockchain_io_t_a.Epochs.Live.{finalize_epoch-atomic}
use blockchain_io_t_a.Epochs.Ready.{AllLeaved, AllReady}
use blockchain_io_t_a.Ledger.{Ledger, anchor_root, get_root}
use blockchain_io_t_a.Ledger.Anchor.{anchor_root-append_only}
use blockchain_io_t_a.Merkle.Proof.{root, root_hex}
use blockchain_io_t_a.Prelude.{
  >>=-eq-ok, Bool, Error, List, Result, Result-cases, arith, false, inl, inr, ledger_error, length,
  nat_eq, none, ok, os_error, raise, refl, some, text_eq, true, ℕ, ◌>>=◌, ◌≡◌, ◌⊎◌,
}
use blockchain_io_t_a.Prelude.Dict.{contains}
use blockchain_io_t_a.Prelude.Text.{Str, to_hex}
use blockchain_io_t_a.Storage.{by_status}

-- What anchor_root leaves where `_save` raises: the new block and the new root, and the old file.
unfoldable pub anchor_unsaved : Crypto → Ledger → ℕ → Str → ℕ → Str → Result Ledger
anchor_unsaved c l epoch_id root_hex leaf_count timestamp = do
  (anchored, block) ← anchor_root c l epoch_id root_hex leaf_count timestamp
  ok (record anchored { file = l.file })

module _ (c : Crypto) where
  -- `finalize_epoch`, and whether the file can be written.
  unfoldable pub finalize_epoch_saving :
      Bool → EpochState → List Str → Str → Result EpochResult × EpochState
  unfolding anchor_unsaved
  finalize_epoch_saving true st exclude_dids timestamp = finalize_epoch c st exclude_dids timestamp
  finalize_epoch_saving false st exclude_dids timestamp =
      let m = st.manager in
      elim (prepare c m st.devices (blocked_dids st.devices exclude_dids)) [
        | raise x ↦ (raise x, st)
        | ok (tree, members, carried, new) ↦
            elim (anchor_unsaved c st.ledger m.current_epoch_id (to_hex (root tree))
              (length tree.leaves) timestamp) [
                | raise x ↦ (raise x, st)
                | ok ledger ↦ (raise os_error, record st { ledger = ledger })
              ]
      ]

  -- An epoch that has a root cannot be closed.
  anchored-stuck :
      (saves : Bool) (st : EpochState) (exclude_dids : List Str) (timestamp : Str)
      → contains st.manager.current_epoch_id st.ledger.root_cache ≡ true
      → (x : Error) × (finalize_epoch_saving saves st exclude_dids timestamp ≡ (raise x, st))
  unfolding finalize_epoch_saving finalize_epoch anchor_unsaved anchor_root
  anchored-stuck true st exclude_dids timestamp there =
      elim (Result-cases (prepare c st.manager st.devices (blocked_dids st.devices exclude_dids))) [
        | inr (x, raised) ↦ (x, ground arith)
        | inl ((tree, members, carried, new), prepared) ↦ (ledger_error, ground arith)
      ]
  anchored-stuck false st exclude_dids timestamp there =
      elim (Result-cases (prepare c st.manager st.devices (blocked_dids st.devices exclude_dids))) [
        | inr (x, raised) ↦ (x, ground arith)
        | inl ((tree, members, carried, new), prepared) ↦ (ledger_error, ground arith)
      ]

  -- The file could not be written: only the ledger has changed, and only in memory, where it now
  -- holds a root for an epoch that has no package, and that no later attempt closes.
  pub record IsStuck (st st' : EpochState) : Type 0 where
    pub same_manager : st'.manager ≡ st.manager
    pub same_devices : st'.devices ≡ st.devices
    pub same_file : st'.ledger.file ≡ st.ledger.file
    pub no_root : get_root st.ledger st.manager.current_epoch_id ≡ none
    pub anchored : (r : Str) × (get_root st'.ledger st.manager.current_epoch_id ≡ some r)
    pub stuck :
        (saves : Bool) (exclude_dids : List Str) (timestamp : Str)
        → (x : Error) × (finalize_epoch_saving saves st' exclude_dids timestamp ≡ (raise x, st'))

  unsaved-IsStuck :
      (st : EpochState) (ledger : Ledger) (leaf_count : ℕ) (root_hex timestamp : Str)
      → anchor_unsaved c st.ledger st.manager.current_epoch_id root_hex leaf_count timestamp
        ≡ ok ledger
      → IsStuck st (record st { ledger = ledger })
  unfolding anchor_unsaved
  unsaved-IsStuck st ledger leaf_count root_hex timestamp h =
      let n = st.manager.current_epoch_id in
      let ((anchored, block), made, left) =
        >>=-eq-ok (anchor_root c st.ledger n root_hex leaf_count timestamp) _ h in
      let (no_root, there, _, _) =
        anchor_root-append_only c st.ledger anchored n leaf_count root_hex timestamp block made in
      let is_left : ledger ≡ record anchored { file = st.ledger.file } = ground arith in
      let found_root : get_root ledger n ≡ some root_hex = rw is_left (unfold get_root in there) in
      record {
        same_manager = refl;
        same_devices = refl;
        same_file = rw is_left refl;
        no_root = no_root;
        anchored = (root_hex, found_root);
        stuck = λ saves exclude_dids time.
            anchored-stuck saves (record st { ledger = ledger }) exclude_dids time
              (unfold get_root in ground arith);
      }

  -- What was queued is ready. Then finalize_epoch closes the epoch, or raises and leaves the manager,
  -- the devices and the ledger as they were; or, only where the ledger file cannot be written, it
  -- raises OSError, keeps the file, the manager and the devices, and leaves in the ledger's memory a
  -- root for an epoch that no later attempt closes, whether or not the file can be written by then.
  pub finalize_epoch_saving-outcomes :
      (s : Sound c) (saves : Bool) (st : EpochState) (exclude_dids : List Str) (timestamp : Str)
      → AllReady c st.manager.pending
      → AllLeaved c (by_status st.devices registered)
      → ((result : EpochResult) × (st' : EpochState) × (saves ≡ true)
          × (finalize_epoch_saving saves st exclude_dids timestamp ≡ (ok result, st')))
        ⊎ (((x : Error) × (finalize_epoch_saving saves st exclude_dids timestamp ≡ (raise x, st)))
            ⊎ ((st' : EpochState) × (saves ≡ false)
                × (finalize_epoch_saving saves st exclude_dids timestamp ≡ (raise os_error, st'))
                × IsStuck st st'))
  unfolding finalize_epoch_saving
  finalize_epoch_saving-outcomes s true st exclude_dids timestamp ready leaved =
      elim (finalize_epoch-atomic c s st exclude_dids timestamp ready leaved) [
        | inl raised ↦ inr (inl raised)
        | inr (result, st', closed) ↦ inl (result, st', refl, closed)
      ]
  finalize_epoch_saving-outcomes s false st exclude_dids timestamp ready leaved =
      let m = st.manager in
      elim (Result-cases (prepare c m st.devices (blocked_dids st.devices exclude_dids))) [
        | inr (x, raised) ↦ inr (inl (x, ground arith))
        | inl ((tree, members, carried, new), prepared) ↦
            elim (Result-cases (
              anchor_unsaved c st.ledger m.current_epoch_id (to_hex (root tree))
                (length tree.leaves) timestamp)) [
                  | inr (x, raised) ↦ inr (inl (x, ground arith))
                  | inl (ledger, left) ↦ inr (
                      inr (
                        record st { ledger = ledger },
                        refl,
                        ground arith,
                        unsaved-IsStuck st ledger (length tree.leaves) (to_hex (root tree))
                            timestamp left,
                      ))
                ]
      ]
