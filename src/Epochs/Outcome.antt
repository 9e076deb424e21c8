-- ===== src/Epochs/Outcome.antt =====
-- What closing an epoch means for the devices, the ledger and the next epoch.
use blockchain_io_t_a.Common.Crypto.{Crypto}
use blockchain_io_t_a.Common.Schemas.{DeviceRecord, revoked, status_eq}
use blockchain_io_t_a.Epochs.{EpochResult, EpochState, blocked_dids, finalize_epoch, get_package}
use blockchain_io_t_a.Epochs.Batch.{build_packages-absent, collect-free, keyed}
use blockchain_io_t_a.Epochs.Close.{finalize_epoch-IsClosed, prepare-ok}
use blockchain_io_t_a.Ledger.{get_root}
use blockchain_io_t_a.Ledger.Anchor.{anchor_root-append_only}
use blockchain_io_t_a.Merkle.Proof.{root}
use blockchain_io_t_a.Prelude.{
  List, [], arith, false, length, map, mem, nat_beq, nat_eq, none, ok, refl, some, suc,
  text_beq_refl, text_eq, true, ℕ, ◌++◌, ◌||◌, ◌∙◌, ◌∷◌, ◌≡◌,
}
use blockchain_io_t_a.Prelude.Dict.{contains, keys, lookup, lookup-insert_self}
use blockchain_io_t_a.Prelude.Dict.Entries.{mem-keys}
use blockchain_io_t_a.Prelude.Text.{Str, to_hex}
use blockchain_io_t_a.Storage.{DeviceStore, by_status}

-- A DID that the epoch has to leave out: the caller excludes it, or its device is revoked.
pub data IsBlocked (devices : DeviceStore) (exclude_dids : List Str) (did : Str) : Type 0 where
  left_out : mem did exclude_dids ≡ true → IsBlocked devices exclude_dids did
  revoked_device :
      (k : Str) (rec : DeviceRecord)
      → lookup k devices ≡ some rec
      → status_eq rec.status revoked ≡ true
      → rec.did ≡ did
      → IsBlocked devices exclude_dids did

by_status-mem :
    (devices : DeviceStore) (k : Str) (rec : DeviceRecord)
    → lookup k devices ≡ some rec
    → status_eq rec.status revoked ≡ true
    → mem rec.did (map (λ (d : DeviceRecord). d.did) (by_status devices revoked)) ≡ true
unfolding by_status
by_status-mem [] k rec h r = cc
by_status-mem ((j, rec') ∷ devices) k rec h r =
    unfold by_status in ground (arith, by_status-mem devices k rec, text_beq_refl rec.did)

mem-append : (x : Str) (xs ys : List Str) → mem x (xs ++ ys) ≡ mem x xs || mem x ys
mem-append x [] ys = refl
mem-append x (y ∷ xs) ys = ground (arith, mem-append x xs ys)

IsBlocked-mem :
    (devices : DeviceStore) (exclude_dids : List Str) (did : Str)
    → IsBlocked devices exclude_dids did
    → mem did (blocked_dids devices exclude_dids) ≡ true
unfolding blocked_dids
IsBlocked-mem devices exclude_dids did (left_out h) = ground (
  arith,
  mem-append did exclude_dids (map (λ (d : DeviceRecord). d.did) (by_status devices revoked)),
)
IsBlocked-mem devices exclude_dids did (revoked_device k rec h r same) = rw (← same) (
    ground (
      arith,
      mem-append rec.did exclude_dids
          (map (λ (d : DeviceRecord). d.did) (by_status devices revoked)),
      by_status-mem devices k rec h r,
    ))

module _ (c : Crypto) (st st' : EpochState) (exclude_dids : List Str) (timestamp : Str)
    (result : EpochResult) where
  -- Where each entry is queued under its own DID, no package is made for an excluded DID or for
  -- one whose device is revoked: it is not among the packages of the epoch that was closed, nor
  -- in the active set.
  pub finalize_epoch-excludes :
      finalize_epoch c st exclude_dids timestamp ≡ (ok result, st')
      → keyed st.manager.pending ≡ true
      → (did : Str) → IsBlocked st.devices exclude_dids did
      → (contains did result.packages ≡ false)
        × (get_package st'.manager did (some result.epoch_id) ≡ none)
        × (mem did st'.manager.active_dids ≡ false)
  unfolding get_package
  finalize_epoch-excludes h k did b =
      let (tree, members, carried, new, ledger, w) =
        finalize_epoch-IsClosed c st st' exclude_dids timestamp result h in
      let blocked = blocked_dids st.devices exclude_dids in
      let (collected, _) =
        prepare-ok c st.manager st.devices blocked tree members carried new w.prepared in
      let kept = collect-free c st.manager st.devices blocked members carried new k collected in
      let absent =
        build_packages-absent c blocked did tree st.manager.current_epoch_id st.manager.fog_id
          st.manager.signing_key members result.packages kept w.packaged
          (IsBlocked-mem st.devices exclude_dids did b) in
      (
        absent,
        rw w.after (
            ground (arith, lookup-insert_self result.epoch_id result.packages st.manager.packages)),
        rw w.after (mem-keys did result.packages ∙ absent),
      )

  -- A closed epoch has its root in the ledger, where no root was before; what was queued is gone,
  -- the active devices are those of the packages, and the next epoch has the next number.
  pub finalize_epoch-closes :
      finalize_epoch c st exclude_dids timestamp ≡ (ok result, st')
      → (result.epoch_id ≡ st.manager.current_epoch_id)
        × (get_root st.ledger result.epoch_id ≡ none)
        × (get_root st'.ledger result.epoch_id ≡ some result.root)
        × ((n : ℕ)
            → nat_beq n result.epoch_id ≡ false
            → get_root st'.ledger n ≡ get_root st.ledger n)
        × (st'.manager.current_epoch_id ≡ suc st.manager.current_epoch_id)
        × (st'.manager.pending ≡ [])
        × (st'.manager.active_dids ≡ keys result.packages)
        × (keyed st'.manager.pending ≡ true)
  finalize_epoch-closes h =
      let (tree, members, carried, new, ledger, w) =
        finalize_epoch-IsClosed c st st' exclude_dids timestamp result h in
      let (fresh, there, others, _) =
        anchor_root-append_only c st.ledger ledger st.manager.current_epoch_id (length tree.leaves)
          (to_hex (root tree)) timestamp result.block w.anchored in
      (
        w.of_epoch,
        rw w.of_epoch fresh,
        rw (w.after, w.of_epoch, w.of_root) there,
        rw (w.after, w.of_epoch) others,
        rw (w.after, w.of_epoch) (omega arith),
        rw w.after refl,
        rw w.after refl,
        rw w.after refl,
      )
