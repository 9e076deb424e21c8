-- ===== src/Epochs/Live.antt =====
-- When finalize_epoch closes an epoch, and that it leaves all as it was when it does not, where the
-- ledger file can be written.
use blockchain_io_t_a.Common.Crypto.{Crypto, Sound}
use blockchain_io_t_a.Common.Schemas.{registered}
use blockchain_io_t_a.Epochs.{
  EpochResult, EpochState, PendingEntry, blocked_dids, by_leaf, collect, dropped_dids,
  finalize_epoch, issue_proofs, prepare,
}
use blockchain_io_t_a.Epochs.Batch.{keyed}
use blockchain_io_t_a.Epochs.Complete.{finalize_epoch-members, leaves_of}
use blockchain_io_t_a.Epochs.Ready.{AllHash-ready, AllLeaved, AllReady, collect-ready}
use blockchain_io_t_a.Epochs.Total.{
  IsPrepared, build_packages-total, prepare-IsPrepared, view-total,
}
use blockchain_io_t_a.Ledger.{Ledger, anchor_root, get_root, prev_hash_of}
use blockchain_io_t_a.Merkle.Proof.{root}
use blockchain_io_t_a.Merkle.Proof.Levels.{IsHash}
use blockchain_io_t_a.Merkle.Sort.{distinct, sorted}
use blockchain_io_t_a.Merkle.Sorting.{distinct-sorted}
use blockchain_io_t_a.Merkle.Total.{AllHash-sorted, length-sorted, merkle_tree-total}
use blockchain_io_t_a.Merkle.Tree.{MerkleTree}
use blockchain_io_t_a.Prelude.{
  Error, List, Result-cases, [], ap, arith, false, inl, inr, length, nat_eq, none, ok, raise, refl,
  suc, text_eq, true, ℕ, ◌<◌, ◌∙◌, ◌∷◌, ◌≡◌, ◌⊎◌,
}
use blockchain_io_t_a.Prelude.Dict.{Dict, contains, values}
use blockchain_io_t_a.Prelude.Json.{Object, Value}
use blockchain_io_t_a.Prelude.Text.{Bytes, Str, from_hex-to_hex, to_hex}
use blockchain_io_t_a.Storage.{by_status}

module _ (c : Crypto) (s : Sound c) (st : EpochState) (exclude_dids : List Str)
    (timestamp : Str) where
  -- A prepared epoch whose root was anchored is closed.
  anchored-closes :
      (tree : MerkleTree) (members : Dict Str PendingEntry) (carried new : ℕ) (ledger : Ledger)
      (block : Object)
      → IsPrepared c s tree members
      → prepare c st.manager st.devices (blocked_dids st.devices exclude_dids)
        ≡ ok (tree, members, carried, new)
      → anchor_root c st.ledger st.manager.current_epoch_id
          (to_hex (root tree))
          (length tree.leaves)
          timestamp
        ≡ ok (ledger, block)
      → (result : EpochResult) × (st' : EpochState) × (finalize_epoch c st exclude_dids timestamp
          ≡ (ok result, st'))
  unfolding finalize_epoch issue_proofs
  anchored-closes tree members carried new ledger block w prepared anchored =
      let m = st.manager in
      let entries = by_leaf (values members) [] in
      let (packages, packaged) =
        build_packages-total c tree entries s w.given m.current_epoch_id m.fog_id m.signing_key
          tree.leaves [] w.hashes w.made w.covered in
      let (sorted_view, viewed) = view-total 0 entries tree.leaves w.known in
      elim (Result-cases (
        issue_proofs c (record st { ledger = ledger }) tree block members carried new
          (dropped_dids m (blocked_dids st.devices exclude_dids)))) [
            | inr (x, raised) ↦ absurd (ground arith)
            | inl ((result, st'), issued) ↦ (result, st', ground arith)
          ]

  -- Where what was queued is ready and the ledger file can be written, finalize_epoch either closes
  -- an epoch, or raises and leaves the manager, the devices and the ledger as they were.
  pub finalize_epoch-atomic :
      AllReady c st.manager.pending
      → AllLeaved c (by_status st.devices registered)
      → ((x : Error) × (finalize_epoch c st exclude_dids timestamp ≡ (raise x, st)))
        ⊎ ((result : EpochResult) × (st' : EpochState) × (finalize_epoch c st exclude_dids timestamp
              ≡ (ok result, st')))
  unfolding finalize_epoch
  finalize_epoch-atomic ready leaved =
      let m = st.manager in
      let blocked = blocked_dids st.devices exclude_dids in
      elim (Result-cases (prepare c m st.devices blocked)) [
        | inr (x, raised) ↦ inl (x, ground arith)
        | inl ((tree, members, carried, new), prepared) ↦
            elim (Result-cases (
              anchor_root c st.ledger m.current_epoch_id (to_hex (root tree)) (length tree.leaves)
                timestamp)) [
                  | inr (x, raised) ↦ inl (x, ground arith)
                  | inl ((ledger, block), anchored) ↦
                      let w =
                        prepare-IsPrepared c s m st.devices blocked tree members carried new ready
                          leaved prepared in
                      inr
                        (anchored-closes tree members carried new ledger block w prepared anchored)
                ]
      ]

leaves_of-length : (d : Dict Str PendingEntry) → length (leaves_of (values d)) ≡ length d
leaves_of-length [] = refl
leaves_of-length ((k, e) ∷ d) = ap suc (leaves_of-length d)

anchor_root-total :
    (c : Crypto) (l : Ledger) (epoch_id leaf_count : ℕ) (root : Bytes) (timestamp : Str)
    (prev : Value)
    → get_root l epoch_id ≡ none
    → IsHash root
    → prev_hash_of l.blocks ≡ ok prev
    → (l' : Ledger) × (block : Object) × (anchor_root c l epoch_id
          (to_hex root)
          leaf_count
          timestamp
        ≡ ok (l', block))
unfolding anchor_root get_root
anchor_root-total c l epoch_id leaf_count root timestamp prev fresh (size, is_bytes) linked =
    elim (Result-cases (anchor_root c l epoch_id (to_hex root) leaf_count timestamp)) [
      | inl ((l', block), anchored) ↦ (l', block, anchored)
      | inr (x, raised) ↦ absurd (ground (arith, from_hex-to_hex root is_bytes))
    ]

module _ (c : Crypto) (s : Sound c) (st : EpochState) (exclude_dids : List Str) (timestamp : Str)
    (members : Dict Str PendingEntry) (carried new : ℕ) (prev : Value) where
  -- Where what was queued is ready, finalize_epoch closes the epoch if there are members, no two of
  -- them with the same leaf, the epoch has no root yet and the last block has its hash. Then exactly
  -- the members get a package.
  pub finalize_epoch-total :
      AllReady c st.manager.pending
      → AllLeaved c (by_status st.devices registered)
      → keyed st.manager.pending ≡ true
      → get_root st.ledger st.manager.current_epoch_id ≡ none
      → prev_hash_of st.ledger.blocks ≡ ok prev
      → collect c st.manager st.devices (blocked_dids st.devices exclude_dids)
        ≡ ok (members, carried, new)
      → 0 < length members
      → distinct (leaves_of (values members)) ≡ true
      → (result : EpochResult) × (st' : EpochState) × (finalize_epoch c st exclude_dids timestamp
          ≡ (ok result, st'))
        × ((did : Str) → contains did result.packages ≡ contains did members)
  unfolding prepare
  finalize_epoch-total ready leaved k fresh linked collected pos u =
      let m = st.manager in
      let blocked = blocked_dids st.devices exclude_dids in
      let given = sorted (leaves_of (values members)) in
      let hashes =
        AllHash-ready c s members
          (collect-ready c m st.devices blocked members carried new ready leaved collected) in
      let (tree, made, _) =
        merkle_tree-total c s given false (AllHash-sorted _ hashes)
          (omega (arith, length-sorted (leaves_of (values members)), leaves_of-length members))
          (distinct-sorted (leaves_of (values members)) ∙ u) in
      let prepared : prepare c m st.devices blocked ≡ ok (tree, members, carried, new) =
        ground arith in
      let w =
        prepare-IsPrepared c s m st.devices blocked tree members carried new ready leaved
          prepared in
      let (ledger, block, anchored) =
        anchor_root-total c st.ledger m.current_epoch_id (length tree.leaves) (root tree) timestamp
          prev fresh w.root_hash linked in
      let (result, st', h) =
        anchored-closes c s st exclude_dids timestamp tree members carried new ledger block w
          prepared anchored in
      (
        result,
        st',
        h,
        finalize_epoch-members c st st' exclude_dids timestamp result members carried new k
            collected h,
      )
