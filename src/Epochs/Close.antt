-- ===== src/Epochs/Close.antt =====
-- finalize_epoch as a whole.
use blockchain_io_t_a.Common.Crypto.{Crypto}
use blockchain_io_t_a.Epochs.{
  EpochManager, EpochResult, EpochState, PendingEntry, blocked_dids, build_packages, by_leaf,
  collect, finalize_epoch, issue_proofs, mark_all, prepare, put_all, view,
}
use blockchain_io_t_a.Fog.Context.{found}
use blockchain_io_t_a.Ledger.{Ledger, anchor_root}
use blockchain_io_t_a.Merkle.Proof.{root}
use blockchain_io_t_a.Merkle.Sort.{sorted}
use blockchain_io_t_a.Merkle.Tree.{MerkleTree, merkle_tree}
use blockchain_io_t_a.Prelude.{
  List, Result-cases, [], arith, false, inl, inr, length, map, nat_eq, ok, text_eq, ℕ, ◌+◌, ◌≡◌,
}
use blockchain_io_t_a.Prelude.Dict.{Dict, insert, keys, values}
use blockchain_io_t_a.Prelude.Text.{Str, to_hex}
use blockchain_io_t_a.Storage.{DeviceStore}

module _ (c : Crypto) where
  -- What has held when an epoch was closed.
  pub record IsClosed (st st' : EpochState) (exclude_dids : List Str) (timestamp : Str)
      (result : EpochResult) (tree : MerkleTree) (members : Dict Str PendingEntry) (carried new : ℕ)
      (ledger : Ledger) : Type 0 where
    pub prepared :
        prepare c st.manager st.devices (blocked_dids st.devices exclude_dids)
        ≡ ok (tree, members, carried, new)
    pub anchored :
        anchor_root c st.ledger st.manager.current_epoch_id
          (to_hex (root tree))
          (length tree.leaves)
          timestamp
        ≡ ok (ledger, result.block)
    pub packaged :
        build_packages c tree st.manager.current_epoch_id st.manager.fog_id st.manager.signing_key
          (by_leaf (values members) [])
          tree.leaves
          []
        ≡ ok result.packages
    pub of_epoch : result.epoch_id ≡ st.manager.current_epoch_id
    pub of_root : result.root ≡ to_hex (root tree)
    pub after : st' ≡ record {
      manager = record st.manager {
        packages = insert result.epoch_id result.packages st.manager.packages;
        latest_package = put_all result.packages st.manager.latest_package;
        active_dids = keys result.packages;
        pending = [];
        current_epoch_id = result.epoch_id + 1;
      };
      devices = mark_all result.epoch_id result.packages st.devices;
      ledger = ledger;
    }

  pub finalize_epoch-IsClosed :
      (st st' : EpochState) (exclude_dids : List Str) (timestamp : Str) (result : EpochResult)
      → finalize_epoch c st exclude_dids timestamp ≡ (ok result, st')
      → (tree : MerkleTree) × (members : Dict Str PendingEntry) × (carried new : ℕ)
        × (ledger : Ledger) × IsClosed st st' exclude_dids timestamp result tree members carried new
            ledger
  unfolding finalize_epoch issue_proofs
  finalize_epoch-IsClosed st st' exclude_dids timestamp result h =
      let m = st.manager in
      let blocked = blocked_dids st.devices exclude_dids in
      elim (Result-cases (prepare c m st.devices blocked)) [
        | inr (x, raised) ↦ absurd (ground arith)
        | inl ((tree, members, carried, new), prepared) ↦
            elim (Result-cases (
              anchor_root c st.ledger m.current_epoch_id (to_hex (root tree)) (length tree.leaves)
                timestamp)) [
                  | inr (x, raised) ↦ absurd (ground arith)
                  | inl ((ledger, block), anchored) ↦
                      elim (Result-cases (
                        build_packages c tree m.current_epoch_id m.fog_id m.signing_key
                          (by_leaf (values members) []) tree.leaves [])) [
                            | inr (x, raised) ↦ absurd (ground arith)
                            | inl (packages, packaged) ↦
                                elim (Result-cases
                                  (view 0 (by_leaf (values members) []) tree.leaves)) [
                                    | inr (x, raised) ↦ absurd (ground arith)
                                    | inl (sorted_view, viewed) ↦ (
                                      tree,
                                      members,
                                      carried,
                                      new,
                                      ledger,
                                      record {
                                        prepared = prepared;
                                        anchored = ground arith;
                                        packaged = ground arith;
                                        of_epoch = ground arith;
                                        of_root = ground arith;
                                        after = ground arith;
                                      },
                                    )
                                  ]
                          ]
                ]
      ]

  pub prepare-ok :
      (m : EpochManager) (devices : DeviceStore) (blocked : List Str) (tree : MerkleTree)
      (members : Dict Str PendingEntry) (carried new : ℕ)
      → prepare c m devices blocked ≡ ok (tree, members, carried, new)
      → (collect c m devices blocked ≡ ok (members, carried, new))
        × (merkle_tree c (sorted (map (λ (e : PendingEntry). e.leaf) (values members))) false
            ≡ ok tree)
  unfolding prepare
  prepare-ok m devices blocked tree members carried new h =
      elim (Result-cases (collect c m devices blocked)) [
        | inr (x, raised) ↦ absurd (ground arith)
        | inl ((found, count, fresh), collected) ↦
            elim (Result-cases
              (merkle_tree c (sorted (map (λ (e : PendingEntry). e.leaf) (values found))) false)) [
                | inr (x, raised) ↦ absurd (ground arith)
                | inl (t, built) ↦
                    let same : members ≡ found = ground arith in
                    (ground arith, rw same (ground arith))
              ]
      ]
