-- ===== src/Fog/Server/Closing.antt =====
-- Closing an epoch keeps the context sound.
use blockchain_io_t_a.Common.Canonical.{leaf_hash-eq}
use blockchain_io_t_a.Common.Crypto.{Crypto, Sound}
use blockchain_io_t_a.Common.Schemas.{ProofPackage, registered}
use blockchain_io_t_a.Epochs.{
  EpochResult, EpochState, PendingEntry, blocked_dids, finalize_epoch, put_all,
}
use blockchain_io_t_a.Epochs.Close.{finalize_epoch-IsClosed}
use blockchain_io_t_a.Epochs.Issued.{Verifies, finalize_epoch-Every}
use blockchain_io_t_a.Epochs.Members.{Admits, Carries}
use blockchain_io_t_a.Epochs.Outcome.{finalize_epoch-closes}
use blockchain_io_t_a.Epochs.Ready.{IsLeaved-carries, IsReady}
use blockchain_io_t_a.Fog.Server.Keys.{
  Fits, IsStore, SameKeys, by_status-All, key_of, mark_all-IsStore, mark_all-SameKeys,
}
use blockchain_io_t_a.Fog.Server.Sound.{AllAnchored, IsAnchored, IsKeeping, IsQueued}
use blockchain_io_t_a.Ledger.{Ledger, get_root}
use blockchain_io_t_a.Merkle.Proof.{get_proof, root}
use blockchain_io_t_a.Merkle.Tree.{MerkleTree, bytes}
use blockchain_io_t_a.Prelude.{
  All, Bool-cases, List, Result-cases, [], arith, inl, inr, nat_beq, nat_beq_iff, nat_eq, ok, refl,
  some, sym, text_eq, ℕ, ◌+◌, ◌∙◌, ◌∷◌, ◌≡◌,
}
use blockchain_io_t_a.Prelude.Dict.{Dict, insert, keys}
use blockchain_io_t_a.Prelude.Dict.Entries.{Every, Every-mono, insert-Every}
use blockchain_io_t_a.Prelude.Text.{Bytes, Str, from_hex, from_hex-to_hex, to_hex}
use blockchain_io_t_a.Proofs.{build_proof_package}
use blockchain_io_t_a.Storage.{DeviceStore, by_status}

build_proof_package-fields :
    (c : Crypto) (did pk_hex : Str) (leaf : Bytes) (tree : MerkleTree) (epoch_id : ℕ) (fog_id : Str)
    (key : ℕ) (pkg : ProofPackage)
    → build_proof_package c did pk_hex leaf tree epoch_id fog_id key ≡ ok pkg
    → (pkg.did ≡ did) × (pkg.leaf ≡ to_hex leaf) × (pkg.epoch_id ≡ epoch_id)
unfolding build_proof_package
build_proof_package-fields c did pk_hex leaf tree epoch_id fog_id key pkg h =
    elim (Result-cases (get_proof tree (bytes leaf))) [
      | inr (x, raised) ↦ absurd (ground arith)
      | inl (path, proved) ↦ (ground arith, ground arith, ground arith)
    ]

put_all-Every :
    (P : Str → ProofPackage → Type 0) (packages latest : Dict Str ProofPackage)
    → Every P packages
    → Every P latest
    → Every P (put_all packages latest)
unfolding put_all
put_all-Every P [] latest h l = l
put_all-Every P ((did, pkg) ∷ packages) latest (p, h) l =
    put_all-Every P packages (insert did pkg latest) h (insert-Every P did pkg latest p l)

-- No root is lost or replaced.
abbrev pub KeepsRoots : Ledger → Ledger → Type 0
KeepsRoots ledger ledger' =
    (n : ℕ) (root : Str) → get_root ledger n ≡ some root → get_root ledger' n ≡ some root

KeepsRoots-IsAnchored :
    (c : Crypto) (key : ℕ) (ledger ledger' : Ledger) (did : Str) (pkg : ProofPackage)
    → KeepsRoots ledger ledger'
    → IsAnchored c key ledger did pkg
    → IsAnchored c key ledger' did pkg
KeepsRoots-IsAnchored c key ledger ledger' did pkg keeps (named, root, there, verified) =
    (named, root, keeps pkg.epoch_id root there, verified)

module _ (c : Crypto) (sound : Sound c) (devices : DeviceStore) where
  -- An entry that becomes a member of an epoch.
  abbrev pub IsMember : PendingEntry → Type 0
  IsMember e =
      IsReady c e
      × (text : Str) × (key_of devices e.did ≡ some text)
      × (from_hex text ≡ from_hex e.public_key)

  pub queued-IsMember :
      (blocked : List Str) (d : Dict Str PendingEntry)
      → Every (IsQueued c devices) d
      → Every (Admits (λ did. IsMember) blocked) d
  queued-IsMember blocked d h =
      Every-mono (IsQueued c devices) (Admits (λ did. IsMember) blocked)
        (λ did e (named, ready, text, has, key) kept. (ready, text, rw (← named) has, key)) d h

  pub registered-IsMember :
      (blocked : List Str)
      → IsStore c devices
      → All (Carries (λ did. IsMember) blocked) (by_status devices registered)
  registered-IsMember blocked w =
      by_status-All c devices (Carries (λ did. IsMember) blocked) w.once
        λ k rec there is_registered kept text leaf has is_leaf.
          let (same, leaved) = w.records k rec there in
          let known : key_of devices rec.did ≡ some rec.public_key = rw same (ground arith) in
          (
            IsLeaved-carries c rec text leaf (leaved is_registered) has is_leaf,
            rec.public_key,
            known,
            refl,
          )

  member-Fits :
      (e : PendingEntry) (pkg : ProofPackage)
      → IsMember e
      → pkg.leaf ≡ to_hex e.leaf
      → Fits c devices e.did pkg
  member-Fits e pkg ((pk, key, hashed), text, has, same) is_leaf =
      let (is_hash, _) = leaf_hash-eq c e.did pk hashed in
      (
        text,
        pk,
        e.leaf,
        has,
        same ∙ key,
        hashed,
        rw is_leaf (from_hex-to_hex e.leaf (rw is_hash (sound.sha256_bytes _))),
      )

module _ (c : Crypto) (sound : Sound c) (key : ℕ) (st st' : EpochState) (exclude_dids : List Str)
    (timestamp : Str) (result : EpochResult) (store : IsStore c st.devices)
    (keeping : IsKeeping c key st.devices st.manager st.ledger)
    (closed : finalize_epoch c st exclude_dids timestamp ≡ (ok result, st')) where
  -- What each new package is.
  abbrev IsIssued : Str → ProofPackage → Type 0
  IsIssued did pkg =
      (pkg.epoch_id ≡ st.manager.current_epoch_id)
      × (did ≡ pkg.did)
      × Fits c st.devices did pkg
      × Verifies c (some result.root) key pkg

  packages-IsIssued : Every IsIssued result.packages
  packages-IsIssued =
      let m = st.manager in
      let blocked = blocked_dids st.devices exclude_dids in
      finalize_epoch-Every c sound st st' exclude_dids timestamp result
        (IsMember c sound st.devices) IsIssued (λ e p. p.0)
        (queued-IsMember c sound st.devices blocked m.pending keeping.queued)
        (registered-IsMember c sound st.devices blocked store) closed
        λ tree e pkg p of_root built verified.
          let (same_did, same_leaf, same_epoch) =
            build_proof_package-fields c e.did e.public_key e.leaf tree m.current_epoch_id m.fog_id
              m.signing_key pkg built in
          (
            same_epoch,
            sym same_did,
            member-Fits c sound st.devices e pkg p same_leaf,
            rw (← of_root, ← keeping.own_key) verified,
          )

  pub closed-KeepsRoots : KeepsRoots st.ledger st'.ledger
  closed-KeepsRoots n root there =
      let (same, fresh, new, others, _, _, _, _) =
        finalize_epoch-closes c st st' exclude_dids timestamp result closed in
      elim (Bool-cases (nat_beq n result.epoch_id)) [
        | inl equal ↦
            let is_n : n ≡ result.epoch_id = (nat_beq_iff n result.epoch_id).0 equal in
            absurd (ground arith)
        | inr other ↦ others n other ∙ there
      ]

  pub closed-IsStore : IsStore c st'.devices
  closed-IsStore =
      let (tree, members, carried, new, ledger, w) =
        finalize_epoch-IsClosed c st st' exclude_dids timestamp result closed in
      rw w.after (
        mark_all-IsStore c result.epoch_id result.packages st.devices store (
          Every-mono IsIssued (Fits c st.devices) (λ did pkg (e, named, fits, v). fits)
            result.packages packages-IsIssued))

  pub closed-SameKeys : SameKeys st.devices st'.devices
  closed-SameKeys =
      let (tree, members, carried, new, ledger, w) =
        finalize_epoch-IsClosed c st st' exclude_dids timestamp result closed in
      rw w.after (mark_all-SameKeys c result.epoch_id result.packages st.devices)

  new_packages-anchored : AllAnchored c key st'.ledger result.epoch_id result.packages
  new_packages-anchored =
      let (same, fresh, there, others, _, _, _, _) =
        finalize_epoch-closes c st st' exclude_dids timestamp result closed in
      Every-mono IsIssued
        (λ did pkg. (pkg.epoch_id ≡ result.epoch_id) × IsAnchored c key st'.ledger did pkg)
        (λ did pkg (of_epoch, named, fits, verified).
          let is_epoch : pkg.epoch_id ≡ result.epoch_id = of_epoch ∙ sym same in
          (is_epoch, (named, result.root, rw is_epoch there, verified)))
        result.packages packages-IsIssued

  pub closed-IsKeeping : IsKeeping c key st'.devices st'.manager st'.ledger
  closed-IsKeeping =
      let (same, fresh, there, others, next_epoch, emptied, _, _) =
        finalize_epoch-closes c st st' exclude_dids timestamp result closed in
      let (tree, members, carried, new, ledger, w) =
        finalize_epoch-IsClosed c st st' exclude_dids timestamp result closed in
      let m = st.manager in
      let old = λ (did : Str) (pkg : ProofPackage).
        KeepsRoots-IsAnchored c key st.ledger st'.ledger did pkg closed-KeepsRoots in
      let all_packages =
        insert-Every (AllAnchored c key st'.ledger) result.epoch_id result.packages m.packages
          new_packages-anchored
          (Every-mono (AllAnchored c key st.ledger) (AllAnchored c key st'.ledger)
            (λ n packages. Every-mono _ _ (λ did pkg (e, a). (e, old did pkg a)) packages)
            m.packages keeping.issued) in
      let all_latest =
        put_all-Every (IsAnchored c key st'.ledger) result.packages m.latest_package
          (Every-mono _ _ (λ did pkg (e, a). a) result.packages new_packages-anchored)
          (Every-mono _ _ old m.latest_package keeping.latest) in
      let is_manager : st'.manager ≡ record m {
        packages = insert result.epoch_id result.packages m.packages;
        latest_package = put_all result.packages m.latest_package;
        active_dids = keys result.packages;
        pending = [];
        current_epoch_id = result.epoch_id + 1;
      } =
        rw w.after refl in
      record {
        own_key = rw is_manager keeping.own_key;
        queued = rw emptied tt;
        numbered = λ n above.
            others n (ground (arith, nat_beq_iff n result.epoch_id))
            ∙ keeping.numbered n (omega arith);
        issued = rw is_manager all_packages;
        latest = rw is_manager all_latest;
      }
