-- ===== src/Fog/Server/Keys.antt =====
-- The public keys of the registered devices, which no request changes once they are recorded.
use blockchain_io_t_a.Common.Canonical.{leaf_hash}
use blockchain_io_t_a.Common.Crypto.{Crypto}
use blockchain_io_t_a.Common.Schemas.{DeviceRecord, ProofPackage, registered, status_eq}
use blockchain_io_t_a.Epochs.{mark_all, mark_registered}
use blockchain_io_t_a.Epochs.Ready.{IsLeaved}
use blockchain_io_t_a.Prelude.{
  All, Bool-cases, Option, Option-cases, [], arith, inl, inr, nat_eq, none, ok, refl, some,
  text_beq_iff, text_eq, true, ℕ, ◌==◌, ◌∙◌, ◌∷◌, ◌≡◌,
}
use blockchain_io_t_a.Prelude.Dict.{Dict, insert, lookup, lookup-insert}
use blockchain_io_t_a.Prelude.Dict.Entries.{
  Every, Every-mono, distinct_keys, distinct_keys-Every, insert-distinct_keys,
}
use blockchain_io_t_a.Prelude.Text.{Bytes, Str, from_hex}
use blockchain_io_t_a.Storage.{DeviceStore, by_status}

-- The key in the record of a DID.
abbrev pub key_of : DeviceStore → Str → Option Str
key_of devices did = elim (lookup did devices) [ none ↦ none | some rec ↦ some rec.public_key ]

-- The same devices with the same keys.
abbrev pub SameKeys : DeviceStore → DeviceStore → Type 0
SameKeys devices devices' = (did : Str) → key_of devices' did ≡ key_of devices did

-- No recorded key is lost or replaced.
abbrev pub KeepsKeys : DeviceStore → DeviceStore → Type 0
KeepsKeys devices devices' =
    (did text : Str) → key_of devices did ≡ some text → key_of devices' did ≡ some text

-- The records stay under their own DIDs, and the registered ones have the hash of their DID and key
-- as leaf.
abbrev pub IsRecord : Crypto → Str → DeviceRecord → Type 0
IsRecord c k rec = (rec.did ≡ k) × (status_eq rec.status registered ≡ true → IsLeaved c rec)

pub record IsStore (c : Crypto) (devices : DeviceStore) : Type 0 where
  pub once : distinct_keys devices ≡ true
  pub records : (k : Str) (rec : DeviceRecord) → lookup k devices ≡ some rec → IsRecord c k rec

pub insert-SameKeys :
    (devices : DeviceStore) (did : Str) (rec rec' : DeviceRecord)
    → lookup did devices ≡ some rec
    → rec'.public_key ≡ rec.public_key
    → SameKeys devices (insert did rec' devices)
insert-SameKeys devices did rec rec' there same k =
    ground (arith, lookup-insert did k rec' devices, text_beq_iff k did)

pub insert-IsStore :
    (c : Crypto) (devices : DeviceStore) (did : Str) (rec : DeviceRecord)
    → IsStore c devices
    → IsRecord c did rec
    → IsStore c (insert did rec devices)
insert-IsStore c devices did rec w r = record {
  once = insert-distinct_keys did rec devices w.once;
  records = λ k rec' there. elim (Bool-cases (k == did)) [
    | inl same ↦
        let is_did : k ≡ did = (text_beq_iff k did).0 same in
        let is_rec : rec ≡ rec' = ground (arith, lookup-insert did k rec devices) in
        rw (is_did, ← is_rec) r
    | inr other ↦ w.records k rec' (ground (arith, lookup-insert did k rec devices))
  ];
}

select_All :
    (P : DeviceRecord → Type 0) (devices : DeviceStore)
    → Every (λ k rec. status_eq rec.status registered ≡ true → P rec) devices
    → All P (by_status devices registered)
unfolding by_status
select_All P [] h = tt
select_All P ((k, rec) ∷ devices) (q, h) = elim (Bool-cases (status_eq rec.status registered)) [
  | inl it_is ↦
      let same : by_status ((k, rec) ∷ devices) registered ≡ rec ∷ by_status devices registered =
        ground arith in
      rw same (q it_is, select_All P devices h)
  | inr not_it ↦
      let same : by_status ((k, rec) ∷ devices) registered ≡ by_status devices registered =
        ground arith in
      rw same (select_All P devices h)
]

-- The registered devices, as finalize_epoch goes over them.
pub by_status-All :
    (c : Crypto) (devices : DeviceStore) (P : DeviceRecord → Type 0)
    → distinct_keys devices ≡ true
    → ((k : Str) (rec : DeviceRecord)
        → lookup k devices ≡ some rec
        → status_eq rec.status registered ≡ true
        → P rec)
    → All P (by_status devices registered)
by_status-All c devices P once f =
    select_All P devices
      (distinct_keys-Every (λ k rec. status_eq rec.status registered ≡ true → P rec) devices once f)

-- The leaf of a package is the hash of the DID and of the recorded key.
abbrev pub Fits : Crypto → DeviceStore → Str → ProofPackage → Type 0
Fits c devices did pkg =
    (text : Str) × (pk leaf : Bytes) × (key_of devices did ≡ some text)
    × (from_hex text ≡ some pk)
    × (leaf_hash c did pk ≡ ok leaf)
    × (from_hex pkg.leaf ≡ some leaf)

module _ (c : Crypto) (epoch_id : ℕ) where
  mark_registered-SameKeys :
      (did : Str) (pkg : ProofPackage) (devices : DeviceStore)
      → SameKeys devices (mark_registered epoch_id (did, pkg) devices)
  unfolding mark_registered
  mark_registered-SameKeys did pkg devices = elim (Option-cases (lookup did devices)) [
    | inl missing ↦ λ k. ground arith
    | inr (rec, there) ↦ λ k. ground (
      arith,
      insert-SameKeys devices did rec
          (record rec { status = registered; leaf = some pkg.leaf; epoch_id = some epoch_id }) there
          refl k,
    )
  ]

  mark_registered-IsStore :
      (did : Str) (pkg : ProofPackage) (devices : DeviceStore)
      → IsStore c devices
      → Fits c devices did pkg
      → IsStore c (mark_registered epoch_id (did, pkg) devices)
  unfolding mark_registered
  mark_registered-IsStore did pkg devices w (text, pk, leaf, has, key, hashed, is_leaf) =
      elim (Option-cases (lookup did devices)) [
        | inl missing ↦ absurd (ground arith)
        | inr (rec, there) ↦
            let rec' : DeviceRecord = record rec {
              status = registered;
              leaf = some pkg.leaf;
              epoch_id = some epoch_id;
            } in
            let (same, leaved) = w.records did rec there in
            let after : mark_registered epoch_id (did, pkg) devices ≡ insert did rec' devices =
              ground arith in
            rw after (
              insert-IsStore c devices did rec' w
                (same, λ r. (pk, leaf, pkg.leaf, refl, is_leaf, ground arith, rw same hashed)))
      ]

  pub mark_all-SameKeys :
      (packages : Dict Str ProofPackage) (devices : DeviceStore)
      → SameKeys devices (mark_all epoch_id packages devices)
  unfolding mark_all
  mark_all-SameKeys [] devices k = refl
  mark_all-SameKeys ((did, pkg) ∷ packages) devices k =
      mark_all-SameKeys packages (mark_registered epoch_id (did, pkg) devices) k
      ∙ mark_registered-SameKeys did pkg devices k

  pub mark_all-IsStore :
      (packages : Dict Str ProofPackage) (devices : DeviceStore)
      → IsStore c devices
      → Every (Fits c devices) packages
      → IsStore c (mark_all epoch_id packages devices)
  unfolding mark_all
  mark_all-IsStore [] devices w f = w
  mark_all-IsStore ((did, pkg) ∷ packages) devices w (g, f) =
      let devices' = mark_registered epoch_id (did, pkg) devices in
      mark_all-IsStore packages devices' (mark_registered-IsStore did pkg devices w g) (
        Every-mono (Fits c devices) (Fits c devices')
          (λ k q (text, pk, leaf, has, key, hashed, is_leaf). (
            text,
            pk,
            leaf,
            mark_registered-SameKeys did pkg devices k ∙ has,
            key,
            hashed,
            is_leaf,
          ))
          packages f)
