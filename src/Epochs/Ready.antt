-- ===== src/Epochs/Ready.antt =====
-- Every package of a closed epoch verifies against the root that was anchored.
use blockchain_io_t_a.Common.Canonical.{leaf_hash, leaf_hash-eq}
use blockchain_io_t_a.Common.Crypto.{Crypto, Sound}
use blockchain_io_t_a.Common.Schemas.{DeviceRecord, registered}
use blockchain_io_t_a.Epochs.{EpochManager, PendingEntry, add_leaf, collect}
use blockchain_io_t_a.Epochs.Members.{Admits, Carries, carried_entry, collect-Every}
use blockchain_io_t_a.Merkle.Proof.Levels.{AllHash}
use blockchain_io_t_a.Prelude.{
  All, All-mono, List, Result-cases, [], arith, inl, inr, map, nat_eq, ok, some, text_eq, ℕ, ◌∷◌,
  ◌≡◌,
}
use blockchain_io_t_a.Prelude.Dict.{Dict, insert, values}
use blockchain_io_t_a.Prelude.Dict.Entries.{Every, Every-mono, insert-Every}
use blockchain_io_t_a.Prelude.Text.{Bytes, IsBytes, Str, from_hex, from_hex-to_hex, to_hex}
use blockchain_io_t_a.Storage.{DeviceStore, by_status}

module _ (c : Crypto) where
  -- The leaf of an entry is the hash of its DID and its key, as add_leaf computes it.
  abbrev pub IsReady : PendingEntry → Type 0
  IsReady e = (pk : Bytes) × (from_hex e.public_key ≡ some pk) × (leaf_hash c e.did pk ≡ ok e.leaf)

  abbrev pub AllReady : Dict Str PendingEntry → Type 0
  AllReady d = Every (λ did e. IsReady e) d

  -- The same of the leaf in the record of a device.
  abbrev pub IsLeaved : DeviceRecord → Type 0
  IsLeaved rec =
      (pk leaf : Bytes) × (text : Str) × (rec.leaf ≡ some text)
      × (from_hex text ≡ some leaf)
      × (from_hex rec.public_key ≡ some pk)
      × (leaf_hash c rec.did pk ≡ ok leaf)

  abbrev pub AllLeaved : List DeviceRecord → Type 0
  AllLeaved recs = All IsLeaved recs

  -- Where the leaf of every queued entry is the hash of its DID and its key, add_leaf keeps it
  -- so.
  pub add_leaf-ready :
      (m m' : EpochManager) (did leaf : Str) (pk : Bytes) (now : ℕ)
      → IsBytes pk
      → AllReady m.pending
      → add_leaf c m did pk now ≡ ok (m', leaf)
      → AllReady m'.pending
  unfolding add_leaf
  add_leaf-ready m m' did leaf pk now b r h = elim (Result-cases (leaf_hash c did pk)) [
    | inr (x, raised) ↦ absurd (ground arith)
    | inl (hash, hashed) ↦
        let e : PendingEntry = record {
          did = did;
          public_key = to_hex pk;
          leaf = hash;
          queued_at = now;
        } in
        let after : m' ≡ record m { pending = insert did e m.pending } = ground arith in
        rw after
          (insert-Every (λ k f. IsReady f) did e m.pending (pk, from_hex-to_hex pk b, hashed) r)
  ]

  -- A device is carried forward with its leaf.
  pub IsLeaved-carries :
      (rec : DeviceRecord) (text : Str) (leaf : Bytes)
      → IsLeaved rec
      → rec.leaf ≡ some text
      → from_hex text ≡ some leaf
      → IsReady (carried_entry rec leaf)
  IsLeaved-carries rec text leaf (pk, leaf', text', has_leaf, is_leaf, is_key, hashed) has is =
      (pk, is_key, ground arith)

  -- The members of an epoch have the hashes of their DIDs and keys as leaves.
  pub collect-ready :
      (m : EpochManager) (devices : DeviceStore) (blocked : List Str)
      (members : Dict Str PendingEntry) (carried new : ℕ)
      → AllReady m.pending
      → AllLeaved (by_status devices registered)
      → collect c m devices blocked ≡ ok (members, carried, new)
      → AllReady members
  collect-ready m devices blocked members carried new ready leaved collected =
      collect-Every (λ did. IsReady) blocked c m devices members carried new
        (Every-mono (λ did. IsReady) (Admits (λ did. IsReady) blocked) (λ did e r kept. r) m.pending
          ready)
        (All-mono IsLeaved (Carries (λ did. IsReady) blocked)
          (λ rec l kept text leaf. IsLeaved-carries rec text leaf l) (by_status devices registered)
          leaved)
        collected

  pub AllHash-ready :
      Sound c
      → (d : Dict Str PendingEntry) → AllReady d
      → AllHash (map (λ (e : PendingEntry). e.leaf) (values d))
  AllHash-ready s [] a = tt
  AllHash-ready s ((did, e) ∷ d) ((pk, key, hashed), a) =
      let (is_hash, _) = leaf_hash-eq c e.did pk hashed in
      ((rw is_hash (s.sha256_length _), rw is_hash (s.sha256_bytes _)), AllHash-ready s d a)
