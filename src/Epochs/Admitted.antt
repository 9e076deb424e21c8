-- ===== src/Epochs/Admitted.antt =====
-- Who is a member of the next epoch.
use blockchain_io_t_a.Common.Crypto.{Crypto}
use blockchain_io_t_a.Common.Schemas.{DeviceRecord, registered}
use blockchain_io_t_a.Epochs.{EpochManager, PendingEntry, admit, carry, collect}
use blockchain_io_t_a.Epochs.Members.{carried_entry}
use blockchain_io_t_a.Epochs.Ready.{AllLeaved, IsLeaved}
use blockchain_io_t_a.Prelude.{
  All, Bool-cases, List, [], arith, inl, inr, map, mem, nat_eq, not, ok, refl, text_beq_iff,
  text_eq, ℕ, ◌&&◌, ◌+◌, ◌==◌, ◌||◌, ◌∷◌, ◌≡◌,
}
use blockchain_io_t_a.Prelude.Dict.{Dict, contains, insert, lookup-insert}
use blockchain_io_t_a.Prelude.Text.{Str}
use blockchain_io_t_a.Storage.{DeviceStore, by_status}

-- The DIDs of these records.
abbrev pub dids_of : List DeviceRecord → List Str
dids_of recs = map (λ (d : DeviceRecord). d.did) recs

contains-insert :
    {V : Type 0} (did k : Str) (v : V) (d : Dict Str V)
    → contains did (insert k v d) ≡ (did == k || contains did d)
contains-insert did k v d = ground (arith, lookup-insert k did v d)

admit-contains :
    (did : Str) (blocked : List Str) (batch members : Dict Str PendingEntry) (n : ℕ)
    → contains did (admit blocked batch (members, n)).0
      ≡ (contains did members || (contains did batch && not (mem did blocked)))
unfolding admit
admit-contains did blocked [] members n = ground arith
admit-contains did blocked ((k, e) ∷ batch) members n = ground (
  arith,
  admit-contains did blocked batch members n,
  admit-contains did blocked batch (insert k e members) (n + 1),
  contains-insert did k e members,
  text_beq_iff did k,
)

module _ (c : Crypto) where
  carry-total :
      (did : Str) (blocked : List Str) (batch : Dict Str PendingEntry) (recs : List DeviceRecord)
      (members : Dict Str PendingEntry) (n : ℕ)
      → All (IsLeaved c) recs
      → (members' : Dict Str PendingEntry) × (n' : ℕ) × (carry blocked batch recs (members, n)
          ≡ ok (members', n'))
        × (contains did members' ≡ (
            contains did members
            || (mem did (dids_of recs) && (not (mem did blocked) && not (contains did batch)))))
  unfolding carry
  carry-total did blocked batch [] members n l = (members, n, refl, ground arith)
  carry-total did blocked batch (rec ∷ recs) members n ((pk, leaf, text, has, is, key, hashed), l) =
      let e = carried_entry rec leaf in
      elim (Bool-cases (not (mem rec.did blocked) && not (contains rec.did batch))) [
        | inr skipped ↦
            let (members', n', ran, same) = carry-total did blocked batch recs members n l in
            (members', n', ground arith, ground (arith, text_beq_iff did rec.did))
        | inl carried ↦
            let (members', n', ran, same) =
              carry-total did blocked batch recs (insert rec.did e members) (n + 1) l in
            (
              members',
              n',
              ground arith,
              ground (arith, text_beq_iff did rec.did, contains-insert did rec.did e members),
            )
      ]

  -- Where each registered record has its leaf, the members of the next epoch can be collected, and
  -- they are of the DIDs that are queued, and of the registered ones if those are carried forward,
  -- without the blocked ones.
  pub collect-contains :
      (m : EpochManager) (devices : DeviceStore) (blocked : List Str) (did : Str)
      → AllLeaved c (by_status devices registered)
      → (members : Dict Str PendingEntry) × (carried new : ℕ) × (collect c m devices blocked
          ≡ ok (members, carried, new))
        × (contains did members ≡ (
            not (mem did blocked)
            && (contains did m.pending
                || (m.carry_forward && mem did (dids_of (by_status devices registered))))))
  unfolding collect
  collect-contains m devices blocked did l =
      let (old, n, ran, same) =
        carry-total did blocked m.pending (by_status devices registered) [] 0 l in
      elim (Bool-cases m.carry_forward) [
        | inl with_old ↦ (
          (admit blocked m.pending (old, 0)).0,
          n,
          (admit blocked m.pending (old, 0)).1,
          ground arith,
          ground (arith, admit-contains did blocked m.pending old 0),
        )
        | inr without ↦ (
          (admit blocked m.pending ([], 0)).0,
          0,
          (admit blocked m.pending ([], 0)).1,
          ground arith,
          ground (arith, admit-contains did blocked m.pending [] 0),
        )
      ]
