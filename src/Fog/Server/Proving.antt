-- ===== src/Fog/Server/Proving.antt =====
-- The proof of possession records the device of the session, and of no other.
use blockchain_io_t_a.Common.Schemas.{DeviceRecord}
use blockchain_io_t_a.Epochs.Batch.{free}
use blockchain_io_t_a.Fog.Server.Sessions.{AreApart, Joins, insert-AreApart, is_active, is_proven}
use blockchain_io_t_a.Prelude.{
  Bool-cases, ap, arith, false, inl, inr, nat_eq, refl, some, sym, text_beq_iff, text_beq_refl,
  text_eq, true, ◌==◌, ◌∙◌, ◌≡◌, ◌≢◌,
}
use blockchain_io_t_a.Prelude.Dict.{Dict, insert, insert-insert, lookup, lookup-insert}
use blockchain_io_t_a.Prelude.Dict.Entries.{lookup-insert_cases}
use blockchain_io_t_a.Prelude.Text.{Str}
use blockchain_io_t_a.Storage.{
  DeviceStore, Session, authenticated, key_submitted, pop_verified, state_eq,
}

-- A session that is stored in the place of one with the same DID, key and state.
pub same-Joins :
    (sessions : Dict Str Session) (devices : DeviceStore) (id : Str) (s t : Session)
    → AreApart sessions devices
    → lookup id sessions ≡ some s
    → t.session_id ≡ s.session_id
    → t.did ≡ s.did
    → t.public_key ≡ s.public_key
    → is_active t ≡ is_active s
    → is_proven t ≡ is_proven s
    → Joins sessions devices id t
same-Joins sessions devices id s t w there own did key act proven = record {
  own_id = own ∙ w.ids id s there;
  alone = λ j u d other at_j act_u act_t has has_u.
      let same : id ≡ j =
        w.apart id j s u d there at_j (sym act ∙ act_t) act_u (sym did ∙ has) has_u in
      absurd (ground (arith, text_beq_refl id));
  not_yet = λ d step has. w.unclaimed id s d there (ground arith) (sym did ∙ has);
  by_now = λ d is has.
      let (text, has_key, of) = w.claimed id s d there (sym proven ∙ is) (sym did ∙ has) in
      (text, key ∙ has_key, of);
}

-- A session that holds no DID.
pub inactive-Joins :
    (sessions : Dict Str Session) (devices : DeviceStore) (id : Str) (t : Session)
    → t.session_id ≡ id
    → is_active t ≡ false
    → Joins sessions devices id t
inactive-Joins sessions devices id t own idle = record {
  own_id = own;
  alone = λ j u d other at_j act_u act_t has. absurd (ground arith);
  not_yet = λ d step has. absurd (ground arith);
  by_now = λ d is has. absurd (ground arith);
}

-- A new record of a DID that no active session holds.
record-AreApart :
    (sessions : Dict Str Session) (devices : DeviceStore) (rec : DeviceRecord)
    → AreApart sessions devices
    → ((k : Str) (s : Session)
        → lookup k sessions ≡ some s
        → is_active s ≡ true
        → s.did ≢ some rec.did)
    → AreApart sessions (insert rec.did rec devices)
record-AreApart sessions devices rec w free = record {
  once = w.once;
  ids = w.ids;
  apart = w.apart;
  unclaimed = λ k s did there step has. elim (Bool-cases (did == rec.did)) [
    | inl same ↦
        let is_did : did ≡ rec.did = (text_beq_iff did rec.did).0 same in
        absurd (free k s there (ground arith) (has ∙ ap some is_did))
    | inr other ↦
        ground (arith, w.unclaimed k s did there step has, lookup-insert rec.did did rec devices)
  ];
  claimed = λ k s did there step has. elim (Bool-cases (did == rec.did)) [
    | inl same ↦
        let is_did : did ≡ rec.did = (text_beq_iff did rec.did).0 same in
        absurd (free k s there (ground arith) (has ∙ ap some is_did))
    | inr other ↦
        let (text, key, of) = w.claimed k s did there step has in
        (text, key, ground (arith, lookup-insert rec.did did rec devices))
  ];
}

-- The session that held an unrecorded DID has proven possession: its device is recorded.
pub proven-AreApart :
    (sessions : Dict Str Session) (devices : DeviceStore) (id : Str) (s t : Session)
    (rec : DeviceRecord)
    → AreApart sessions devices
    → lookup id sessions ≡ some s
    → state_eq s.state key_submitted ≡ true
    → s.did ≡ some rec.did
    → t.session_id ≡ id
    → state_eq t.state pop_verified ≡ true
    → t.did ≡ some rec.did
    → t.public_key ≡ some rec.public_key
    → AreApart (insert id t sessions) (insert rec.did rec devices)
proven-AreApart sessions devices id s t rec w there step has own proven has_t key =
    let idle : Session = record t { state = authenticated } in
    let before = insert id idle sessions in
    let w' =
      insert-AreApart sessions devices id idle w
        (inactive-Joins sessions devices id idle own refl) in
    let free : (k : Str) (u : Session)
        → lookup k before ≡ some u
        → is_active u ≡ true
        → u.did ≢ some rec.did =
      λ k u at_k act has_u. elim (lookup-insert_cases id k idle u sessions at_k) [
        | inl (is_id, is_idle) ↦ absurd (ground arith)
        | inr (other, old) ↦
            let same : k ≡ id = w.apart k id u s rec.did old there act (ground arith) has_u has in
            absurd (ground (arith, text_beq_refl id))
      ] in
    let recorded = record-AreApart before devices rec w' free in
    rw (← insert-insert id idle t sessions) (
      insert-AreApart before (insert rec.did rec devices) id t recorded (record {
        own_id = own;
        alone = λ j u did other at_j act_u act_t has' has_u.
            free j u at_j act_u (has_u ∙ sym has' ∙ has_t);
        not_yet = λ did step' has'. absurd (ground arith);
        by_now = λ did is has'. (
          rec.public_key,
          key,
          ground (arith, lookup-insert rec.did did rec devices, text_beq_refl did),
        );
      }))
