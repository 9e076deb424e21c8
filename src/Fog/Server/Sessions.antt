-- ===== src/Fog/Server/Sessions.antt =====
-- The sessions of a running fog: no two of them hold the same DID, and the device of a session is
-- recorded exactly once the session has proven possession.
use blockchain_io_t_a.Fog.Server.Keys.{SameKeys, key_of}
use blockchain_io_t_a.Prelude.{
  Bool, false, inl, inr, nat_eq, none, not, some, sym, text_eq, true, ◌==◌, ◌||◌, ◌∙◌, ◌≡◌, ◌≢◌,
}
use blockchain_io_t_a.Prelude.Dict.{Dict, erase, insert, lookup}
use blockchain_io_t_a.Prelude.Dict.Entries.{
  distinct_keys, erase-distinct_keys, insert-distinct_keys, lookup-erase, lookup-insert_cases,
}
use blockchain_io_t_a.Prelude.Text.{Str}
use blockchain_io_t_a.Storage.{
  DeviceStore, Session, authenticated, key_submitted, metadata_accepted, pop_verified, state_eq,
}

-- Past the first step, the session holds its DID.
abbrev pub is_active : Session → Bool
is_active s = not (state_eq s.state authenticated)

abbrev pub is_proven : Session → Bool
is_proven s = state_eq s.state pop_verified || state_eq s.state metadata_accepted

-- The device of this session is recorded, with the key that the session submitted.
abbrev pub Claims : DeviceStore → Session → Str → Type 0
Claims devices s did = (text : Str) × (s.public_key ≡ some text) × (key_of devices did ≡ some text)

pub record AreApart (sessions : Dict Str Session) (devices : DeviceStore) : Type 0 where
  pub once : distinct_keys sessions ≡ true
  pub ids : (k : Str) (s : Session) → lookup k sessions ≡ some s → s.session_id ≡ k
  pub apart :
      (k j : Str) (s t : Session) (did : Str)
      → lookup k sessions ≡ some s
      → lookup j sessions ≡ some t
      → is_active s ≡ true
      → is_active t ≡ true
      → s.did ≡ some did
      → t.did ≡ some did
      → k ≡ j
  pub unclaimed :
      (k : Str) (s : Session) (did : Str)
      → lookup k sessions ≡ some s
      → state_eq s.state key_submitted ≡ true
      → s.did ≡ some did
      → key_of devices did ≡ none
  pub claimed :
      (k : Str) (s : Session) (did : Str)
      → lookup k sessions ≡ some s
      → is_proven s ≡ true
      → s.did ≡ some did
      → Claims devices s did

pub SameKeys-AreApart :
    (sessions : Dict Str Session) (devices devices' : DeviceStore)
    → SameKeys devices devices'
    → AreApart sessions devices
    → AreApart sessions devices'
SameKeys-AreApart sessions devices devices' same w = record {
  once = w.once;
  ids = w.ids;
  apart = w.apart;
  unclaimed = λ k s did there step has. same did ∙ w.unclaimed k s did there step has;
  claimed = λ k s did there step has.
      let (text, key, of) = w.claimed k s did there step has in (text, key, same did ∙ of);
}

pub erase-AreApart :
    (sessions : Dict Str Session) (devices : DeviceStore) (id : Str)
    → AreApart sessions devices
    → AreApart (erase id sessions) devices
erase-AreApart sessions devices id w =
    let old = λ (k : Str) (s : Session) (there : lookup k (erase id sessions) ≡ some s).
      lookup-erase id k s sessions w.once there in
    record {
      once = erase-distinct_keys id sessions w.once;
      ids = λ k s there. w.ids k s (old k s there);
      apart = λ k j s t did at_k at_j. w.apart k j s t did (old k s at_k) (old j t at_j);
      unclaimed = λ k s did there. w.unclaimed k s did (old k s there);
      claimed = λ k s did there. w.claimed k s did (old k s there);
    }

-- What a session has to be in order to be stored among the others.
pub record Joins (sessions : Dict Str Session) (devices : DeviceStore) (id : Str) (s : Session)
    : Type 0 where
  pub own_id : s.session_id ≡ id
  pub alone :
      (j : Str) (t : Session) (did : Str)
      → (j == id) ≡ false
      → lookup j sessions ≡ some t
      → is_active t ≡ true
      → is_active s ≡ true
      → s.did ≡ some did
      → t.did ≢ some did
  pub not_yet :
      (did : Str)
      → state_eq s.state key_submitted ≡ true
      → s.did ≡ some did
      → key_of devices did ≡ none
  pub by_now : (did : Str) → is_proven s ≡ true → s.did ≡ some did → Claims devices s did

pub insert-AreApart :
    (sessions : Dict Str Session) (devices : DeviceStore) (id : Str) (s : Session)
    → AreApart sessions devices
    → Joins sessions devices id s
    → AreApart (insert id s sessions) devices
insert-AreApart sessions devices id s w n =
    let at = λ (k : Str) (t : Session) (there : lookup k (insert id s sessions) ≡ some t).
      lookup-insert_cases id k s t sessions there in
    record {
      once = insert-distinct_keys id s sessions w.once;
      ids = λ k t there. elim (at k t there) [
        | inl (is_id, is_s) ↦ rw (is_id, ← is_s) n.own_id
        | inr (other, old) ↦ w.ids k t old
      ];
      apart = λ k j t u did at_k at_j act_t act_u has_t has_u. elim (at k t at_k) [
        | inl (is_id, is_s) ↦ elim (at j u at_j) [
          | inl (is_id', is_s') ↦ is_id ∙ sym is_id'
          | inr (other, old) ↦
              absurd (n.alone j u did other old act_u (rw is_s act_t) (rw is_s has_t) has_u)
        ]
        | inr (other, old) ↦ elim (at j u at_j) [
          | inl (is_id', is_s') ↦
              absurd (n.alone k t did other old act_t (rw is_s' act_u) (rw is_s' has_u) has_t)
          | inr (other', old') ↦ w.apart k j t u did old old' act_t act_u has_t has_u
        ]
      ];
      unclaimed = λ k t did there step has. elim (at k t there) [
        | inl (is_id, is_s) ↦ n.not_yet did (rw is_s step) (rw is_s has)
        | inr (other, old) ↦ w.unclaimed k t did old step has
      ];
      claimed = λ k t did there step has. elim (at k t there) [
        | inl (is_id, is_s) ↦ rw (← is_s) (n.by_now did (rw is_s step) (rw is_s has))
        | inr (other, old) ↦ w.claimed k t did old step has
      ];
    }
