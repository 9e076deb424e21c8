-- ===== src/Fog/Server/Queueing.antt =====
-- /register/metadata keeps the context sound: what it queues is the hash of the recorded key.
use blockchain_io_t_a.Common.Canonical.{leaf_hash, leaf_hash-eq}
use blockchain_io_t_a.Common.Crypto.{Crypto, Sound}
use blockchain_io_t_a.Common.Schemas.{DeviceRecord, MetadataRequest}
use blockchain_io_t_a.Epochs.{EpochManager, PendingEntry, add_leaf}
use blockchain_io_t_a.Fog.Context.{FogContext}
use blockchain_io_t_a.Fog.Registration.{
  register_metadata, require_state, session_or_404, with_metadata,
}
use blockchain_io_t_a.Fog.Server.Keys.{insert-IsStore, insert-SameKeys, key_of}
use blockchain_io_t_a.Fog.Server.Proving.{same-Joins}
use blockchain_io_t_a.Fog.Server.Registering.{get_session-some, got_session}
use blockchain_io_t_a.Fog.Server.Sessions.{SameKeys-AreApart, insert-AreApart}
use blockchain_io_t_a.Fog.Server.Sound.{
  IsKeeping, IsQueued, IsSound, KeepsKeys-IsKeeping, put-IsSound,
}
use blockchain_io_t_a.Fog.Validation.{validate_metadata}
use blockchain_io_t_a.Prelude.{
  Bool-cases, List-cases, Option-cases, Result-cases, arith, inl, inr, nat_eq, ok, refl, some, sym,
  text_eq, true, ℕ, ◌∙◌, ◌≡◌,
}
use blockchain_io_t_a.Prelude.Dict.{insert, lookup}
use blockchain_io_t_a.Prelude.Dict.Entries.{insert-Every}
use blockchain_io_t_a.Prelude.Text.{
  Bytes, IsBytes, Str, from_hex, from_hex-IsBytes, from_hex-to_hex, to_hex,
}
use blockchain_io_t_a.Storage.{Session, get_session, metadata_accepted, pop_verified, state_eq}

-- What add_leaf queues.
add_leaf-ok :
    (c : Crypto) (m m' : EpochManager) (did leaf_hex : Str) (pk : Bytes) (now : ℕ)
    → add_leaf c m did pk now ≡ ok (m', leaf_hex)
    → (leaf : Bytes) × (leaf_hash c did pk ≡ ok leaf)
      × (leaf_hex ≡ to_hex leaf)
      × (m' ≡ record m {
        pending =
            insert did
              (record { did = did; public_key = to_hex pk; leaf = leaf; queued_at = now })
              m.pending;
      })
unfolding add_leaf
add_leaf-ok c m m' did leaf_hex pk now h = elim (Result-cases (leaf_hash c did pk)) [
  | inr (x, raised) ↦ absurd (ground arith)
  | inl (leaf, hashed) ↦ (leaf, hashed, ground arith, ground arith)
]

module _ (c : Crypto) (ctx : FogContext) (body : MetadataRequest) (now now' : ℕ) where
  -- What is left after the request.
  pub data MetadataLeaves (after : FogContext) : Type 0 where
    meta_untouched :
        after ≡ record ctx { sessions = (get_session ctx.sessions body.session_id now).1 }
        → MetadataLeaves after
    meta_described :
        (did : Str) (rec : DeviceRecord)
        → lookup did ctx.devices ≡ some rec
        → after ≡ record ctx { devices = insert did (with_metadata rec body) ctx.devices }
        → MetadataLeaves after
    meta_queued :
        (s : Session) (did text leaf_hex : Str) (pk : Bytes) (rec : DeviceRecord)
        (epochs : EpochManager)
        → (get_session ctx.sessions body.session_id now).0 ≡ some s
        → state_eq s.state pop_verified ≡ true
        → s.did ≡ some did
        → s.public_key ≡ some text
        → from_hex text ≡ some pk
        → lookup did ctx.devices ≡ some rec
        → add_leaf c ctx.epochs did pk now' ≡ ok (epochs, leaf_hex)
        → after ≡ record ctx {
          epochs = epochs;
          devices =
              insert did (record (with_metadata rec body) { leaf = some leaf_hex }) ctx.devices;
          sessions = record ctx.sessions {
            sessions =
                insert body.session_id
                  (record s { state = metadata_accepted })
                  ctx.sessions.sessions;
          };
        }
        → MetadataLeaves after

  pub register_metadata-MetadataLeaves : MetadataLeaves (register_metadata c body now now' ctx).1
  unfolding register_metadata session_or_404 require_state
  register_metadata-MetadataLeaves =
      elim (Option-cases (get_session ctx.sessions body.session_id now).0) [
        | inl missing ↦ meta_untouched (ground arith)
        | inr (s, got) ↦
            let (there, kept) = get_session-some ctx.sessions body.session_id now s got in
            elim (Bool-cases (state_eq s.state pop_verified)) [
              | inr wrong ↦ meta_untouched (ground arith)
              | inl step ↦ elim (List-cases (validate_metadata body ctx.zone ctx.allowed_types)) [
                | inr (e, es, refused) ↦ meta_untouched (ground arith)
                | inl valid ↦ elim (Option-cases s.did) [
                  | inl no_did ↦ meta_untouched (ground arith)
                  | inr (did, has) ↦ elim (Option-cases (lookup did ctx.devices)) [
                    | inl unknown ↦ meta_untouched (ground arith)
                    | inr (rec, known) ↦ elim (Option-cases s.public_key) [
                      | inl no_key ↦ meta_described did rec known (ground arith)
                      | inr (text, key) ↦ elim (Option-cases (from_hex text)) [
                        | inl bad ↦ meta_described did rec known (ground arith)
                        | inr (pk, is_pk) ↦
                            elim (Result-cases (add_leaf c ctx.epochs did pk now')) [
                              | inr (x, raised) ↦ meta_described did rec known (ground arith)
                              | inl ((epochs, leaf_hex), added) ↦
                                  meta_queued s did text leaf_hex pk rec epochs got step has key
                                    is_pk known added (ground arith)
                            ]
                      ]
                    ]
                  ]
                ]
              ]
            ]
      ]

module _ (c : Crypto) (sound : Sound c) (ctx : FogContext) (body : MetadataRequest) (now now' : ℕ)
    (w : IsSound c ctx) where
  queued-IsSound :
      (s : Session) (did text leaf_hex : Str) (pk : Bytes) (rec : DeviceRecord)
      (epochs : EpochManager)
      → lookup body.session_id ctx.sessions.sessions ≡ some s
      → state_eq s.state pop_verified ≡ true
      → s.did ≡ some did
      → s.public_key ≡ some text
      → from_hex text ≡ some pk
      → lookup did ctx.devices ≡ some rec
      → add_leaf c ctx.epochs did pk now' ≡ ok (epochs, leaf_hex)
      → IsSound c (record ctx {
        epochs = epochs;
        devices = insert did (record (with_metadata rec body) { leaf = some leaf_hex }) ctx.devices;
        sessions = record ctx.sessions {
          sessions =
              insert body.session_id (record s { state = metadata_accepted }) ctx.sessions.sessions;
        };
      })
  queued-IsSound s did text leaf_hex pk rec epochs there step has key is_pk known added =
      let rec' : DeviceRecord = record (with_metadata rec body) { leaf = some leaf_hex } in
      let t : Session = record s { state = metadata_accepted } in
      let devices' = insert did rec' ctx.devices in
      let (leaf, hashed, is_hex, is_epochs) =
        add_leaf-ok c ctx.epochs epochs did leaf_hex pk now' added in
      let (is_hash, _) = leaf_hash-eq c did pk hashed in
      let leaf_bytes : IsBytes leaf = rw is_hash (sound.sha256_bytes _) in
      let (same, leaved) = w.store.records did rec known in
      let (text', key', recorded) =
        w.sessions.claimed body.session_id s did there (ground arith) has in
      let own_key : rec.public_key ≡ text = ground arith in
      let keys = insert-SameKeys ctx.devices did rec rec' known refl in
      let apart = insert-AreApart ctx.sessions.sessions ctx.devices body.session_id t w.sessions (
        same-Joins ctx.sessions.sessions ctx.devices body.session_id s t w.sessions there refl refl
          refl (ground arith) (ground arith)) in
      let e : PendingEntry = record {
        did = did;
        public_key = to_hex pk;
        leaf = leaf;
        queued_at = now';
      } in
      let kept =
        KeepsKeys-IsKeeping c ctx.signing_key ctx.devices devices' ctx.epochs ctx.ledger
          (λ k other has_k. keys k ∙ has_k) w.keeping in
      let is_back = from_hex-to_hex pk (from_hex-IsBytes text is_pk) in
      let recorded' : key_of ctx.devices did ≡ some text = ground arith in
      let keeping : IsKeeping c ctx.signing_key devices'
          (record ctx.epochs { pending = insert did e ctx.epochs.pending }) ctx.ledger =
        record {
          own_key = kept.own_key;
          queued =
              insert-Every (IsQueued c devices') did e ctx.epochs.pending
                (refl, (pk, is_back, hashed), text, keys did ∙ recorded', is_pk ∙ sym is_back)
                kept.queued;
          numbered = kept.numbered;
          issued = kept.issued;
          latest = kept.latest;
        } in
      record {
        store = insert-IsStore c ctx.devices did rec' w.store (
          same,
          λ r. (
            pk,
            leaf,
            leaf_hex,
            refl,
            rw is_hex (from_hex-to_hex leaf leaf_bytes),
            rw own_key is_pk,
            rw same hashed,
          ),
        );
        sessions =
            SameKeys-AreApart (insert body.session_id t ctx.sessions.sessions) ctx.devices devices'
              keys apart;
        keeping = rw is_epochs keeping;
      }

  described-IsSound :
      (did : Str) (rec : DeviceRecord)
      → lookup did ctx.devices ≡ some rec
      → IsSound c (record ctx { devices = insert did (with_metadata rec body) ctx.devices })
  described-IsSound did rec known =
      put-IsSound c ctx ctx.sessions (insert did (with_metadata rec body) ctx.devices)
        ctx.token_state w (insert-SameKeys ctx.devices did rec (with_metadata rec body) known refl)
        (insert-IsStore c ctx.devices did (with_metadata rec body) w.store
          (w.store.records did rec known))
        w.sessions

  pub register_metadata-IsSound : IsSound c (register_metadata c body now now' ctx).1
  register_metadata-IsSound = elim (register_metadata-MetadataLeaves c ctx body now now') [
    | meta_untouched after ↦ rw after (got_session c ctx w body.session_id now)
    | meta_described did rec known after ↦ rw after (described-IsSound did rec known)
    | meta_queued s did text leaf_hex pk rec epochs got step has key is_pk known added after ↦
        let (there, kept) = get_session-some ctx.sessions body.session_id now s got in
        rw after
          (queued-IsSound s did text leaf_hex pk rec epochs there step has key is_pk known added)
  ]
