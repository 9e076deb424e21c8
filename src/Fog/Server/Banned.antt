-- ===== src/Fog/Server/Banned.antt =====
-- A revocation is for good.
use blockchain_io_t_a.Common.Crypto.{Crypto, Sound}
use blockchain_io_t_a.Common.Schemas.{
  DeviceRecord, DeviceStatus, MetadataRequest, PopRequest, ProofPackage, PublicKeyRequest,
  registered, revoked, status_eq, tokenized,
}
use blockchain_io_t_a.Epochs.{PendingEntry, finalize_epoch, mark_all, mark_registered}
use blockchain_io_t_a.Epochs.Batch.{Every-keyed, keyed}
use blockchain_io_t_a.Epochs.Close.{finalize_epoch-IsClosed}
use blockchain_io_t_a.Epochs.Live.{finalize_epoch-atomic}
use blockchain_io_t_a.Epochs.Outcome.{finalize_epoch-excludes, revoked_device}
use blockchain_io_t_a.Fog.Context.{FogContext, done}
use blockchain_io_t_a.Fog.EpochRoutes.{epoch_state, put_epoch_state}
use blockchain_io_t_a.Fog.Registration.{
  register_start, pending_record, register_metadata, register_pop, register_pubkey, require_state,
  session_or_404, with_metadata,
}
use blockchain_io_t_a.Fog.Revocation.{RevokeRequest, RevokeResponse, is_device_revoked, revoke}
use blockchain_io_t_a.Fog.Revocation.Denied.{IsDenied, revoked-IsDenied}
use blockchain_io_t_a.Fog.Revocation.Immediate.{revoke-marks}
use blockchain_io_t_a.Fog.Server.{
  Request, ask_token_nonce, ask_verify_nonce, post_access, post_close, post_issue, post_metadata,
  post_pop, post_pubkey, post_revoke, post_start, post_verify, serve, serve_all, timer,
}
use blockchain_io_t_a.Fog.Server.Accessing.{
  revoke-IsSound, revoke-devices, tokens_access-SameCore, tokens_issue-devices,
  tokens_nonce-SameCore, verify_and_authorize-SameCore, verify_nonce-SameCore,
}
use blockchain_io_t_a.Fog.Server.Kept.{
  all_queued-ready, all_registered-leaved, auto_close-after, epoch_close-after, serve-IsSound,
}
use blockchain_io_t_a.Fog.Server.Possessing.{
  pop_granted, pop_spent, pop_turned_down, pop_untouched, register_pop-PopLeaves,
}
use blockchain_io_t_a.Fog.Server.Queueing.{
  meta_described, meta_queued, meta_untouched, register_metadata-MetadataLeaves,
}
use blockchain_io_t_a.Fog.Server.Registering.{get_session-some}
use blockchain_io_t_a.Fog.Server.Sound.{IsQueued, IsSound}
use blockchain_io_t_a.Fog.TokenRoutes.{tokens_issue}
use blockchain_io_t_a.Fog.Verification.{Parser}
use blockchain_io_t_a.Prelude.{
  Bool-cases, List, Option, Option-cases, [], ap, arith, false, inl, inr, nat_eq, refl, some, subst,
  sym, text_beq_iff, text_eq, true, ℕ, ◌==◌, ◌∙◌, ◌∷◌, ◌≡◌,
}
use blockchain_io_t_a.Prelude.Dict.{Dict, contains, insert, lookup, lookup-insert}
use blockchain_io_t_a.Prelude.Dict.Entries.{Every, Every-mono}
use blockchain_io_t_a.Prelude.Text.{Bytes, Str}
use blockchain_io_t_a.Storage.{DeviceStore, set_status}
use blockchain_io_t_a.Tokens.Nonces.{is_revoked}

insert-revoked :
    (devices : DeviceStore) (k did : Str) (rec : DeviceRecord)
    → is_device_revoked devices k ≡ true
    → ((k == did) ≡ true → status_eq rec.status revoked ≡ true)
    → is_device_revoked (insert did rec devices) k ≡ true
unfolding is_device_revoked
insert-revoked devices k did rec h f = elim (Bool-cases (k == did)) [
  | inl same ↦ ground (arith, lookup-insert did k rec devices, f same)
  | inr other ↦ ground (arith, lookup-insert did k rec devices)
]

-- The record behind a revocation.
revoked_record :
    (devices : DeviceStore) (k : Str)
    → is_device_revoked devices k ≡ true
    → (rec : DeviceRecord) × (lookup k devices ≡ some rec) × (status_eq rec.status revoked ≡ true)
unfolding is_device_revoked
revoked_record devices k h = elim (Option-cases (lookup k devices)) [
  | inl missing ↦ absurd (ground arith)
  | inr (rec, there) ↦ (rec, there, ground arith)
]

-- The status of a known device is replaced by one of the same standing.
update-revoked :
    (devices : DeviceStore) (k did : Str) (rec rec' : DeviceRecord)
    → lookup did devices ≡ some rec
    → rec'.status ≡ rec.status
    → is_device_revoked devices k ≡ true
    → is_device_revoked (insert did rec' devices) k ≡ true
update-revoked devices k did rec rec' there same h = insert-revoked devices k did rec' h λ is_did.
    let (old, at_k, is_revoked) = revoked_record devices k h in
    let is_k : k ≡ did = (text_beq_iff k did).0 is_did in
    let is_rec : old ≡ rec = ground arith in rw (same, ← is_rec) is_revoked

set_status-revoked :
    (devices : DeviceStore) (k did : Str) (status : DeviceStatus)
    → is_device_revoked devices k ≡ true
    → ((k == did) ≡ true → status_eq status revoked ≡ true)
    → is_device_revoked (set_status devices did status) k ≡ true
unfolding set_status
set_status-revoked devices k did status h f = elim (Option-cases (lookup did devices)) [
  | inl missing ↦ let same : set_status devices did status ≡ devices = ground arith in rw same h
  | inr (rec, there) ↦
      let after : set_status devices did status
          ≡ insert did (record rec { status = status }) devices =
        ground arith in
      rw after (insert-revoked devices k did (record rec { status = status }) h f)
]

mark_all-revoked :
    (epoch_id : ℕ) (packages : Dict Str ProofPackage) (devices : DeviceStore) (k : Str)
    → contains k packages ≡ false
    → is_device_revoked devices k ≡ true
    → is_device_revoked (mark_all epoch_id packages devices) k ≡ true
unfolding mark_all mark_registered
mark_all-revoked epoch_id [] devices k out h = h
mark_all-revoked epoch_id ((did, pkg) ∷ packages) devices k out h =
    mark_all-revoked epoch_id packages (mark_registered epoch_id (did, pkg) devices) k
      (ground arith)
      (elim (Option-cases (lookup did devices)) [
        | inl missing ↦ ground arith
        | inr (rec, there) ↦
            let rec' : DeviceRecord = record rec {
              status = registered;
              leaf = some pkg.leaf;
              epoch_id = some epoch_id;
            } in
            let after : mark_registered epoch_id (did, pkg) devices ≡ insert did rec' devices =
              ground arith in
            rw after (insert-revoked devices k did rec' h (λ is_did. absurd (ground arith)))
      ])

queued-keyed :
    (c : Crypto) (devices : DeviceStore) (d : Dict Str PendingEntry)
    → Every (IsQueued c devices) d
    → keyed d ≡ true
queued-keyed c devices d h =
    Every-keyed d (Every-mono (IsQueued c devices) (λ did e. e.did ≡ did) (λ did e q. sym q.0) d h)

module _ (c : Crypto) (sound : Sound c) (ctx : FogContext) (w : IsSound c ctx) (k : Str)
    (h : is_device_revoked ctx.devices k ≡ true) where
  register_pop-revoked :
      (body : PopRequest) (now now' now'' : ℕ)
      → is_device_revoked (register_pop c body now now' now'' ctx).1.devices k ≡ true
  register_pop-revoked body now now' now'' =
      elim (register_pop-PopLeaves c ctx body now now' now'') [
        | pop_untouched after ↦ rw after h
        | pop_spent s got step after ↦ rw after h
        | pop_turned_down s got step after ↦ rw after h
        | pop_granted s did text got step has key after ↦
            let (there, kept) = get_session-some ctx.sessions body.session_id now s got in
            let unknown = w.sessions.unclaimed body.session_id s did there step has in
            let (old, at_k, is_revoked) = revoked_record ctx.devices k h in
            rw after (
              insert-revoked ctx.devices k did (pending_record did text) h λ is_did.
                let is_k : k ≡ did = (text_beq_iff k did).0 is_did in absurd (ground arith))
      ]

  register_metadata-revoked :
      (body : MetadataRequest) (now now' : ℕ)
      → is_device_revoked (register_metadata c body now now' ctx).1.devices k ≡ true
  register_metadata-revoked body now now' =
      elim (register_metadata-MetadataLeaves c ctx body now now') [
        | meta_untouched after ↦ rw after h
        | meta_described did rec known after ↦
            rw after (update-revoked ctx.devices k did rec (with_metadata rec body) known refl h)
        | meta_queued s did text leaf_hex pk rec epochs got step has key is_pk known added after ↦
            rw after (update-revoked ctx.devices k did rec _ known refl h)
      ]

  tokens_issue-revoked :
      (session_id fresh : Str) (now now' : ℕ)
      → is_device_revoked (tokens_issue c session_id fresh now now' ctx).1.devices k ≡ true
  tokens_issue-revoked session_id fresh now now' =
      elim (tokens_issue-devices c ctx session_id fresh now now') [
        | inl same ↦ rw same h
        | inr (did, rec, there, live, after) ↦ rw after (
            set_status-revoked ctx.devices k rec.did tokenized h λ is_did.
              let (own_did, _) = w.store.records did rec there in
              let is_k : k ≡ did = (text_beq_iff k rec.did).0 is_did ∙ own_did in
              let (old, at_k, is_revoked) = revoked_record ctx.devices k h in absurd (ground arith))
      ]

  finalize_epoch-revoked :
      (exclude_dids : List Str) (timestamp : Str)
      → is_device_revoked
          (put_epoch_state
            (finalize_epoch c (epoch_state ctx) exclude_dids timestamp).1
            ctx).1.devices
          k
        ≡ true
  finalize_epoch-revoked exclude_dids timestamp =
      let st = epoch_state ctx in
      elim (finalize_epoch-atomic c sound st exclude_dids timestamp
        (all_queued-ready c ctx.devices ctx.epochs.pending w.keeping.queued)
        (all_registered-leaved c ctx.devices w.store)) [
          | inl (x, raised) ↦ rw raised h
          | inr (result, st', closed) ↦
              let (rec, there, is_revoked) = revoked_record ctx.devices k h in
              let (own_did, _) = w.store.records k rec there in
              let (absent, _, _) =
                finalize_epoch-excludes c st st' exclude_dids timestamp result closed
                  (queued-keyed c ctx.devices ctx.epochs.pending w.keeping.queued) k
                  (revoked_device k rec there is_revoked own_did) in
              let (tree, members, carried, new, ledger, v) =
                finalize_epoch-IsClosed c st st' exclude_dids timestamp result closed in
              let after : st'.devices ≡ mark_all result.epoch_id result.packages ctx.devices =
                rw v.after refl in
              rw (closed, after)
                (mark_all-revoked result.epoch_id result.packages ctx.devices k absent h)
        ]

  revoke-revoked :
      (body : RevokeRequest) (x_admin_key : Option Str)
      → is_device_revoked (revoke body x_admin_key ctx).1.devices k ≡ true
  revoke-revoked body x_admin_key = elim (revoke-devices c ctx body x_admin_key) [
    | inl same ↦ rw same h
    | inr after ↦ rw after (set_status-revoked ctx.devices k body.did revoked h (λ is_did. refl))
  ]

  register_start-revoked :
      (authorization : Option Str) (fresh : Str) (now : ℕ)
      → (register_start c authorization fresh now ctx).1.devices ≡ ctx.devices
  unfolding register_start
  register_start-revoked authorization fresh now = ground arith

  register_pubkey-revoked :
      (body : PublicKeyRequest) (random : Bytes) (now now' : ℕ)
      → (register_pubkey c body random now now' ctx).1.devices ≡ ctx.devices
  unfolding register_pubkey session_or_404 require_state
  register_pubkey-revoked body random now now' = ground arith

  serve-revoked :
      (p : Parser) (float_of : Str → Option ℕ) (r : Request)
      → is_device_revoked (serve c p float_of r ctx).devices k ≡ true
  unfolding serve
  serve-revoked p float_of (post_start authorization fresh now) =
      rw (register_start-revoked authorization fresh now) h
  serve-revoked p float_of (post_pubkey body random now now') =
      rw (register_pubkey-revoked body random now now') h
  serve-revoked p float_of (post_pop body now now' now'') = register_pop-revoked body now now' now''
  serve-revoked p float_of (post_metadata body now now') = register_metadata-revoked body now now'
  serve-revoked p float_of (ask_token_nonce token_id fresh now) =
      rw (tokens_nonce-SameCore ctx token_id fresh now).same_devices h
  serve-revoked p float_of (post_issue session_id fresh now now') =
      tokens_issue-revoked session_id fresh now now'
  serve-revoked p float_of (post_access body now now') =
      rw (tokens_access-SameCore ctx c float_of body now now').same_devices h
  serve-revoked p float_of (ask_verify_nonce did fresh now) =
      rw (verify_nonce-SameCore ctx did fresh now).same_devices h
  serve-revoked p float_of (post_verify body now) =
      rw (verify_and_authorize-SameCore ctx c p body now).same_devices h
  serve-revoked p float_of (post_revoke body x_admin_key) = revoke-revoked body x_admin_key
  serve-revoked p float_of (post_close exclude_dids x_admin_key timestamp) =
      elim (epoch_close-after c sound ctx w exclude_dids x_admin_key timestamp) [
        | inl same ↦ rw same h
        | inr after ↦ rw after (finalize_epoch-revoked exclude_dids timestamp)
      ]
  serve-revoked p float_of (timer timestamp) = elim (auto_close-after c sound ctx w timestamp) [
    | inl same ↦ rw same h
    | inr after ↦ rw after (finalize_epoch-revoked [] timestamp)
  ]

pub serve_all-revoked :
    (c : Crypto) (sound : Sound c) (p : Parser) (float_of : Str → Option ℕ) (rs : List Request)
    (ctx : FogContext) (k : Str)
    → IsSound c ctx
    → is_device_revoked ctx.devices k ≡ true
    → is_device_revoked (serve_all c p float_of rs ctx).devices k ≡ true
unfolding serve_all
serve_all-revoked c sound p float_of [] ctx k w h = h
serve_all-revoked c sound p float_of (r ∷ rs) ctx k w h =
    serve_all-revoked c sound p float_of rs (serve c p float_of r ctx) k
      (serve-IsSound c sound p float_of r ctx w) (serve-revoked c sound ctx w k h p float_of r)

module _ (c : Crypto) (sound : Sound c) (p : Parser) (float_of : Str → Option ℕ)
    (ctx revoked_ctx : FogContext) (revocation : RevokeRequest) (x_admin_key : Option Str)
    (response : RevokeResponse) (rs : List Request) where
  -- Once a device is revoked (token_only is false), the fog never again allows a token or a proof
  -- package of its DID anything, whatever requests it serves after the revocation: no registration,
  -- token or epoch brings the device back.
  pub revoke-forever :
      IsSound c ctx
      → revoke revocation x_admin_key ctx ≡ (done response, revoked_ctx)
      → revocation.token_only ≡ false
      → IsDenied c (serve_all c p float_of rs revoked_ctx) revocation.did
  revoke-forever w h whole =
      let (_, marked, _, _, _) =
        revoke-marks c ctx revoked_ctx revocation x_admin_key response h whole in
      let is_ctx : (revoke revocation x_admin_key ctx).1 ≡ revoked_ctx = ap (λ r. r.1) h in
      let w' : IsSound c revoked_ctx =
        subst (IsSound c) is_ctx (revoke-IsSound c ctx revocation x_admin_key w) in
      revoked-IsDenied c (serve_all c p float_of rs revoked_ctx) revocation.did
        (serve_all-revoked c sound p float_of rs revoked_ctx revocation.did w' marked)
