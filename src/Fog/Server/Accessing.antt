-- ===== src/Fog/Server/Accessing.antt =====
-- Tokens, nonces, verification and revocation keep the context sound.
use blockchain_io_t_a.Common.Crypto.{Crypto}
use blockchain_io_t_a.Common.Schemas.{
  DeviceRecord, DeviceStatus, registered, revoked, status_eq, tokenized,
}
use blockchain_io_t_a.Fog.Context.{FogContext, done, is_done}
use blockchain_io_t_a.Fog.Revocation.{RevokeRequest, revoke, revoke_device}
use blockchain_io_t_a.Fog.Server.Keys.{IsStore, SameKeys, insert-IsStore, insert-SameKeys}
use blockchain_io_t_a.Fog.Server.Registering.{Outcome-cases, get_session-AreApart}
use blockchain_io_t_a.Fog.Server.Sessions.{AreApart, SameKeys-AreApart}
use blockchain_io_t_a.Fog.Server.Sound.{IsSound, KeepsKeys-IsKeeping}
use blockchain_io_t_a.Fog.TokenRoutes.{
  TokenAccessRequest, access_with_nonce, tokens_access, tokens_issue, tokens_nonce,
}
use blockchain_io_t_a.Fog.Verification.{Parser, VerifyRequest, verify_and_authorize, verify_nonce}
use blockchain_io_t_a.Prelude.{
  Bool-cases, Option, Option-cases, arith, false, inl, inr, nat_eq, not, refl, some, text_eq, ℕ,
  ◌&&◌, ◌∙◌, ◌≡◌, ◌⊎◌,
}
use blockchain_io_t_a.Prelude.Dict.{insert, lookup}
use blockchain_io_t_a.Prelude.Json.{Object}
use blockchain_io_t_a.Prelude.Text.{Str}
use blockchain_io_t_a.Storage.{DeviceStore, Session, exists, get_session, set_status, text_is}

-- What a request on tokens and nonces leaves alone.
pub record SameCore (ctx ctx' : FogContext) : Type 0 where
  pub same_sessions : ctx'.sessions ≡ ctx.sessions
  pub same_devices : ctx'.devices ≡ ctx.devices
  pub same_epochs : ctx'.epochs ≡ ctx.epochs
  pub same_ledger : ctx'.ledger ≡ ctx.ledger
  pub same_key : ctx'.signing_key ≡ ctx.signing_key

pub SameCore-IsSound :
    (c : Crypto) (ctx ctx' : FogContext) → SameCore ctx ctx' → IsSound c ctx → IsSound c ctx'
SameCore-IsSound c ctx ctx' e w = record {
  store = rw e.same_devices w.store;
  sessions = rw (e.same_sessions, e.same_devices) w.sessions;
  keeping = rw (e.same_key, e.same_devices, e.same_epochs, e.same_ledger) w.keeping;
}

module _ (ctx : FogContext) where
  pub tokens_nonce-SameCore :
      (token_id fresh : Str) (now : ℕ) → SameCore ctx (tokens_nonce token_id fresh now ctx).1
  unfolding tokens_nonce
  tokens_nonce-SameCore token_id fresh now = record {
    same_sessions = ground arith;
    same_devices = ground arith;
    same_epochs = ground arith;
    same_ledger = ground arith;
    same_key = ground arith;
  }

  pub verify_nonce-SameCore :
      (did fresh : Str) (now : ℕ) → SameCore ctx (verify_nonce did fresh now ctx).1
  unfolding verify_nonce
  verify_nonce-SameCore did fresh now = record {
    same_sessions = ground arith;
    same_devices = ground arith;
    same_epochs = ground arith;
    same_ledger = ground arith;
    same_key = ground arith;
  }

  pub tokens_access-SameCore :
      (c : Crypto) (float_of : Str → Option ℕ) (body : TokenAccessRequest) (now now' : ℕ)
      → SameCore ctx (tokens_access c float_of body now now' ctx).1
  unfolding tokens_access access_with_nonce
  tokens_access-SameCore c float_of body now now' = record {
    same_sessions = ground arith;
    same_devices = ground arith;
    same_epochs = ground arith;
    same_ledger = ground arith;
    same_key = ground arith;
  }

  pub verify_and_authorize-SameCore :
      (c : Crypto) (p : Parser) (body : VerifyRequest) (now : ℕ)
      → SameCore ctx (verify_and_authorize c p body now ctx).1
  unfolding verify_and_authorize
  verify_and_authorize-SameCore c p body now = record {
    same_sessions = ground arith;
    same_devices = ground arith;
    same_epochs = ground arith;
    same_ledger = ground arith;
    same_key = ground arith;
  }

-- A status other than `registered` in a record.
set_status-SameKeys :
    (devices : DeviceStore) (did : Str) (status : DeviceStatus)
    → SameKeys devices (set_status devices did status)
unfolding set_status
set_status-SameKeys devices did status k = elim (Option-cases (lookup did devices)) [
  | inl missing ↦ ground arith
  | inr (rec, there) ↦
      ground (arith, insert-SameKeys devices did rec (record rec { status = status }) there refl k)
]

set_status-IsStore :
    (c : Crypto) (devices : DeviceStore) (did : Str) (status : DeviceStatus)
    → status_eq status registered ≡ false
    → IsStore c devices
    → IsStore c (set_status devices did status)
unfolding set_status
set_status-IsStore c devices did status other w = elim (Option-cases (lookup did devices)) [
  | inl missing ↦ let same : set_status devices did status ≡ devices = ground arith in rw same w
  | inr (rec, there) ↦
      let rec' : DeviceRecord = record rec { status = status } in
      let after : set_status devices did status ≡ insert did rec' devices = ground arith in
      rw after (
        insert-IsStore c devices did rec' w
          ((w.records did rec there).0, λ r. absurd (ground arith)))
]

-- What a request leaves alone that may expire a session and set a status other than `registered`.
pub record SetsStatus (ctx ctx' : FogContext) : Type 0 where
  pub set_once :
      (ctx'.devices ≡ ctx.devices)
      ⊎ ((did : Str) × (status : DeviceStatus) × (status_eq status registered ≡ false)
          × (ctx'.devices ≡ set_status ctx.devices did status))
  pub same_epochs : ctx'.epochs ≡ ctx.epochs
  pub same_ledger : ctx'.ledger ≡ ctx.ledger
  pub same_key : ctx'.signing_key ≡ ctx.signing_key

SetsStatus-IsSound :
    (c : Crypto) (ctx ctx' : FogContext)
    → SetsStatus ctx ctx'
    → AreApart ctx'.sessions.sessions ctx.devices
    → IsSound c ctx
    → IsSound c ctx'
SetsStatus-IsSound c ctx ctx' e apart w = elim e.set_once [
  | inl same ↦ record {
    store = rw same w.store;
    sessions = rw same apart;
    keeping = rw (e.same_key, same, e.same_epochs, e.same_ledger) w.keeping;
  }
  | inr (did, status, other, after) ↦
      let devices = set_status ctx.devices did status in
      let keys = set_status-SameKeys ctx.devices did status in
      record {
        store = rw after (set_status-IsStore c ctx.devices did status other w.store);
        sessions =
            rw after (SameKeys-AreApart ctx'.sessions.sessions ctx.devices devices keys apart);
        keeping =
            rw (e.same_key, after, e.same_epochs, e.same_ledger)
              (KeepsKeys-IsKeeping c ctx.signing_key ctx.devices devices ctx.epochs ctx.ledger
                (λ k text has. keys k ∙ has) w.keeping);
      }
]

module _ (c : Crypto) (ctx : FogContext) (session_id fresh : Str) (now now' : ℕ) where
  tokens_issue-refused :
      is_done (tokens_issue c session_id fresh now now' ctx).0 ≡ false
      → (tokens_issue c session_id fresh now now' ctx).1.devices ≡ ctx.devices
  unfolding tokens_issue
  tokens_issue-refused refused = ground arith

  tokens_issue-answered :
      (token : Object) (s : Session) (did : Str) (rec : DeviceRecord)
      → (tokens_issue c session_id fresh now now' ctx).0 ≡ done token
      → (get_session ctx.sessions session_id now).0 ≡ some s
      → s.did ≡ some did
      → lookup did ctx.devices ≡ some rec
      → (tokens_issue c session_id fresh now now' ctx).1.devices
        ≡ set_status ctx.devices rec.did tokenized
  unfolding tokens_issue
  tokens_issue-answered token s did rec h got has there = ground arith

  tokens_issue-live :
      (token : Object) (s : Session) (did : Str) (rec : DeviceRecord)
      → (tokens_issue c session_id fresh now now' ctx).0 ≡ done token
      → (get_session ctx.sessions session_id now).0 ≡ some s
      → s.did ≡ some did
      → lookup did ctx.devices ≡ some rec
      → status_eq rec.status revoked ≡ false
  unfolding tokens_issue
  tokens_issue-live token s did rec h got has there = ground arith

  pub tokens_issue-devices :
      let ctx' = (tokens_issue c session_id fresh now now' ctx).1 in
      (ctx'.devices ≡ ctx.devices)
      ⊎ ((did : Str) × (rec : DeviceRecord) × (lookup did ctx.devices ≡ some rec)
          × (status_eq rec.status revoked ≡ false)
          × (ctx'.devices ≡ set_status ctx.devices rec.did tokenized))
  tokens_issue-devices = elim (Outcome-cases (tokens_issue c session_id fresh now now' ctx)) [
    | inr refused ↦ inl (tokens_issue-refused refused)
    | inl (token, done_so) ↦ elim (Option-cases (get_session ctx.sessions session_id now).0) [
      | inl missing ↦ absurd (unfold tokens_issue in ground arith)
      | inr (s, got) ↦ elim (Option-cases s.did) [
        | inl no_did ↦ absurd (unfold tokens_issue in ground arith)
        | inr (did, has) ↦ elim (Option-cases (lookup did ctx.devices)) [
          | inl unknown ↦ absurd (unfold tokens_issue in ground arith)
          | inr (rec, there) ↦ inr (
            did,
            rec,
            there,
            tokens_issue-live token s did rec done_so got has there,
            tokens_issue-answered token s did rec done_so got has there,
          )
        ]
      ]
    ]
  ]

  pub tokens_issue-SetsStatus : SetsStatus ctx (tokens_issue c session_id fresh now now' ctx).1
  unfolding tokens_issue
  tokens_issue-SetsStatus = record {
    set_once = elim tokens_issue-devices [
      | inl same ↦ inl same
      | inr (did, rec, there, live, after) ↦ inr (rec.did, tokenized, refl, after)
    ];
    same_epochs = ground arith;
    same_ledger = ground arith;
    same_key = ground arith;
  }

  tokens_issue-sessions :
      (tokens_issue c session_id fresh now now' ctx).1.sessions
      ≡ (get_session ctx.sessions session_id now).1
  unfolding tokens_issue
  tokens_issue-sessions = ground arith

  pub tokens_issue-IsSound :
      IsSound c ctx → IsSound c (tokens_issue c session_id fresh now now' ctx).1
  tokens_issue-IsSound w =
      SetsStatus-IsSound c ctx _ tokens_issue-SetsStatus
        (rw tokens_issue-sessions
          (get_session-AreApart ctx.sessions ctx.devices session_id now w.sessions))
        w

module _ (c : Crypto) (ctx : FogContext) (body : RevokeRequest) (x_admin_key : Option Str) where
  pub revoke-devices :
      let ctx' = (revoke body x_admin_key ctx).1 in
      (ctx'.devices ≡ ctx.devices) ⊎ (ctx'.devices ≡ set_status ctx.devices body.did revoked)
  unfolding revoke revoke_device
  revoke-devices =
      elim (Bool-cases
        (text_is x_admin_key ctx.admin_key && not body.token_only && exists ctx.devices body.did)) [
          | inl whole ↦ inr (ground arith)
          | inr not_so ↦ inl (ground arith)
        ]

  pub revoke-SetsStatus : SetsStatus ctx (revoke body x_admin_key ctx).1
  unfolding revoke revoke_device
  revoke-SetsStatus = record {
    set_once = elim revoke-devices [
      | inl same ↦ inl same
      | inr after ↦ inr (body.did, revoked, refl, after)
    ];
    same_epochs = ground arith;
    same_ledger = ground arith;
    same_key = ground arith;
  }

  revoke-sessions : (revoke body x_admin_key ctx).1.sessions ≡ ctx.sessions
  unfolding revoke revoke_device
  revoke-sessions = ground arith

  pub revoke-IsSound : IsSound c ctx → IsSound c (revoke body x_admin_key ctx).1
  revoke-IsSound w = SetsStatus-IsSound c ctx _ revoke-SetsStatus (rw revoke-sessions w.sessions) w
