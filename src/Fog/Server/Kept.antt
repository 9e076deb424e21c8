-- ===== src/Fog/Server/Kept.antt =====
-- Whatever requests a fog serves, its context stays sound.
use blockchain_io_t_a.Common.Crypto.{Crypto, Sound}
use blockchain_io_t_a.Common.Schemas.{registered}
use blockchain_io_t_a.Epochs.{PendingEntry, auto_close, batch_size, finalize_epoch}
use blockchain_io_t_a.Epochs.Live.{finalize_epoch-atomic}
use blockchain_io_t_a.Epochs.Ready.{AllLeaved, AllReady, IsLeaved, IsReady}
use blockchain_io_t_a.Fog.Context.{FogContext}
use blockchain_io_t_a.Fog.EpochRoutes.{admin_only, epoch_close, epoch_state, put_epoch_state}
use blockchain_io_t_a.Fog.Server.{
  Request, ask_token_nonce, ask_verify_nonce, post_access, post_close, post_issue, post_metadata,
  post_pop, post_pubkey, post_revoke, post_start, post_verify, serve, serve_all, timer,
}
use blockchain_io_t_a.Fog.Server.Accessing.{
  SameCore-IsSound, revoke-IsSound, tokens_access-SameCore, tokens_issue-IsSound,
  tokens_nonce-SameCore, verify_and_authorize-SameCore, verify_nonce-SameCore,
}
use blockchain_io_t_a.Fog.Server.Closing.{closed-IsKeeping, closed-IsStore, closed-SameKeys}
use blockchain_io_t_a.Fog.Server.Keys.{IsStore, by_status-All}
use blockchain_io_t_a.Fog.Server.Possessing.{register_pop-IsSound}
use blockchain_io_t_a.Fog.Server.Queueing.{register_metadata-IsSound}
use blockchain_io_t_a.Fog.Server.Registering.{register_pubkey-IsSound, register_start-IsSound}
use blockchain_io_t_a.Fog.Server.Sessions.{SameKeys-AreApart}
use blockchain_io_t_a.Fog.Server.Sound.{IsQueued, IsSound}
use blockchain_io_t_a.Fog.Verification.{Parser}
use blockchain_io_t_a.Prelude.{
  Bool-cases, List, Option, [], arith, inl, inr, nat_beq, ℕ, ◌∷◌, ◌≡◌, ◌⊎◌,
}
use blockchain_io_t_a.Prelude.Dict.{Dict}
use blockchain_io_t_a.Prelude.Dict.Entries.{Every, Every-mono}
use blockchain_io_t_a.Prelude.Text.{Str}
use blockchain_io_t_a.Storage.{DeviceStore, by_status, text_is}

pub all_queued-ready :
    (c : Crypto) (devices : DeviceStore) (d : Dict Str PendingEntry)
    → Every (IsQueued c devices) d
    → AllReady c d
all_queued-ready c devices d h =
    Every-mono (IsQueued c devices) (λ did. IsReady c) (λ did e q. q.1) d h

pub all_registered-leaved :
    (c : Crypto) (devices : DeviceStore)
    → IsStore c devices
    → AllLeaved c (by_status devices registered)
all_registered-leaved c devices w =
    by_status-All c devices (IsLeaved c) w.once (λ k rec there r. (w.records k rec there).1 r)

module _ (c : Crypto) (sound : Sound c) (ctx : FogContext) (w : IsSound c ctx) where
  -- finalize_epoch on the state of the fog, as the route and the thread call it.
  pub finalize_epoch-IsSound :
      (exclude_dids : List Str) (timestamp : Str)
      → IsSound c
          (put_epoch_state (finalize_epoch c (epoch_state ctx) exclude_dids timestamp).1 ctx).1
  finalize_epoch-IsSound exclude_dids timestamp =
      let st = epoch_state ctx in
      elim (finalize_epoch-atomic c sound st exclude_dids timestamp
        (all_queued-ready c ctx.devices ctx.epochs.pending w.keeping.queued)
        (all_registered-leaved c ctx.devices w.store)) [
          | inl (x, raised) ↦ rw raised w
          | inr (result, st', closed) ↦ rw closed (record {
            store =
                closed-IsStore c sound ctx.signing_key st st' exclude_dids timestamp result w.store
                  w.keeping closed;
            sessions =
                SameKeys-AreApart ctx.sessions.sessions ctx.devices st'.devices
                  (closed-SameKeys c sound ctx.signing_key st st' exclude_dids timestamp result
                    w.store w.keeping closed)
                  w.sessions;
            keeping =
                closed-IsKeeping c sound ctx.signing_key st st' exclude_dids timestamp result
                  w.store w.keeping closed;
          })
        ]

  pub epoch_close-after :
      (exclude_dids : List Str) (x_admin_key : Option Str) (timestamp : Str)
      → let after = (epoch_close c exclude_dids x_admin_key timestamp ctx).1 in
        (after ≡ ctx)
        ⊎ (after
            ≡ (put_epoch_state (finalize_epoch c (epoch_state ctx) exclude_dids timestamp).1 ctx).1)
  unfolding epoch_close admin_only
  epoch_close-after exclude_dids x_admin_key timestamp =
      elim (Bool-cases (text_is x_admin_key ctx.admin_key)) [
        | inl admin ↦ inr (ground arith)
        | inr other ↦ inl (ground arith)
      ]

  pub auto_close-after :
      (timestamp : Str)
      → let after = (put_epoch_state (auto_close c (epoch_state ctx) timestamp).1 ctx).1 in
        (after ≡ ctx)
        ⊎ (after ≡ (put_epoch_state (finalize_epoch c (epoch_state ctx) [] timestamp).1 ctx).1)
  unfolding auto_close
  auto_close-after timestamp = elim (Bool-cases (nat_beq (batch_size ctx.epochs) 0)) [
    | inl empty ↦ inl (ground arith)
    | inr some_wait ↦ inr (ground arith)
  ]

module _ (c : Crypto) (sound : Sound c) (p : Parser) (float_of : Str → Option ℕ) where
  pub serve-IsSound :
      (r : Request) (ctx : FogContext) → IsSound c ctx → IsSound c (serve c p float_of r ctx)
  unfolding serve
  serve-IsSound (post_start authorization fresh now) ctx w =
      register_start-IsSound c ctx w authorization fresh now
  serve-IsSound (post_pubkey body random now now') ctx w =
      register_pubkey-IsSound c ctx w body random now now'
  serve-IsSound (post_pop body now now' now'') ctx w =
      register_pop-IsSound c ctx body now now' now'' w
  serve-IsSound (post_metadata body now now') ctx w =
      register_metadata-IsSound c sound ctx body now now' w
  serve-IsSound (ask_token_nonce token_id fresh now) ctx w =
      SameCore-IsSound c ctx _ (tokens_nonce-SameCore ctx token_id fresh now) w
  serve-IsSound (post_issue session_id fresh now now') ctx w =
      tokens_issue-IsSound c ctx session_id fresh now now' w
  serve-IsSound (post_access body now now') ctx w =
      SameCore-IsSound c ctx _ (tokens_access-SameCore ctx c float_of body now now') w
  serve-IsSound (ask_verify_nonce did fresh now) ctx w =
      SameCore-IsSound c ctx _ (verify_nonce-SameCore ctx did fresh now) w
  serve-IsSound (post_verify body now) ctx w =
      SameCore-IsSound c ctx _ (verify_and_authorize-SameCore ctx c p body now) w
  serve-IsSound (post_revoke body x_admin_key) ctx w = revoke-IsSound c ctx body x_admin_key w
  serve-IsSound (post_close exclude_dids x_admin_key timestamp) ctx w =
      elim (epoch_close-after c sound ctx w exclude_dids x_admin_key timestamp) [
        | inl same ↦ rw same w
        | inr after ↦ rw after (finalize_epoch-IsSound c sound ctx w exclude_dids timestamp)
      ]
  serve-IsSound (timer timestamp) ctx w = elim (auto_close-after c sound ctx w timestamp) [
    | inl same ↦ rw same w
    | inr after ↦ rw after (finalize_epoch-IsSound c sound ctx w [] timestamp)
  ]

  -- The context of a fog stays sound, whatever requests it serves, in whatever order: each record
  -- is kept under its DID, and a registered one has the hash of its DID and key as leaf; no two
  -- sessions past the first step hold the same DID, a DID in /register/pop has no record yet, and
  -- one behind it has a record with the key that was submitted; what is queued is the hash of the
  -- recorded key; no root is in the ledger for the current epoch or a later one; and each package
  -- that is kept passes the verifier against the root in the ledger.
  pub serve_all-IsSound :
      (rs : List Request) (ctx : FogContext)
      → IsSound c ctx
      → IsSound c (serve_all c p float_of rs ctx)
  unfolding serve_all
  serve_all-IsSound [] ctx w = w
  serve_all-IsSound (r ∷ rs) ctx w =
      serve_all-IsSound rs (serve c p float_of r ctx) (serve-IsSound r ctx w)
