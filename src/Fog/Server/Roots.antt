-- ===== src/Fog/Server/Roots.antt =====
-- What was anchored stays anchored.
use blockchain_io_t_a.Common.Crypto.{Crypto, Sound}
use blockchain_io_t_a.Epochs.{finalize_epoch}
use blockchain_io_t_a.Epochs.Live.{finalize_epoch-atomic}
use blockchain_io_t_a.Fog.Context.{FogContext}
use blockchain_io_t_a.Fog.EpochRoutes.{epoch_state, put_epoch_state}
use blockchain_io_t_a.Fog.Registration.{
  register_start, register_pubkey, require_state, session_or_404,
}
use blockchain_io_t_a.Fog.Server.{
  Request, ask_token_nonce, ask_verify_nonce, post_access, post_close, post_issue, post_metadata,
  post_pop, post_pubkey, post_revoke, post_start, post_verify, serve, serve_all, timer,
}
use blockchain_io_t_a.Fog.Server.Accessing.{
  revoke-SetsStatus, tokens_access-SameCore, tokens_issue-SetsStatus, tokens_nonce-SameCore,
  verify_and_authorize-SameCore, verify_nonce-SameCore,
}
use blockchain_io_t_a.Fog.Server.Closing.{KeepsRoots, closed-KeepsRoots}
use blockchain_io_t_a.Fog.Server.Kept.{
  all_queued-ready, all_registered-leaved, auto_close-after, epoch_close-after, serve-IsSound,
}
use blockchain_io_t_a.Fog.Server.Possessing.{
  pop_granted, pop_spent, pop_turned_down, pop_untouched, register_pop-PopLeaves,
}
use blockchain_io_t_a.Fog.Server.Queueing.{
  meta_described, meta_queued, meta_untouched, register_metadata-MetadataLeaves,
}
use blockchain_io_t_a.Fog.Server.Sound.{IsSound}
use blockchain_io_t_a.Fog.Verification.{Parser}
use blockchain_io_t_a.Ledger.{get_root}
use blockchain_io_t_a.Merkle.Proof.{root}
use blockchain_io_t_a.Prelude.{List, Option, [], arith, inl, inr, refl, some, ℕ, ◌∷◌, ◌≡◌, ◌⊎◌}
use blockchain_io_t_a.Prelude.Text.{Str}

module _ (c : Crypto) (sound : Sound c) (ctx : FogContext) (w : IsSound c ctx) where
  finalize_epoch-KeepsRoots :
      (exclude_dids : List Str) (timestamp : Str)
      → KeepsRoots ctx.ledger
          (put_epoch_state
            (finalize_epoch c (epoch_state ctx) exclude_dids timestamp).1
            ctx).1.ledger
  finalize_epoch-KeepsRoots exclude_dids timestamp =
      let st = epoch_state ctx in
      elim (finalize_epoch-atomic c sound st exclude_dids timestamp
        (all_queued-ready c ctx.devices ctx.epochs.pending w.keeping.queued)
        (all_registered-leaved c ctx.devices w.store)) [
          | inl (x, raised) ↦ rw raised (λ n root there. there)
          | inr (result, st', closed) ↦ rw closed (
              closed-KeepsRoots c sound ctx.signing_key st st' exclude_dids timestamp result w.store
                w.keeping closed)
        ]

  -- Only closing an epoch changes the ledger.
  pub serve-same_ledger :
      (p : Parser) (float_of : Str → Option ℕ) (r : Request)
      → ((serve c p float_of r ctx).ledger ≡ ctx.ledger)
        ⊎ ((exclude_dids : List Str) × (timestamp : Str) × ((serve c p float_of r ctx)
              ≡ (put_epoch_state
                  (finalize_epoch c (epoch_state ctx) exclude_dids timestamp).1
                  ctx).1))
  unfolding serve
  serve-same_ledger p float_of (post_start authorization fresh now) =
      inl (unfold register_start in ground arith)
  serve-same_ledger p float_of (post_pubkey body random now now') =
      inl (unfold register_pubkey session_or_404 require_state in ground arith)
  serve-same_ledger p float_of (post_pop body now now' now'') =
      elim (register_pop-PopLeaves c ctx body now now' now'') [
        | pop_untouched after ↦ inl (rw after refl)
        | pop_spent s got step after ↦ inl (rw after refl)
        | pop_turned_down s got step after ↦ inl (rw after refl)
        | pop_granted s did text got step has key after ↦ inl (rw after refl)
      ]
  serve-same_ledger p float_of (post_metadata body now now') =
      elim (register_metadata-MetadataLeaves c ctx body now now') [
        | meta_untouched after ↦ inl (rw after refl)
        | meta_described did rec known after ↦ inl (rw after refl)
        | meta_queued s did text leaf_hex pk rec epochs got step has key is_pk known added after ↦
            inl (rw after refl)
      ]
  serve-same_ledger p float_of (ask_token_nonce token_id fresh now) =
      inl (tokens_nonce-SameCore ctx token_id fresh now).same_ledger
  serve-same_ledger p float_of (post_issue session_id fresh now now') =
      inl (tokens_issue-SetsStatus c ctx session_id fresh now now').same_ledger
  serve-same_ledger p float_of (post_access body now now') =
      inl (tokens_access-SameCore ctx c float_of body now now').same_ledger
  serve-same_ledger p float_of (ask_verify_nonce did fresh now) =
      inl (verify_nonce-SameCore ctx did fresh now).same_ledger
  serve-same_ledger p float_of (post_verify body now) =
      inl (verify_and_authorize-SameCore ctx c p body now).same_ledger
  serve-same_ledger p float_of (post_revoke body x_admin_key) =
      inl (revoke-SetsStatus c ctx body x_admin_key).same_ledger
  serve-same_ledger p float_of (post_close exclude_dids x_admin_key timestamp) =
      elim (epoch_close-after c sound ctx w exclude_dids x_admin_key timestamp) [
        | inl same ↦ inl (rw same refl)
        | inr after ↦ inr (exclude_dids, timestamp, after)
      ]
  serve-same_ledger p float_of (timer timestamp) = elim (auto_close-after c sound ctx w timestamp) [
    | inl same ↦ inl (rw same refl)
    | inr after ↦ inr ([], timestamp, after)
  ]

  serve-KeepsRoots :
      (p : Parser) (float_of : Str → Option ℕ) (r : Request)
      → KeepsRoots ctx.ledger (serve c p float_of r ctx).ledger
  serve-KeepsRoots p float_of r = elim (serve-same_ledger p float_of r) [
    | inl same ↦ rw same (λ n root there. there)
    | inr (exclude_dids, timestamp, after) ↦
        rw after (finalize_epoch-KeepsRoots exclude_dids timestamp)
  ]

-- A root that the registry holds for an epoch is there for good: whatever requests the fog serves,
-- the registry answers the same root for that epoch.
pub serve_all-get_root :
    (c : Crypto) (sound : Sound c) (p : Parser) (float_of : Str → Option ℕ) (rs : List Request)
    (ctx : FogContext)
    → IsSound c ctx
    → (n : ℕ) (root : Str) → get_root ctx.ledger n ≡ some root
    → get_root (serve_all c p float_of rs ctx).ledger n ≡ some root
unfolding serve_all
serve_all-get_root c sound p float_of [] ctx w n root there = there
serve_all-get_root c sound p float_of (r ∷ rs) ctx w n root there =
    serve_all-get_root c sound p float_of rs (serve c p float_of r ctx)
      (serve-IsSound c sound p float_of r ctx w) n root
      (serve-KeepsRoots c sound ctx w p float_of r n root there)
