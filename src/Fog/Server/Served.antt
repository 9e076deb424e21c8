-- ===== src/Fog/Server/Served.antt =====
-- What a fog that started with no ledger serves later.
use blockchain_io_t_a.Common.Crypto.{Crypto, Sound}
use blockchain_io_t_a.Common.Schemas.{ProofPackage}
use blockchain_io_t_a.Epochs.{epoch_manager, first_epoch, get_package}
use blockchain_io_t_a.Fog.App.{create_app}
use blockchain_io_t_a.Fog.Context.{FogContext, done}
use blockchain_io_t_a.Fog.EpochRoutes.{get_proof_route}
use blockchain_io_t_a.Fog.Server.{Request, serve_all}
use blockchain_io_t_a.Fog.Server.Kept.{serve_all-IsSound}
use blockchain_io_t_a.Fog.Server.Sound.{AllAnchored, IsAnchored, IsSound}
use blockchain_io_t_a.Fog.Verification.{Parser}
use blockchain_io_t_a.Ledger.{cache_from, get_root, last_block, latest_epoch, open_ledger}
use blockchain_io_t_a.Prelude.{
  Bool, List, Option, Option-cases, [], arith, inl, inr, nat_eq, none, ok, refl, some, text_eq, ℕ,
  ◌≡◌,
}
use blockchain_io_t_a.Prelude.Dict.{lookup}
use blockchain_io_t_a.Prelude.Dict.Entries.{lookup-Every}
use blockchain_io_t_a.Prelude.Text.{Str}
use blockchain_io_t_a.Psk.{PskStore}

-- The context that create_app makes where there is no ledger file yet.
pub create_app-IsSound :
    (c : Crypto) (entries : PskStore) (signing_key challenge_ttl session_ttl : ℕ)
    (carry_forward : Bool) (admin_key : Str) (ctx : FogContext)
    → create_app c entries signing_key none challenge_ttl session_ttl carry_forward admin_key
      ≡ ok ctx
    → IsSound c ctx
unfolding create_app open_ledger cache_from epoch_manager latest_epoch last_block first_epoch
create_app-IsSound c entries signing_key challenge_ttl session_ttl carry_forward admin_key ctx h =
    let is_ctx : ctx.devices ≡ [] = ground arith in
    let no_sessions : ctx.sessions.sessions ≡ [] = ground arith in
    let no_roots : ctx.ledger.root_cache ≡ [] = ground arith in
    let nothing_pending : ctx.epochs.pending ≡ [] = ground arith in
    let no_packages : ctx.epochs.packages ≡ [] = ground arith in
    let no_latest : ctx.epochs.latest_package ≡ [] = ground arith in
    record {
      store = rw is_ctx (record { once = refl; records = λ k rec there. cc });
      sessions =
          rw (is_ctx, no_sessions)
            (record {
              once = refl;
              ids = λ k s there. cc;
              apart = λ k j s t did there. cc;
              unclaimed = λ k s did there. cc;
              claimed = λ k s did there. cc;
            });
      keeping = record {
        own_key = ground arith;
        queued = rw nothing_pending tt;
        numbered = λ n above. unfold get_root in rw no_roots refl;
        issued = rw no_packages tt;
        latest = rw no_latest tt;
      };
    }

module _ (c : Crypto) (ctx ctx' : FogContext) (did : Str) (epoch_id : Option ℕ)
    (pkg : ProofPackage) where
  got_package-IsAnchored :
      IsSound c ctx
      → get_package ctx.epochs did epoch_id ≡ some pkg
      → IsAnchored c ctx.signing_key ctx.ledger did pkg
  unfolding get_package
  got_package-IsAnchored w h = elim (Option-cases epoch_id) [
    | inl latest ↦
        lookup-Every (IsAnchored c ctx.signing_key ctx.ledger) did pkg ctx.epochs.latest_package
          w.keeping.latest (ground arith)
    | inr (n, of_epoch) ↦ elim (Option-cases (lookup n ctx.epochs.packages)) [
      | inl missing ↦ absurd (ground arith)
      | inr (packages, there) ↦
          let all_of =
            lookup-Every (AllAnchored c ctx.signing_key ctx.ledger) n packages ctx.epochs.packages
              w.keeping.issued there in
          (lookup-Every _ did pkg packages all_of (ground arith)).1
    ]
  ]

  got_proof-package :
      get_proof_route did epoch_id ctx ≡ (done pkg, ctx')
      → get_package ctx.epochs did epoch_id ≡ some pkg
  unfolding get_proof_route
  got_proof-package h = elim (Option-cases (get_package ctx.epochs did epoch_id)) [
    | inl missing ↦ absurd (ground arith)
    | inr (found_pkg, there) ↦ ground arith
  ]

module _ (c : Crypto) (sound : Sound c) (p : Parser) (float_of : Str → Option ℕ)
    (entries : PskStore) (signing_key challenge_ttl session_ttl : ℕ) (carry_forward : Bool)
    (admin_key : Str) (fresh ctx' : FogContext) (rs : List Request) where
  -- Start a fog with no ledger file, and let it serve any requests in any order, with any number of
  -- epochs closed and devices revoked among them. A package that GET /proof then answers is of the
  -- DID that was asked for, and the verifier accepts it against the root that the registry holds
  -- for the epoch of the package, and the fog's own key.
  pub get_proof_route-Verifies :
      create_app c entries signing_key none challenge_ttl session_ttl carry_forward admin_key
        ≡ ok fresh
      → (did : Str) (epoch_id : Option ℕ) (pkg : ProofPackage)
      → get_proof_route did epoch_id (serve_all c p float_of rs fresh) ≡ (done pkg, ctx')
      → IsAnchored c
          (serve_all c p float_of rs fresh).signing_key
          (serve_all c p float_of rs fresh).ledger
          did
          pkg
  get_proof_route-Verifies created did epoch_id pkg h =
      let ctx = serve_all c p float_of rs fresh in
      let w = serve_all-IsSound c sound p float_of rs fresh (
        create_app-IsSound c entries signing_key challenge_ttl session_ttl carry_forward admin_key
          fresh created) in
      got_package-IsAnchored c ctx ctx' did epoch_id pkg w
        (got_proof-package c ctx ctx' did epoch_id pkg h)
