-- ===== src/Fog/Server/Restarted.antt =====
-- A fog that starts again finds the ledger that it left.
use blockchain_io_t_a.Common.Crypto.{Crypto, Sound}
use blockchain_io_t_a.Epochs.{EpochResult, EpochState, epoch_manager, finalize_epoch, first_epoch}
use blockchain_io_t_a.Epochs.Close.{finalize_epoch-IsClosed}
use blockchain_io_t_a.Epochs.Live.{finalize_epoch-atomic}
use blockchain_io_t_a.Fog.App.{create_app, fog_id_setting}
use blockchain_io_t_a.Fog.Context.{FogContext}
use blockchain_io_t_a.Fog.EpochRoutes.{epoch_state, put_epoch_state}
use blockchain_io_t_a.Fog.Server.{Request, serve, serve_all}
use blockchain_io_t_a.Fog.Server.Kept.{all_queued-ready, all_registered-leaved, serve-IsSound}
use blockchain_io_t_a.Fog.Server.Roots.{serve-same_ledger}
use blockchain_io_t_a.Fog.Server.Served.{create_app-IsSound}
use blockchain_io_t_a.Fog.Server.Sound.{IsSound}
use blockchain_io_t_a.Fog.Verification.{Parser}
use blockchain_io_t_a.Ledger.{Ledger, cache_from, last_block, latest_epoch, open_ledger}
use blockchain_io_t_a.Ledger.Reopen.{Reopens, anchor_root-latest, anchor_root-Reopens}
use blockchain_io_t_a.Merkle.Proof.{root}
use blockchain_io_t_a.Prelude.{
  Bool, List, Option, Result-cases, [], arith, inl, inr, length, nat_eq, none, ok, refl, some,
  text_eq, ℕ, ◌+◌, ◌∷◌, ◌≡◌,
}
use blockchain_io_t_a.Prelude.Json.{Value, num}
use blockchain_io_t_a.Prelude.Text.{Str, to_hex}
use blockchain_io_t_a.Psk.{PskStore}

-- The ledger is the one in its file, and a manager can go on from its last epoch.
pub record IsStored (c : Crypto) (signing_key : ℕ) (fog_id : Str) (l : Ledger) : Type 0 where
  pub same_file : Reopens c signing_key fog_id l
  pub numbered :
      (latest : Option Value) × (n : ℕ) × (latest_epoch l ≡ ok latest) × (first_epoch latest ≡ ok n)

module _ (c : Crypto) (sound : Sound c) (signing_key : ℕ) (fog_id : Str) where
  closed-IsStored :
      (st st' : EpochState) (exclude_dids : List Str) (timestamp : Str) (result : EpochResult)
      → IsStored c signing_key fog_id st.ledger
      → finalize_epoch c st exclude_dids timestamp ≡ (ok result, st')
      → IsStored c signing_key fog_id st'.ledger
  closed-IsStored st st' exclude_dids timestamp result w h =
      let (tree, members, carried, new, ledger, k) =
        finalize_epoch-IsClosed c st st' exclude_dids timestamp result h in
      let again =
        anchor_root-Reopens c signing_key fog_id st.ledger ledger st.manager.current_epoch_id
          (length tree.leaves) (to_hex (root tree)) timestamp result.block w.same_file k.anchored in
      let latest =
        anchor_root-latest c st.ledger ledger st.manager.current_epoch_id (length tree.leaves)
          (to_hex (root tree)) timestamp result.block k.anchored in
      rw k.after (record {
        same_file = again;
        numbered = (
          some (num st.manager.current_epoch_id),
          st.manager.current_epoch_id + 1,
          latest,
          unfold first_epoch in refl,
        );
      })

  module _ (ctx : FogContext) (w : IsSound c ctx)
      (stored : IsStored c signing_key fog_id ctx.ledger) where
    finalize_epoch-IsStored :
        (exclude_dids : List Str) (timestamp : Str)
        → IsStored c signing_key fog_id
            (put_epoch_state
              (finalize_epoch c (epoch_state ctx) exclude_dids timestamp).1
              ctx).1.ledger
    finalize_epoch-IsStored exclude_dids timestamp =
        let st = epoch_state ctx in
        elim (finalize_epoch-atomic c sound st exclude_dids timestamp
          (all_queued-ready c ctx.devices ctx.epochs.pending w.keeping.queued)
          (all_registered-leaved c ctx.devices w.store)) [
            | inl (x, raised) ↦ rw raised stored
            | inr (result, st', closed) ↦
                rw closed (closed-IsStored st st' exclude_dids timestamp result stored closed)
          ]

    serve-IsStored :
        (p : Parser) (float_of : Str → Option ℕ) (r : Request)
        → IsStored c signing_key fog_id (serve c p float_of r ctx).ledger
    serve-IsStored p float_of r = elim (serve-same_ledger c sound ctx w p float_of r) [
      | inl same ↦ rw same stored
      | inr (exclude_dids, timestamp, after) ↦
          rw after (finalize_epoch-IsStored exclude_dids timestamp)
    ]

  serve_all-IsStored :
      (p : Parser) (float_of : Str → Option ℕ) (rs : List Request) (ctx : FogContext)
      → IsSound c ctx
      → IsStored c signing_key fog_id ctx.ledger
      → IsStored c signing_key fog_id (serve_all c p float_of rs ctx).ledger
  unfolding serve_all
  serve_all-IsStored p float_of [] ctx w stored = stored
  serve_all-IsStored p float_of (r ∷ rs) ctx w stored =
      serve_all-IsStored p float_of rs (serve c p float_of r ctx)
        (serve-IsSound c sound p float_of r ctx w) (serve-IsStored ctx w stored p float_of r)

create_app-IsStored :
    (c : Crypto) (entries : PskStore) (signing_key challenge_ttl session_ttl : ℕ)
    (carry_forward : Bool) (admin_key : Str) (ctx : FogContext)
    → create_app c entries signing_key none challenge_ttl session_ttl carry_forward admin_key
      ≡ ok ctx
    → IsStored c signing_key fog_id_setting ctx.ledger
unfolding create_app open_ledger cache_from epoch_manager latest_epoch last_block first_epoch
create_app-IsStored c entries signing_key challenge_ttl session_ttl carry_forward admin_key ctx h =
    let no_blocks : ctx.ledger.blocks ≡ [] = ground arith in
    record { same_file = ground arith; numbered = (none, 1, ground arith, refl) }

-- On the file of a stored ledger, the fog starts.
create_app-resumes :
    (c : Crypto) (entries : PskStore) (signing_key challenge_ttl session_ttl : ℕ)
    (carry_forward : Bool) (admin_key : Str) (l : Ledger)
    → IsStored c signing_key fog_id_setting l
    → (ctx : FogContext) × (create_app c entries signing_key l.file challenge_ttl session_ttl
          carry_forward admin_key
        ≡ ok ctx)
      × (ctx.ledger ≡ l)
unfolding create_app epoch_manager
create_app-resumes c entries signing_key challenge_ttl session_ttl carry_forward admin_key l
      stored =
    let (latest, n, last, first) = stored.numbered in
    let same_file = stored.same_file in
    elim (Result-cases
      (create_app c entries signing_key l.file challenge_ttl session_ttl carry_forward admin_key)) [
        | inl (ctx, made) ↦ (ctx, made, ground arith)
        | inr (x, raised) ↦ absurd (ground arith)
      ]

-- A fog starts without a ledger file and serves any requests. When it is then started again with
-- the same key, on the ledger file as it is, the start succeeds, and the fog has the ledger that it
-- had: every block, and every root under its epoch.
pub create_app-restart :
    (c : Crypto) (sound : Sound c) (p : Parser) (float_of : Str → Option ℕ) (rs : List Request)
    (entries entries' : PskStore) (signing_key challenge_ttl session_ttl : ℕ) (carry_forward : Bool)
    (admin_key : Str) (fresh : FogContext)
    → create_app c entries signing_key none challenge_ttl session_ttl carry_forward admin_key
      ≡ ok fresh
    → (restarted : FogContext) × (create_app c entries' signing_key
          (serve_all c p float_of rs fresh).ledger.file
          challenge_ttl
          session_ttl
          carry_forward
          admin_key
        ≡ ok restarted)
      × (restarted.ledger ≡ (serve_all c p float_of rs fresh).ledger)
create_app-restart c sound p float_of rs entries entries' signing_key challenge_ttl session_ttl
      carry_forward admin_key fresh created =
    let w =
      create_app-IsSound c entries signing_key challenge_ttl session_ttl carry_forward admin_key
        fresh created in
    let stored =
      create_app-IsStored c entries signing_key challenge_ttl session_ttl carry_forward admin_key
        fresh created in
    create_app-resumes c entries' signing_key challenge_ttl session_ttl carry_forward admin_key
      (serve_all c p float_of rs fresh).ledger
      (serve_all-IsStored c sound signing_key fog_id_setting p float_of rs fresh w stored)
