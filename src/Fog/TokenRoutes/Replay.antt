-- ===== src/Fog/TokenRoutes/Replay.antt =====
-- A request to /tokens/access that was allowed is not allowed again.
use blockchain_io_t_a.Common.Crypto.{Crypto}
use blockchain_io_t_a.Fog.Context.{FogContext, done}
use blockchain_io_t_a.Fog.TokenRoutes.{TokenAccessRequest, allow, tokens_access}
use blockchain_io_t_a.Fog.TokenRoutes.Access.{tokens_access-allow}
use blockchain_io_t_a.Prelude.{
  Option, arith, false, nat_eq, some, sym, text_eq, true, ℕ, ◌∙◌, ◌≡◌, ◌≢◌,
}
use blockchain_io_t_a.Prelude.Dict.{Dict, lookup}
use blockchain_io_t_a.Prelude.Text.{Str}
use blockchain_io_t_a.Tokens.Nonces.{NonceEntry}

burned_nonce :
    (before now : Dict Str NonceEntry) (nonce nonce' : Str) (e e' : NonceEntry)
    → nonce' ≡ nonce
    → lookup nonce now ≡ lookup nonce before
    → lookup nonce before ≡ some (record e { used = true })
    → lookup nonce' now ≡ some e'
    → e'.used ≢ false
burned_nonce before now nonce nonce' e e' same kept burned issued unused =
    let found : lookup nonce now ≡ some e' = rw (← same) issued in
    let entry : some (record e { used = true }) ≡ some e' = sym burned ∙ sym kept ∙ found in
    absurd (ground arith)

module _ (c : Crypto) (ctx ctx' : FogContext) (body : TokenAccessRequest) where
  -- A request that was allowed is refused when it is sent again, whatever else was done meanwhile,
  -- as long as the fog has not forgotten its nonce or issued it anew; and so is any other request
  -- with that nonce.
  pub tokens_access-replay :
      (float_of : Str → Option ℕ) (now now' : ℕ)
      → tokens_access c float_of body now now' ctx ≡ (done allow, ctx')
      → (later after : FogContext) (again : TokenAccessRequest) (time time' : ℕ)
      → again.nonce ≡ body.nonce
      → lookup body.nonce later.token_state.nonces.entries
        ≡ lookup body.nonce ctx'.token_state.nonces.entries
      → tokens_access c float_of again time time' later ≢ (done allow, after)
  tokens_access-replay float_of now now' allowed later after again time time' same kept replayed =
      let (tid, did, own, role, e, granted, used) =
        tokens_access-allow c ctx ctx' body float_of now now' allowed in
      let (tid', did', own', role', e', granted', used') =
        tokens_access-allow c later after again float_of time time' replayed in
      burned_nonce ctx'.token_state.nonces.entries later.token_state.nonces.entries body.nonce
        again.nonce e e' same kept used.burned granted'.fresh.issued granted'.fresh.unused
