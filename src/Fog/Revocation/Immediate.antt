-- ===== src/Fog/Revocation/Immediate.antt =====
-- A revocation counts at once: no access after it.
use blockchain_io_t_a.Common.Crypto.{Crypto}
use blockchain_io_t_a.Common.Schemas.{revoked}
use blockchain_io_t_a.Fog.Context.{FogContext, done}
use blockchain_io_t_a.Fog.Revocation.{
  RevokeRequest, RevokeResponse, given, is_device_revoked, revoke, revoke_all, revoke_device,
  revoke_given,
}
use blockchain_io_t_a.Prelude.{
  Bool-cases, List, Option, Option-cases, [], arith, false, inl, inr, mem, nat_eq, none, refl, some,
  text_beq_iff, text_beq_refl, text_eq, true, ◌==◌, ◌∷◌, ◌≡◌,
}
use blockchain_io_t_a.Prelude.Dict.{Dict, lookup, lookup-insert_self}
use blockchain_io_t_a.Prelude.Text.{Str}
use blockchain_io_t_a.Storage.{DeviceStore, exists, set_status, text_is}
use blockchain_io_t_a.Tokens.Nonces.{
  TokenState, is_revoked, owner_of, revoke_id, tokens_in, tokens_of,
}

revoke_id-keeps :
    (ts : TokenState) (x t : Str) → is_revoked ts t ≡ true → is_revoked (revoke_id ts x) t ≡ true
unfolding revoke_id is_revoked
revoke_id-keeps ts x t h = ground arith

revoke_id-revokes :
    (ts : TokenState) (x t : Str) → (t == x) ≡ true → is_revoked (revoke_id ts x) t ≡ true
unfolding revoke_id is_revoked
revoke_id-revokes ts x t h = ground (arith, text_beq_iff t x)

revoke_given-keeps :
    (o : Option Str) (ts : TokenState) (t : Str)
    → is_revoked ts t ≡ true
    → is_revoked (revoke_given o ts) t ≡ true
revoke_given-keeps none ts t h = h
revoke_given-keeps (some x) ts t h = revoke_id-keeps ts x t h

revoke_all-keeps :
    (tids : List Str) (ts : TokenState) (t : Str)
    → is_revoked ts t ≡ true
    → is_revoked (revoke_all tids ts) t ≡ true
unfolding revoke_all revoke_id is_revoked
revoke_all-keeps [] ts t h = h
revoke_all-keeps (x ∷ tids) ts t h =
    revoke_all-keeps tids (revoke_id ts x) t (revoke_id-keeps ts x t h)

revoke_all-revokes :
    (tids : List Str) (ts : TokenState) (t : Str)
    → mem t tids ≡ true
    → is_revoked (revoke_all tids ts) t ≡ true
unfolding revoke_all revoke_id is_revoked
revoke_all-revokes [] ts t h = cc
revoke_all-revokes (x ∷ tids) ts t h = elim (Bool-cases (t == x)) [
  | inl same ↦ revoke_all-keeps tids (revoke_id ts x) t (revoke_id-revokes ts x t same)
  | inr other ↦ revoke_all-revokes tids (revoke_id ts x) t (ground arith)
]

tokens_in-mem :
    (did t : Str) (issued : Dict Str Str)
    → lookup t issued ≡ some did
    → mem t (tokens_in did issued) ≡ true
unfolding tokens_in
tokens_in-mem did t [] h = cc
tokens_in-mem did t ((j, d) ∷ issued) h =
    ground (arith, tokens_in-mem did t issued, text_beq_refl did)

set_status-revoked :
    (devices : DeviceStore) (did : Str)
    → exists devices did ≡ true
    → is_device_revoked (set_status devices did revoked) did ≡ true
unfolding exists set_status is_device_revoked
set_status-revoked devices did h = elim (Option-cases (lookup did devices)) [
  | inl missing ↦ absurd (ground arith)
  | inr (rec, there) ↦
      ground (arith, lookup-insert_self did (record rec { status = revoked }) devices)
]

module _ (c : Crypto) (ctx ctx' : FogContext) (body : RevokeRequest) (x_admin_key : Option Str)
    (response : RevokeResponse) where
  -- An answered revocation of a device (token_only is false) came with the admin key; it marks
  -- the record of the device, and every token that was issued to it, and leaves the ledger and
  -- the epochs as they were.
  pub revoke-marks :
      revoke body x_admin_key ctx ≡ (done response, ctx')
      → body.token_only ≡ false
      → (text_is x_admin_key ctx.admin_key ≡ true)
        × (is_device_revoked ctx'.devices body.did ≡ true)
        × ((t : Str)
            → owner_of ctx.token_state t ≡ some body.did
            → is_revoked ctx'.token_state t ≡ true)
        × (ctx'.ledger ≡ ctx.ledger)
        × (ctx'.epochs ≡ ctx.epochs)
  unfolding revoke revoke_device
  revoke-marks h whole = elim (Bool-cases (exists ctx.devices body.did)) [
    | inr unknown ↦ absurd (ground arith)
    | inl known ↦
        let ts = revoke_all (tokens_of ctx.token_state body.did) ctx.token_state in
        let after : ctx' ≡ record ctx {
          devices = set_status ctx.devices body.did revoked;
          token_state = revoke_given (given body.token_id) ts;
        } =
          ground arith in
        (
          ground arith,
          rw after (set_status-revoked ctx.devices body.did known),
          λ t owned. rw after (
              revoke_given-keeps (given body.token_id) ts t (
                revoke_all-revokes (tokens_of ctx.token_state body.did) ctx.token_state t (
                  unfold tokens_of owner_of in
                  tokens_in-mem body.did t ctx.token_state.issued owned))),
          rw after refl,
          rw after refl,
        )
  ]
