-- ===== src/Fog/Revocation/Denied.antt =====
-- No access for a revoked device.
use blockchain_io_t_a.Common.Crypto.{Crypto}
use blockchain_io_t_a.Common.Schemas.{
  DeviceRecord, DeviceStatus, pending, registered, revoked, status_eq, tokenized,
}
use blockchain_io_t_a.Fog.Context.{FogContext, done}
use blockchain_io_t_a.Fog.Revocation.{RevokeRequest, RevokeResponse, is_device_revoked, revoke}
use blockchain_io_t_a.Fog.Revocation.Immediate.{revoke-marks}
use blockchain_io_t_a.Fog.TokenRoutes.{TokenAccessRequest, allow, tokens_access}
use blockchain_io_t_a.Fog.TokenRoutes.Access.{tokens_access-allow}
use blockchain_io_t_a.Fog.Verification.{Parser, VerifyDecision, VerifyRequest, verify_and_authorize}
use blockchain_io_t_a.Fog.Verification.Authorize.{verify_and_authorize-allow}
use blockchain_io_t_a.Prelude.{
  Bool-cases, Option, arith, false, inl, inr, nat_eq, ok, refl, some, text_eq, true, ℕ, ◌∙◌, ◌≡◌,
  ◌≢◌,
}
use blockchain_io_t_a.Prelude.Dict.{lookup}
use blockchain_io_t_a.Prelude.Text.{Str, codes}
use blockchain_io_t_a.Storage.{DeviceStore}
use blockchain_io_t_a.Tokens.Token.{text_item}

same_record :
    (devices devices' : DeviceStore) (did : Str)
    → lookup did devices ≡ lookup did devices'
    → is_device_revoked devices did ≡ is_device_revoked devices' did
unfolding is_device_revoked
same_record devices devices' did h = ground arith

revoked-registered :
    (s : DeviceStatus) → status_eq s revoked ≡ true → status_eq s registered ≡ false
revoked-registered pending h = refl
revoked-registered tokenized h = refl
revoked-registered registered h = absurd (ground arith)
revoked-registered revoked h = refl

not_registered_now :
    (devices : DeviceStore) (did : Str) (rec : DeviceRecord)
    → is_device_revoked devices did ≡ true
    → lookup did devices ≡ some rec
    → status_eq rec.status registered ≡ false
unfolding is_device_revoked
not_registered_now devices did rec h there = revoked-registered rec.status (ground arith)

-- No token and no proof package of this DID is allowed anything.
abbrev pub IsDenied : Crypto → FogContext → Str → Type 0
IsDenied c later did =
    ((float_of : Str → Option ℕ) (body : TokenAccessRequest) (now now' : ℕ) (after : FogContext)
      → text_item (codes "did") body.token ≡ ok did
      → tokens_access c float_of body now now' later ≢ (done allow, after))
    × ((p : Parser) (body : VerifyRequest) (now : ℕ) (d : VerifyDecision) (after : FogContext)
        → text_item (codes "did") body.proof_package ≡ ok did
        → verify_and_authorize c p body now later ≡ (done d, after)
        → d.allowed ≡ false)

pub revoked-IsDenied :
    (c : Crypto) (later : FogContext) (of : Str)
    → is_device_revoked later.devices of ≡ true
    → IsDenied c later of
revoked-IsDenied c later of still = (
  λ float_of body now now' after is_did allowed.
      let (tid, did, own, role, e, w, used) =
        tokens_access-allow c later after body float_of now now' allowed in
      let same_did : did ≡ of = ground (arith, is_did, w.token_did) in cc,
  λ p body now d after is_did answered. elim (Bool-cases d.allowed) [
    | inr denied ↦ denied
    | inl allowed ↦
        let (e, fresh, did, role, pkg, r, rec, w) =
          verify_and_authorize-allow c p later body after now d answered allowed in
        let same_did : did ≡ of = ground (arith, is_did, w.request_did) in
        absurd (
          ground (
            arith,
            not_registered_now later.devices of rec still (rw (← same_did) w.known),
            w.registered_now,
          ))
  ],
)

module _ (c : Crypto) (ctx revoked_ctx : FogContext) (x_admin_key : Option Str)
    (revocation : RevokeRequest) (response : RevokeResponse) where
  -- After the revocation of a device (token_only is false), no token of its DID and no proof
  -- package of its DID is allowed anything, in whatever state the fog is later, as long as the
  -- record of that DID stays as the revocation left it.
  pub revoke-denies :
      revoke revocation x_admin_key ctx ≡ (done response, revoked_ctx)
      → revocation.token_only ≡ false
      → (later : FogContext)
      → lookup revocation.did later.devices ≡ lookup revocation.did revoked_ctx.devices
      → IsDenied c later revocation.did
  revoke-denies h whole later same =
      let (_, marked, _, _, _) =
        revoke-marks c ctx revoked_ctx revocation x_admin_key response h whole in
      let still : is_device_revoked later.devices revocation.did ≡ true =
        same_record later.devices revoked_ctx.devices revocation.did same ∙ marked in
      revoked-IsDenied c later revocation.did still
