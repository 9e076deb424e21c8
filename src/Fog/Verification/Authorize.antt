-- ===== src/Fog/Verification/Authorize.antt =====
-- What an ALLOW of /verify rests on.
use blockchain_io_t_a.Common.Crypto.{Crypto, public_key_bytes}
use blockchain_io_t_a.Common.Schemas.{DeviceRecord, ProofPackage, registered, status_eq}
use blockchain_io_t_a.Fog.Context.{FogContext, done}
use blockchain_io_t_a.Fog.Verification.{
  Parser, VerifyDecision, VerifyRequest, current_decision, identity_check_of, int_of, py_str,
  request_signed, verify_and_authorize, verify_decision, verify_nonce_purpose,
}
use blockchain_io_t_a.Ledger.{get_root}
use blockchain_io_t_a.Merkle.Proof.{root}
use blockchain_io_t_a.Policy.{check_policy, role_valid_for_type}
use blockchain_io_t_a.Prelude.{
  Option, Option-cases, Result-cases, arith, false, inl, inr, nat_eq, none, ok, refl, some, text_eq,
  true, ℕ, ◌≡◌,
}
use blockchain_io_t_a.Prelude.Dict.{lookup}
use blockchain_io_t_a.Prelude.Json.{Object, Value}
use blockchain_io_t_a.Prelude.Text.{Bytes, Str, codes}
use blockchain_io_t_a.Proofs.{VerificationResult, verify_proof_package}
use blockchain_io_t_a.Tokens.Nonces.{NonceBook, NonceEntry, NonceStatus, consume, nonce_ok}
use blockchain_io_t_a.Tokens.Nonces.Once.{IsFresh, consume-ok}
use blockchain_io_t_a.Tokens.Token.{text_item}

-- All that has held when a request is allowed.
pub record IsAuthorized (c : Crypto) (p : Parser) (ctx : FogContext) (body : VerifyRequest)
    (did role : Str) (pkg : ProofPackage) (r : VerificationResult) (rec : DeviceRecord)
    : Type 0 where
  pub request_did : text_item (codes "did") body.proof_package ≡ ok did
  pub parsed : p.proof_package body.proof_package ≡ some pkg
  pub epoch :
      (n : ℕ) × (root : Str) × (int_of (lookup (codes "epoch_id") body.proof_package) ≡ some n)
      × (get_root ctx.ledger n ≡ some root)
      × (verify_proof_package c pkg (some root) (public_key_bytes c ctx.signing_key) ≡ ok r)
  pub proven : r.accepted ≡ true
  pub signed : request_signed c p body did ≡ true
  pub known : lookup did ctx.devices ≡ some rec
  pub registered_now : status_eq rec.status registered ≡ true
  pub role_fits : role_valid_for_type rec.device_type rec.role ≡ true
  pub has_role : rec.role ≡ some role
  pub permitted : check_policy body.resource body.operation role ≡ true

current_decision-allowed :
    (o : Option DeviceRecord) (body : VerifyRequest) (epoch_id : Option Value)
    → (current_decision o body epoch_id).allowed ≡ true
    → (rec : DeviceRecord) × (role : Str) × (o ≡ some rec)
      × (status_eq rec.status registered ≡ true)
      × (role_valid_for_type rec.device_type rec.role ≡ true)
      × (rec.role ≡ some role)
      × (check_policy body.resource body.operation role ≡ true)
unfolding current_decision
current_decision-allowed none body epoch_id h = absurd (ground arith)
current_decision-allowed (some rec) body epoch_id h = elim (Option-cases rec.role) [
  | inl no_role ↦ absurd (ground arith)
  | inr (role, has) ↦ (rec, role, refl, ground arith, ground arith, has, ground arith)
]

-- Without an anchored root nothing is accepted.
no_root :
    (c : Crypto) (pkg : ProofPackage) (fog_pk : Bytes) (r : VerificationResult)
    → verify_proof_package c pkg none fog_pk ≡ ok r
    → r.accepted ≡ false
unfolding verify_proof_package
no_root c pkg fog_pk r h = ground arith

module _ (c : Crypto) (p : Parser) (ctx : FogContext) (pkg : Object) where
  identity-proven :
      identity_check_of c p ctx pkg ≡ none
      → (parsed : ProofPackage) × (n : ℕ) × (root : Str) × (r : VerificationResult)
        × (p.proof_package pkg ≡ some parsed)
        × (int_of (lookup (codes "epoch_id") pkg) ≡ some n)
        × (get_root ctx.ledger n ≡ some root)
        × (verify_proof_package c parsed (some root) (public_key_bytes c ctx.signing_key) ≡ ok r)
        × (r.accepted ≡ true)
  unfolding identity_check_of
  identity-proven h = elim (Option-cases (p.proof_package pkg)) [
    | inl refused ↦ absurd (ground arith)
    | inr (parsed, is_parsed) ↦ elim (Option-cases (int_of (lookup (codes "epoch_id") pkg))) [
      | inl no_epoch ↦
          elim (Result-cases
            (verify_proof_package c parsed none (public_key_bytes c ctx.signing_key))) [
              | inr (x, raised) ↦ absurd (ground arith)
              | inl (r, checked) ↦
                  absurd (ground (arith, no_root c parsed (public_key_bytes c ctx.signing_key) r))
            ]
      | inr (n, has_epoch) ↦ elim (Option-cases (get_root ctx.ledger n)) [
        | inl no_anchor ↦
            elim (Result-cases
              (verify_proof_package c parsed none (public_key_bytes c ctx.signing_key))) [
                | inr (x, raised) ↦ absurd (ground arith)
                | inl (r, checked) ↦
                    absurd (ground (arith, no_root c parsed (public_key_bytes c ctx.signing_key) r))
              ]
        | inr (root, anchored) ↦
            elim (Result-cases
              (verify_proof_package c parsed (some root) (public_key_bytes c ctx.signing_key))) [
                | inr (x, raised) ↦ absurd (ground arith)
                | inl (r, checked) ↦
                    (parsed, n, root, r, is_parsed, has_epoch, anchored, checked, ground arith)
              ]
      ]
    ]
  ]

module _ (c : Crypto) (p : Parser) (ctx : FogContext) (body : VerifyRequest) where
  decision-allowed :
      (d : VerifyDecision)
      → verify_decision c p ctx body ≡ ok d
      → d.allowed ≡ true
      → (did role : Str) × (pkg : ProofPackage) × (r : VerificationResult) × (rec : DeviceRecord)
        × IsAuthorized c p ctx body did role pkg r rec
  unfolding verify_decision
  decision-allowed d h a = elim (Option-cases (identity_check_of c p ctx body.proof_package)) [
    | inr (why, denied) ↦ absurd (ground arith)
    | inl proven ↦ elim (Result-cases (text_item (codes "did") body.proof_package)) [
      | inr (x, raised) ↦ absurd (ground arith)
      | inl (did, has_did) ↦
          let epoch_id = lookup (codes "epoch_id") body.proof_package in
          let signed : request_signed c p body did ≡ true = ground arith in
          let allowed : (current_decision (lookup did ctx.devices) body epoch_id).allowed ≡ true =
            ground arith in
          let (rec, role, known, status, fits, has, permitted) =
            current_decision-allowed (lookup did ctx.devices) body epoch_id allowed in
          let (pkg, n, root, r, parsed, epoch, anchored, checked, accepted) =
            identity-proven c p ctx body.proof_package proven in
          (
            did,
            role,
            pkg,
            r,
            rec,
            record {
              request_did = has_did;
              parsed = parsed;
              epoch = (n, root, epoch, anchored, checked);
              proven = accepted;
              signed = signed;
              known = known;
              registered_now = status;
              role_fits = fits;
              has_role = has;
              permitted = permitted;
            },
          )
    ]
  ]

module _ (c : Crypto) (p : Parser) (ctx : FogContext) (body : VerifyRequest) where
  -- The checks behind the nonce do not look at the book of nonces.
  nonce-allowed :
      (ctx' : FogContext) (now : ℕ) (d : VerifyDecision) (status : NonceStatus) (book : NonceBook)
      → consume ctx.token_state.nonces verify_nonce_purpose
          (py_str p (lookup (codes "did") body.proof_package))
          body.nonce
          now
        ≡ (status, book)
      → verify_and_authorize c p body now ctx ≡ (done d, ctx')
      → d.allowed ≡ true
      → (status ≡ nonce_ok)
        × (did role : Str) × (pkg : ProofPackage) × (r : VerificationResult) × (rec : DeviceRecord)
        × IsAuthorized c p ctx body did role pkg r rec
  unfolding verify_and_authorize
  nonce-allowed ctx' now d nonce_ok book taken h a =
      let after = record ctx { token_state = record ctx.token_state { nonces = book } } in
      elim (Result-cases (verify_decision c p after body)) [
        | inr (x, raised) ↦ absurd (ground arith)
        | inl (d', decided) ↦
            let allowed : d'.allowed ≡ true = ground arith in
            let (did, role, pkg, r, rec, w) = decision-allowed c p after body d' decided allowed in
            (
              refl,
              did,
              role,
              pkg,
              r,
              rec,
              record {
                request_did = w.request_did;
                parsed = w.parsed;
                epoch = w.epoch;
                proven = w.proven;
                signed = w.signed;
                known = w.known;
                registered_now = w.registered_now;
                role_fits = w.role_fits;
                has_role = w.has_role;
                permitted = w.permitted;
              },
            )
      ]
  nonce-allowed ctx' now d status book taken h a = absurd (ground arith)

  -- What is allowed had a nonce that the fog issued for the DID of the package, unused and in time;
  -- the package proves membership against the root that the ledger holds for its epoch; the request
  -- is signed by the key of the package; and the fog's own record says that the device is
  -- registered now, with a role that fits its type and that the policy permits the operation.
  pub verify_and_authorize-allow :
      (ctx' : FogContext) (now : ℕ) (d : VerifyDecision)
      → verify_and_authorize c p body now ctx ≡ (done d, ctx')
      → d.allowed ≡ true
      → (e : NonceEntry) × IsFresh ctx.token_state.nonces verify_nonce_purpose
          (py_str p (lookup (codes "did") body.proof_package))
          body.nonce
          now
          e
        × (did role : Str) × (pkg : ProofPackage) × (r : VerificationResult) × (rec : DeviceRecord)
        × IsAuthorized c p ctx body did role pkg r rec
  verify_and_authorize-allow ctx' now d h a =
      let subject = py_str p (lookup (codes "did") body.proof_package) in
      let answer = consume ctx.token_state.nonces verify_nonce_purpose subject body.nonce now in
      let (took, did, role, pkg, r, rec, w) = nonce-allowed ctx' now d answer.0 answer.1 refl h a in
      let taken : consume ctx.token_state.nonces verify_nonce_purpose subject body.nonce now
          ≡ (nonce_ok, answer.1) =
        cc in
      let (e, fresh, _, _) =
        consume-ok ctx.token_state.nonces verify_nonce_purpose subject body.nonce now answer.1
          taken in
      (e, fresh, did, role, pkg, r, rec, w)
