-- ===== src/Fog/Verification.antt =====
-- Verification and resource access (fog/verification/routes.py).
pub mod Authorize
use blockchain_io_t_a.Fog.Context.{◌>>=◌, ◌>>◌}
use blockchain_io_t_a.Common.Crypto.{Crypto, public_key_bytes, sign, verify}
use blockchain_io_t_a.Common.Schemas.{DeviceRecord, ProofPackage, registered, revoked, status_eq}
use blockchain_io_t_a.Fog.Context.{
  FogContext, Handler, check_that, done, gets, pure, set_tokens, uncaught, unknown_did,
}
use blockchain_io_t_a.Fog.TokenRoutes.{NonceResponse}
use blockchain_io_t_a.Ledger.{get_root, item}
use blockchain_io_t_a.Policy.{check_policy, role_valid_for_type}
use blockchain_io_t_a.Prelude.{
  Bool, Eq, Option, Result, [], attribute_error, false, if◌then◌else◌, nat_eq, none, not, ok, raise,
  some, text_eq, true, ℕ, ◌∷◌, ◌≡◌,
}
use blockchain_io_t_a.Prelude.Dict.{lookup}
use blockchain_io_t_a.Prelude.Json.{Object, Value, bool, null, num, real, str}
use blockchain_io_t_a.Prelude.Text.{Bytes, Str, codes, decimal, encode, from_hex, to_hex}
use blockchain_io_t_a.Proofs.{Reason, verify_proof_package}
use blockchain_io_t_a.Storage.{exists}
use blockchain_io_t_a.Tokens.Nonces.{NonceStatus, consume, issue_nonce, nonce_ok}
use blockchain_io_t_a.Tokens.Token.{join_bar, text_item}

abbrev pub verify_label : Bytes
verify_label = codes "IIOT_VERIFY_ACCESS_V1"

abbrev pub verify_nonce_purpose : Str
verify_nonce_purpose = codes "verify_access"

-- The proof package of a request as the JSON object that arrived.
pub record VerifyRequest : Type 0 where
  pub proof_package : Object
  pub resource : Str
  pub operation : Str
  pub nonce : Str
  pub signature : Str

pub data VerifyReason : Type 0 where
  verify_ok malformed_proof_package request_possession_failed : VerifyReason
  unknown_current_device device_revoked not_registered role_type_mismatch : VerifyReason
  request_policy_denied : VerifyReason
  request_nonce_refused : NonceStatus → VerifyReason
  proof_rejected : Reason → VerifyReason

pub record VerifyDecision : Type 0 where
  pub allowed : Bool
  pub reason : VerifyReason
  pub identity_verified : Bool
  pub epoch_id : Option Value
  pub role : Option Str

abbrev pub verify_deny : VerifyReason → Bool → Option Value → VerifyDecision
verify_deny reason identity_verified epoch_id = record {
  allowed = false;
  reason = reason;
  identity_verified = identity_verified;
  epoch_id = epoch_id;
  role = none;
}

-- `proof_package` is ProofPackage(**pkg), none where pydantic refuses it; `repr` is str() of a
-- nested list or dict.
pub record Parser : Type 0 where
  pub proof_package : Object → Option ProofPackage
  pub repr : Value → Str

-- What pydantic documents of the fields: a text stays as it is, and so does an int.
pub record KeepsFields (p : Parser) : Type 0 where
  pub keeps_did :
      (d : Object) (pkg : ProofPackage)
      → p.proof_package d ≡ some pkg
      → lookup (codes "did") d ≡ some (str pkg.did)
  pub keeps_public_key :
      (d : Object) (pkg : ProofPackage)
      → p.proof_package d ≡ some pkg
      → lookup (codes "public_key") d ≡ some (str pkg.public_key)

-- `str(value)`, where a missing key is None
unfoldable pub py_str : Parser → Option Value → Str
py_str p none = codes "None"
py_str p (some v) = elim v [
  | null ↦ codes "None"
  | bool b ↦ if b then codes "True" else codes "False"
  | num n ↦ decimal n
  | real s ↦ s
  | str s ↦ s
  | other ↦ p.repr other
]

-- `epoch_id if isinstance(epoch_id, int)`: a bool is an int
unfoldable pub int_of : Option Value → Option ℕ
int_of none = none
int_of (some v) = elim v [ num n ↦ some n | bool b ↦ some (if b then 1 else 0) | _ ↦ none ]

unfoldable pub verify_message : Str → Str → Str → Str → Str → Bytes
unfolding join_bar
verify_message did epoch_text nonce resource operation = join_bar (
    verify_label
    ∷ encode did
    ∷ encode epoch_text
    ∷ encode nonce
    ∷ encode resource
    ∷ encode operation
    ∷ [])

unfoldable pub verify_nonce : Str → Str → ℕ → Handler NonceResponse
verify_nonce did fresh now = do
  ctx ← gets (λ ctx. ctx)
  check_that (exists ctx.devices did) 404 unknown_did
  let ts = ctx.token_state
  set_tokens (record ts { nonces = issue_nonce ts.nonces verify_nonce_purpose did fresh now })
  pure (record { subject = did; nonce = fresh; expires_in = ts.nonces.ttl })

-- `bytes.fromhex(text) if _is_hex(text) else b""`
abbrev pub bytes_or_empty : Option Bytes → Bytes
bytes_or_empty none = []
bytes_or_empty (some b) = b

-- `bytes.fromhex(pkg["public_key"])`, or b"" where that raises
unfoldable pub package_key : Object → Bytes
package_key pkg = elim (lookup (codes "public_key") pkg) [
  | none ↦ []
  | some v ↦ elim v [ str s ↦ bytes_or_empty (from_hex s) | _ ↦ [] ]
]

-- Checks 4 to 6: what the fog's own record lets the device do now.
unfoldable pub current_decision :
    Option DeviceRecord → VerifyRequest → Option Value → VerifyDecision
current_decision none body epoch_id = verify_deny unknown_current_device true epoch_id
current_decision (some rec) body epoch_id =
    if status_eq rec.status revoked
    then verify_deny device_revoked true epoch_id
    else if not (status_eq rec.status registered)
    then verify_deny not_registered true epoch_id
    else if not (role_valid_for_type rec.device_type rec.role)
    then verify_deny role_type_mismatch true epoch_id
    else elim rec.role [
      | none ↦ verify_deny request_policy_denied true epoch_id
      | some r ↦
          if check_policy body.resource body.operation r
          then record {
            allowed = true;
            reason = verify_ok;
            identity_verified = true;
            epoch_id = epoch_id;
            role = some r;
          }
          else verify_deny request_policy_denied true epoch_id
    ]

module _ (c : Crypto) (p : Parser) where
  unfoldable pub sign_verify_request : ℕ → Object → Str → Str → Str → Result Str
  unfolding item text_item
  sign_verify_request device_key pkg nonce resource operation = elim (text_item (codes "did") pkg) [
    | raise x ↦ raise x
    | ok did ↦ elim (item (codes "epoch_id") pkg) [
      | raise x ↦ raise x
      | ok epoch ↦ ok (
          to_hex (
            sign c device_key
              (verify_message did (py_str p (some epoch)) nonce resource operation)))
    ]
  ]

  -- Check 2: the identity, or the answer that denies it. Whatever parsing or checking raises is
  -- caught.
  unfoldable pub identity_check_of : FogContext → Object → Option VerifyReason
  identity_check_of ctx pkg =
      let trusted : Option Str = elim (int_of (lookup (codes "epoch_id") pkg)) [
        | none ↦ none
        | some n ↦ get_root ctx.ledger n
      ] in
      elim (p.proof_package pkg) [
        | none ↦ some malformed_proof_package
        | some parsed ↦
            elim (verify_proof_package c parsed trusted (public_key_bytes c ctx.signing_key)) [
              | raise _ ↦ some malformed_proof_package
              | ok r ↦ if r.accepted then none else some (proof_rejected r.reason)
            ]
      ]

  -- Check 3: the request is signed by the key of the package.
  unfoldable pub request_signed : VerifyRequest → Str → Bool
  request_signed body did =
      verify c (package_key body.proof_package)
        (verify_message did (py_str p (lookup (codes "epoch_id") body.proof_package)) body.nonce
          body.resource body.operation)
        (bytes_or_empty (from_hex body.signature))

  -- The checks behind the nonce. `did.encode()` dies where `did` is no text.
  unfoldable pub verify_decision : FogContext → VerifyRequest → Result VerifyDecision
  verify_decision ctx body =
      let pkg = body.proof_package in
      let epoch_id = lookup (codes "epoch_id") pkg in
      elim (identity_check_of ctx pkg) [
        | some reason ↦ ok (verify_deny reason false epoch_id)
        | none ↦ elim (text_item (codes "did") pkg) [
          | raise x ↦ raise attribute_error
          | ok did ↦ ok (
              if request_signed body did
              then current_decision (lookup did ctx.devices) body epoch_id
              else verify_deny request_possession_failed true epoch_id)
        ]
      ]

  unfoldable pub verify_and_authorize : VerifyRequest → ℕ → Handler VerifyDecision
  verify_and_authorize body now ctx =
      let ts = ctx.token_state in
      let pkg = body.proof_package in
      let (status, book) =
        consume ts.nonces verify_nonce_purpose (py_str p (lookup (codes "did") pkg)) body.nonce
          now in
      let ctx' = record ctx { token_state = record ts { nonces = book } } in
      elim status [
        | nonce_ok ↦ uncaught (verify_decision ctx' body) ctx'
        | other ↦ (
          done (verify_deny (request_nonce_refused other) false (lookup (codes "epoch_id") pkg)),
          ctx',
        )
      ]
