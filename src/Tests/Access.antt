-- ===== src/Tests/Access.antt =====
-- A device with a token and a proof package: both are let in, and the device is then revoked.
use blockchain_io_t_a.Common.Crypto.{load_public_key, verify}
use blockchain_io_t_a.Common.Schemas.{DeviceRecord, ProofPackage, registered, revoked}
use blockchain_io_t_a.Fog.Context.{FogContext, done}
use blockchain_io_t_a.Fog.EpochRoutes.{admin_only}
use blockchain_io_t_a.Fog.Revocation.{
  RevokeRequest, RevokeResponse, is_device_revoked, revoke, revoke_all, revoke_device, revoke_one,
  revoke_whole,
}
use blockchain_io_t_a.Fog.Revocation.Denied.{revoke-denies}
use blockchain_io_t_a.Fog.Revocation.Immediate.{revoke-marks}
use blockchain_io_t_a.Fog.TokenRoutes.{
  TokenAccessRequest, access_decision, access_with_nonce, allow, policy_allows, scope_allows,
  scope_and_policy, tokens_access,
}
use blockchain_io_t_a.Fog.TokenRoutes.Access.{IsGranted, IsUsed, tokens_access-allow}
use blockchain_io_t_a.Fog.TokenRoutes.Replay.{tokens_access-replay}
use blockchain_io_t_a.Fog.Verification.{
  Parser, VerifyDecision, VerifyRequest, current_decision, identity_check_of, int_of, package_key,
  py_str, request_signed, sign_verify_request, verify_and_authorize, verify_decision,
  verify_message, verify_nonce_purpose, verify_ok,
}
use blockchain_io_t_a.Fog.Verification.Authorize.{IsAuthorized, verify_and_authorize-allow}
use blockchain_io_t_a.Ledger.{bytes_of, item}
use blockchain_io_t_a.Policy.{
  check_policy, controller, policy_table, provisional_allowed, role_valid_for_type, roles_for_type,
}
use blockchain_io_t_a.Prelude.{
  Option, Result, [], false, nat_eq, none, ok, raise, refl, some, text_eq, true, ℕ, ◌∷◌, ◌≡◌, ◌≢◌,
}
use blockchain_io_t_a.Prelude.Dict.{lookup}
use blockchain_io_t_a.Prelude.Json.{Object, compound, num, str}
use blockchain_io_t_a.Prelude.Text.{Str, codes, to_hex}
use blockchain_io_t_a.Proofs.{
  VerificationResult, check_membership, check_signature, recompute_leaf, verify_proof_package,
}
use blockchain_io_t_a.Storage.{exists, set_status, text_is}
use blockchain_io_t_a.Tests.Epochs.{
  after_add, close_run, closed_result, closed_state, did_a, epoch_runs, key_a, package_a,
  package_of, queued_manager, result_of,
}
use blockchain_io_t_a.Tests.Toy.{toy}
use blockchain_io_t_a.Tokens.Nonces.{
  NonceEntry, consume, is_dead, is_revoked, owner_of, revoke_id, tokens_in, tokens_of,
}
use blockchain_io_t_a.Tokens.Nonces.Once.{IsFresh}
use blockchain_io_t_a.Tokens.Token.{
  access_message, access_signature_valid, issue_token, join_bar, late_text, sign_access,
  signed_fields, text_item, token_expired, token_fields, token_nonce_purpose, token_signature_valid,
}

abbrev record_a : DeviceRecord
record_a = record {
  did = did_a;
  public_key = to_hex key_a;
  status = registered;
  device_name = some (codes "plc_1");
  device_type = some (codes "plc");
  zone = some (codes "zone_1");
  vendor = some (codes "ABB");
  role = some controller;
  leaf = none;
  epoch_id = some 1;
}

abbrev token_nonce : Str
token_nonce = codes "nonce1"

abbrev request_nonce : Str
request_nonce = codes "nonce2"

unfoldable pub access_runs : Unit {0}
unfolding epoch_runs token_fields access_message join_bar item bytes_of text_item signed_fields
    issue_token token_signature_valid sign_access access_signature_valid late_text token_expired
    tokens_access access_with_nonce access_decision scope_and_policy policy_allows scope_allows
    provisional_allowed check_policy policy_table is_device_revoked is_revoked consume is_dead
    verify load_public_key py_str int_of verify_message package_key current_decision
    sign_verify_request identity_check_of request_signed verify_decision verify_and_authorize
    verify_proof_package recompute_leaf check_membership check_signature role_valid_for_type
    roles_for_type revoke revoke_one revoke_whole admin_only revoke_device revoke_all revoke_id
    tokens_of tokens_in exists set_status closed_state close_run queued_manager after_add package_a
    package_of closed_result result_of
access_runs = tt

token : Object
unfolding access_runs
token =
    issue_token toy did_a (to_hex key_a) (some (codes "plc")) (some controller) 77 120 (some 1)
      (codes "t1") 10

entry : Str → Str → NonceEntry
entry purpose subject = record {
  purpose = purpose;
  subject = subject;
  expires_at = 50;
  used = false;
}

abbrev ctx : FogContext
ctx = record {
  fog_id = codes "fog_A";
  zone = codes "zone_1";
  signing_key = 77;
  psk_store = [];
  sessions = record { ttl = 300; sessions = [] };
  devices = (did_a, record_a) ∷ [];
  ledger = closed_state.ledger;
  epochs = closed_state.manager;
  challenge_ttl = 60;
  admin_key = codes "admin";
  allowed_types = codes "plc" ∷ [];
  token_state = record {
    issued = (codes "t1", did_a) ∷ [];
    revoked_ids = [];
    nonces = record {
      ttl = 30;
      entries =
          (token_nonce, entry token_nonce_purpose (codes "t1"))
          ∷ (request_nonce, entry verify_nonce_purpose did_a)
          ∷ [];
    };
  };
}

text_or_empty : Result Str → Str
text_or_empty (ok s) = s
text_or_empty (raise x) = []

request : TokenAccessRequest
unfolding access_runs token text_or_empty
request = record {
  token = token;
  nonce = token_nonce;
  resource = codes "plc";
  operation = codes "write";
  signature = text_or_empty (sign_access toy 11 token token_nonce (codes "plc") (codes "write"));
}

no_float : Str → Option ℕ
no_float s = none

used_ctx : FogContext
unfolding access_runs token entry request text_or_empty
used_ctx = (tokens_access toy no_float request 20 20 ctx).1

allowed : tokens_access toy no_float request 20 20 ctx ≡ (done allow, used_ctx)
unfolding access_runs token entry request text_or_empty used_ctx
allowed = refl

tokens_access-allow_example :
    (tid did own_type role : Str) × (e : NonceEntry) × IsGranted toy no_float ctx request 20 20 tid
      did own_type role e
    × IsUsed toy ctx used_ctx request e
tokens_access-allow_example = tokens_access-allow toy ctx used_ctx request no_float 20 20 allowed

path_text : Str
path_text = codes "path"

abbrev package_object : Object
package_object =
    (codes "did", str did_a)
    ∷ (codes "public_key", str (to_hex key_a))
    ∷ (codes "epoch_id", num 1)
    ∷ (codes "proof_path", compound path_text)
    ∷ []

-- It reads the package of this device, whatever the path says.
abbrev parser : Parser
parser = record { proof_package = λ d. some package_a; repr = λ v. [] }

access : VerifyRequest
unfolding access_runs text_or_empty
access = record {
  proof_package = package_object;
  resource = codes "plc";
  operation = codes "stop";
  nonce = request_nonce;
  signature =
      text_or_empty (
        sign_verify_request toy parser 11 package_object request_nonce (codes "plc")
          (codes "stop"));
}

answered_ctx : FogContext
unfolding access_runs entry access text_or_empty
answered_ctx = (verify_and_authorize toy parser access 20 ctx).1

abbrev yes_decision : VerifyDecision
yes_decision = record {
  allowed = true;
  reason = verify_ok;
  identity_verified = true;
  epoch_id = some (num 1);
  role = some controller;
}

authorized : verify_and_authorize toy parser access 20 ctx ≡ (done yes_decision, answered_ctx)
unfolding access_runs entry access text_or_empty answered_ctx
authorized = refl

verify_and_authorize-allow_example :
    (e : NonceEntry) × IsFresh ctx.token_state.nonces verify_nonce_purpose
      (py_str parser (lookup (codes "did") access.proof_package))
      access.nonce
      20
      e
    × (did role : Str) × (pkg : ProofPackage) × (r : VerificationResult) × (rec : DeviceRecord)
    × IsAuthorized toy parser ctx access did role pkg r rec
verify_and_authorize-allow_example =
    verify_and_authorize-allow toy parser ctx access answered_ctx 20 yes_decision authorized refl

abbrev revocation : RevokeRequest
revocation = record { did = did_a; token_id = none; token_only = false }

abbrev revoked_response : RevokeResponse
revoked_response = record { did = did_a; status = revoked; revoked_tokens = codes "t1" ∷ [] }

revoked_ctx : FogContext
unfolding access_runs
revoked_ctx = (revoke revocation (some (codes "admin")) ctx).1

was_revoked : revoke revocation (some (codes "admin")) ctx ≡ (done revoked_response, revoked_ctx)
unfolding access_runs revoked_ctx
was_revoked = refl

revoke-marks_example :
    (text_is (some (codes "admin")) ctx.admin_key ≡ true)
    × (is_device_revoked revoked_ctx.devices revocation.did ≡ true)
    × ((t : Str)
        → owner_of ctx.token_state t ≡ some revocation.did
        → is_revoked revoked_ctx.token_state t ≡ true)
    × (revoked_ctx.ledger ≡ ctx.ledger)
    × (revoked_ctx.epochs ≡ ctx.epochs)
revoke-marks_example =
    revoke-marks toy ctx revoked_ctx revocation (some (codes "admin")) revoked_response was_revoked
      refl

revoke-denies_example :
    ((float_of : Str → Option ℕ) (body : TokenAccessRequest) (now now' : ℕ)
        (closed_state : FogContext)
      → text_item (codes "did") body.token ≡ ok revocation.did
      → tokens_access toy float_of body now now' revoked_ctx ≢ (done allow, closed_state))
    × ((p : Parser) (body : VerifyRequest) (now : ℕ) (d : VerifyDecision)
          (closed_state : FogContext)
        → text_item (codes "did") body.proof_package ≡ ok revocation.did
        → verify_and_authorize toy p body now revoked_ctx ≡ (done d, closed_state)
        → d.allowed ≡ false)
revoke-denies_example =
    revoke-denies toy ctx revoked_ctx (some (codes "admin")) revocation revoked_response was_revoked
      refl revoked_ctx refl

tokens_access-replay_example :
    tokens_access toy no_float request 21 21 used_ctx ≢ (done allow, used_ctx)
tokens_access-replay_example =
    tokens_access-replay toy ctx used_ctx request no_float 20 20 allowed used_ctx used_ctx request
      21 21 refl refl
