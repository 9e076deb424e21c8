-- ===== src/Tests/Possession.antt =====
-- A proof of possession, run on a session and through its handler.
use blockchain_io_t_a.Common.Canonical.{pop_message}
use blockchain_io_t_a.Common.Crypto.{sign}
use blockchain_io_t_a.Common.Schemas.{PopRequest}
use blockchain_io_t_a.Devices.{new_device, sign_challenge}
use blockchain_io_t_a.Devices.Honest.{sign_access-valid, sign_challenge-verify_pop}
use blockchain_io_t_a.Fog.App.{new_token_state}
use blockchain_io_t_a.Fog.Context.{FogContext, PopReason, done, no_active_challenge}
use blockchain_io_t_a.Fog.Pop.{issue_challenge, pop_reason, verify_pop}
use blockchain_io_t_a.Fog.Pop.Possession.{IsProof, verify_pop-once}
use blockchain_io_t_a.Fog.Registration.{PopResponse, register_pop, require_state, session_or_404}
use blockchain_io_t_a.Fog.Registration.Possession.{IsRegistered, register_pop-done}
use blockchain_io_t_a.Policy.{controller}
use blockchain_io_t_a.Prelude.{
  Option, Result, [], arith, false, none, ok, refl, some, true, ℕ, ◌∷◌, ◌≡◌,
}
use blockchain_io_t_a.Prelude.Json.{Object}
use blockchain_io_t_a.Prelude.Text.{Bytes, Str, codes, to_hex}
use blockchain_io_t_a.Storage.{Session, get_session, key_submitted, pop_verified, upsert}
use blockchain_io_t_a.Tests.Access.{access_runs}
use blockchain_io_t_a.Tests.Epochs.{did_a, empty_ledger, empty_manager, key_a}
use blockchain_io_t_a.Tests.Toy.{toy, toy-Sound}
use blockchain_io_t_a.Tokens.Token.{
  access_signature_valid, issue_token, sign_access, token_signature_valid,
}

abbrev challenge : Bytes
challenge = 1 ∷ 2 ∷ 3 ∷ []

abbrev pop_session : Session
pop_session = record {
  session_id = codes "s1";
  provisioning_id = codes "prov";
  created_at = 1;
  state = key_submitted;
  did = some did_a;
  public_key = some (to_hex key_a);
  challenge = some (to_hex challenge);
  challenge_expires = 60;
  challenge_used = false;
  timings = [];
}

proof : Str
unfolding access_runs pop_message
proof = to_hex (sign toy 11 (pop_message challenge did_a))

abbrev good : Result (Option PopReason)
good = ok none

abbrev proven_session : Session
proven_session = record pop_session { challenge_used = true }

proved : verify_pop toy pop_session proof 30 ≡ (good, proven_session)
unfolding access_runs pop_message proof verify_pop pop_reason
proved = refl

verify_pop-once_example :
    (good ≡ ok none
      → (challenge did : Str) × (pk challenge_bytes signature : Bytes) × IsProof toy pop_session
          proof 30 challenge did pk challenge_bytes signature)
    × ((again : Str) (later : ℕ)
        → verify_pop toy proven_session again later
          ≡ (ok (some no_active_challenge), proven_session))
    × (proven_session.state ≡ pop_session.state)
    × (proven_session.did ≡ pop_session.did)
    × (proven_session.public_key ≡ pop_session.public_key)
verify_pop-once_example = verify_pop-once toy pop_session proof 30 proven_session good proved

abbrev fresh_session : Session
fresh_session = record pop_session {
  did = some (new_device toy (codes "plc_1") [] 11).did;
  public_key = some (to_hex (new_device toy (codes "plc_1") [] 11).pk_bytes);
}

sign_challenge-verify_pop_example :
    (signature : Str) × (sign_challenge toy
        (new_device toy (codes "plc_1") [] 11)
        (to_hex challenge)
      ≡ ok signature)
    × ((verify_pop toy (issue_challenge fresh_session 30 challenge 5) signature 20).0 ≡ good)
sign_challenge-verify_pop_example =
    sign_challenge-verify_pop toy toy-Sound (codes "plc_1") [] 11 fresh_session 30 5 20 challenge
      (omega arith) refl refl (omega arith)

token_of_device : Object
token_of_device =
    issue_token toy (new_device toy (codes "plc_1") [] 11).did
      (to_hex (new_device toy (codes "plc_1") [] 11).pk_bytes) (some (codes "plc"))
      (some controller) 77 120 (some 1) (codes "t9") 10

sign_access-valid_example :
    (token_signature_valid toy token_of_device 77 ≡ true)
    × (signature : Str) × (sign_access toy 11 token_of_device
          (codes "n")
          (codes "plc")
          (codes "read")
        ≡ ok signature)
    × (access_signature_valid toy token_of_device (codes "n") (codes "plc") (codes "read") signature
        ≡ true)
unfolding token_of_device
sign_access-valid_example =
    sign_access-valid toy toy-Sound (codes "plc_1") [] 11 77 120 10 (some (codes "plc"))
      (some controller) (some 1) (codes "t9") (codes "n") (codes "plc") (codes "read")

abbrev pub waiting_fog : FogContext
waiting_fog = record {
  fog_id = codes "fog_A";
  zone = codes "zone_1";
  signing_key = 77;
  psk_store = [];
  sessions = record { ttl = 300; sessions = (codes "s1", pop_session) ∷ [] };
  devices = [];
  ledger = empty_ledger;
  epochs = empty_manager;
  challenge_ttl = 60;
  admin_key = codes "admin";
  allowed_types = codes "plc" ∷ [];
  token_state = new_token_state;
}

pop_request : PopRequest
pop_request = record { session_id = codes "s1"; signature = proof }

answered_context : FogContext
unfolding access_runs pop_message proof verify_pop pop_reason register_pop session_or_404
    require_state upsert get_session pop_request
answered_context = (register_pop toy pop_request 20 30 31 waiting_fog).1

abbrev pop_response : PopResponse
pop_response = record { session_id = codes "s1"; did = did_a; status = pop_verified }

registered_pop :
    register_pop toy pop_request 20 30 31 waiting_fog ≡ (done pop_response, answered_context)
unfolding access_runs pop_message proof verify_pop pop_reason register_pop session_or_404
    require_state upsert get_session pop_request answered_context
registered_pop = refl

register_pop-done_example :
    (s : Session) × ((get_session waiting_fog.sessions pop_request.session_id 20).0 ≡ some s)
    × (challenge did : Str) × (pk challenge_bytes signature : Bytes) × IsRegistered toy waiting_fog
        answered_context pop_request 30 pop_response s challenge did pk challenge_bytes signature
register_pop-done_example =
    register_pop-done toy waiting_fog answered_context pop_request 20 30 31 pop_response
      registered_pop
