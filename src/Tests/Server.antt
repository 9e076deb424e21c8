-- ===== src/Tests/Server.antt =====
-- A fog that is started, registers a device, closes an epoch and revokes the device.
use blockchain_io_t_a.Common.Canonical.{pop_message}
use blockchain_io_t_a.Common.Crypto.{derive_did, sign}
use blockchain_io_t_a.Common.Schemas.{MetadataRequest, ProofPackage}
use blockchain_io_t_a.Epochs.{epoch_manager, first_epoch}
use blockchain_io_t_a.Fog.App.{create_app, fog_zone}
use blockchain_io_t_a.Fog.Context.{FogContext, Outcome, crash, done, http, is_done}
use blockchain_io_t_a.Fog.EpochRoutes.{epoch_close, get_proof_route}
use blockchain_io_t_a.Fog.Pop.{issue_challenge, pop_reason, verify_pop}
use blockchain_io_t_a.Fog.Registration.{
  register_start, parse_public_key, register_metadata, register_pop, register_pubkey, require_state,
  session_or_404,
}
use blockchain_io_t_a.Fog.Revocation.{RevokeRequest, RevokeResponse, revoke}
use blockchain_io_t_a.Fog.Revocation.Denied.{IsDenied}
use blockchain_io_t_a.Fog.Server.{
  Request, post_close, post_metadata, post_pop, post_pubkey, post_revoke, post_start, serve,
  serve_all, timer,
}
use blockchain_io_t_a.Fog.Server.Banned.{revoke-forever}
use blockchain_io_t_a.Fog.Server.Kept.{serve_all-IsSound}
use blockchain_io_t_a.Fog.Server.Restarted.{create_app-restart}
use blockchain_io_t_a.Fog.Server.Roots.{serve_all-get_root}
use blockchain_io_t_a.Fog.Server.Served.{create_app-IsSound, get_proof_route-Verifies}
use blockchain_io_t_a.Fog.Server.Sound.{IsAnchored, IsSound}
use blockchain_io_t_a.Fog.Validation.{chomp, name_fits, name_matches, validate_metadata}
use blockchain_io_t_a.Fog.Verification.{Parser}
use blockchain_io_t_a.Ledger.{cache_from, get_root, latest_epoch, open_ledger}
use blockchain_io_t_a.Policy.{controller}
use blockchain_io_t_a.Prelude.{
  Bool, List, Option, Result, [], false, none, ok, raise, refl, some, true, ℕ, ◌∷◌, ◌≡◌,
}
use blockchain_io_t_a.Prelude.Text.{Bytes, Str, codes, to_hex}
use blockchain_io_t_a.Psk.{
  PskStore, check, is_blank, parse_authorization, parse_credentials, split_once, strip_left,
  strip_right,
}
use blockchain_io_t_a.Storage.{uses_did, create_session, did_in_use, get_session, upsert}
use blockchain_io_t_a.Tests.Access.{access_runs}
use blockchain_io_t_a.Tests.Epochs.{epoch_runs, test_clock}
use blockchain_io_t_a.Tests.Possession.{waiting_fog}
use blockchain_io_t_a.Tests.Toy.{toy, toy-Sound, toy_runs}

abbrev psk_entries : PskStore
psk_entries = (codes "temp01", to_hex (toy.sha256 (0 ∷ 255 ∷ []))) ∷ []

served_did : Str
unfolding toy_runs derive_did
served_did = derive_did toy (toy.public_point 11)

nonce_bytes : Bytes
nonce_bytes = 1 ∷ 2 ∷ 3 ∷ []

served_proof : Str
unfolding toy_runs sign pop_message derive_did served_did nonce_bytes
served_proof = to_hex (sign toy 11 (pop_message nonce_bytes served_did))

abbrev described : MetadataRequest
described = record {
  session_id = codes "s1";
  device_name = codes "plc_1";
  device_type = codes "plc";
  zone = fog_zone;
  vendor = codes "Acme";
  role = controller;
}

abbrev enrolment : List Request
enrolment =
    post_start (some (codes "PSK temp01:00ff")) (codes "s1") 1
    ∷ post_pubkey
        (record {
          session_id = codes "s1";
          did = served_did;
          public_key = to_hex (toy.public_point 11);
        })
        nonce_bytes 2 2
    ∷ post_pop (record { session_id = codes "s1"; signature = served_proof }) 3 3 3
    ∷ post_metadata described 4 4
    ∷ post_close [] (some (codes "admin")) test_clock
    ∷ []

no_parser : Parser
no_parser = record { proof_package = λ d. none; repr = λ v. [] }

no_number : Str → Option ℕ
no_number s = none

unfoldable started : Result FogContext → FogContext
started (ok ctx) = ctx
started (raise x) = waiting_fog

abbrev creation : Result FogContext
creation = create_app toy psk_entries 77 none 60 300 true (codes "admin")

fresh_fog : FogContext
unfolding epoch_runs create_app open_ledger cache_from epoch_manager latest_epoch first_epoch
    started
fresh_fog = started creation

created : creation ≡ ok fresh_fog
unfolding epoch_runs create_app open_ledger cache_from epoch_manager latest_epoch first_epoch
    started fresh_fog
created = refl

fresh-IsSound : IsSound toy fresh_fog
fresh-IsSound = create_app-IsSound toy psk_entries 77 60 300 true (codes "admin") fresh_fog created

unfoldable serve_runs : Unit {0}
unfolding access_runs pop_message verify_pop pop_reason register_pop session_or_404 require_state
    upsert get_session fresh_fog started create_app open_ledger cache_from epoch_manager
    latest_epoch first_epoch serve_all serve register_start register_pubkey register_metadata
    epoch_close parse_authorization check split_once strip_left strip_right is_blank
    parse_credentials create_session parse_public_key derive_did did_in_use uses_did issue_challenge
    validate_metadata name_matches name_fits chomp served_did served_proof nonce_bytes
    get_proof_route
serve_runs = tt

serve_all-IsSound_example : IsSound toy (serve_all toy no_parser no_number enrolment fresh_fog)
serve_all-IsSound_example =
    serve_all-IsSound toy toy-Sound no_parser no_number enrolment fresh_fog fresh-IsSound

answer_in :
    {A : Type 0} (r : Outcome A × FogContext) → is_done r.0 ≡ true → (a : A) × (r ≡ (done a, r.1))
answer_in (done a, ctx) h = (a, refl)
answer_in (http status detail, ctx) h = cc
answer_in (crash x, ctx) h = cc

abbrev proof_answer : Outcome ProofPackage × FogContext
proof_answer =
    get_proof_route served_did none (serve_all toy no_parser no_number enrolment fresh_fog)

proof_given : is_done proof_answer.0 ≡ true
unfolding serve_runs
proof_given = refl

get_proof_route-Verifies_example :
    IsAnchored toy
      (serve_all toy no_parser no_number enrolment fresh_fog).signing_key
      (serve_all toy no_parser no_number enrolment fresh_fog).ledger
      served_did
      (answer_in proof_answer proof_given).0
get_proof_route-Verifies_example =
    get_proof_route-Verifies toy toy-Sound no_parser no_number psk_entries 77 60 300 true
      (codes "admin") fresh_fog proof_answer.1 enrolment created served_did none
      (answer_in proof_answer proof_given).0 (answer_in proof_answer proof_given).1

root_of : Option Str → Str
root_of none = []
root_of (some r) = r

is_some : Option Str → Bool
is_some none = false
is_some (some r) = true

root_there : (o : Option Str) → is_some o ≡ true → o ≡ some (root_of o)
unfolding root_of is_some
root_there none h = cc
root_there (some r) h = refl

abbrev enrolled : FogContext
enrolled = serve_all toy no_parser no_number enrolment fresh_fog

anchored_once : is_some (get_root enrolled.ledger 1) ≡ true
unfolding serve_runs is_some
anchored_once = refl

abbrev served_revocation : RevokeRequest
served_revocation = record { did = served_did; token_id = none; token_only = false }

abbrev later_requests : List Request
later_requests =
    post_revoke (record { did = served_did; token_id = none; token_only = false })
      (some (codes "admin"))
    ∷ timer test_clock
    ∷ []

enrolled-IsSound : IsSound toy enrolled
enrolled-IsSound =
    serve_all-IsSound toy toy-Sound no_parser no_number enrolment fresh_fog fresh-IsSound

serve_all-get_root_example :
    get_root (serve_all toy no_parser no_number later_requests enrolled).ledger 1
    ≡ some (root_of (get_root enrolled.ledger 1))
serve_all-get_root_example =
    serve_all-get_root toy toy-Sound no_parser no_number later_requests enrolled enrolled-IsSound 1
      (root_of (get_root enrolled.ledger 1)) (root_there (get_root enrolled.ledger 1) anchored_once)

abbrev revoke_answer : Outcome RevokeResponse × FogContext
revoke_answer = revoke served_revocation (some (codes "admin")) enrolled

revocation_done : is_done revoke_answer.0 ≡ true
unfolding serve_runs
revocation_done = refl

revoke-forever_example :
    IsDenied toy (serve_all toy no_parser no_number enrolment revoke_answer.1) served_did
revoke-forever_example =
    revoke-forever toy toy-Sound no_parser no_number enrolled revoke_answer.1 served_revocation
      (some (codes "admin")) (answer_in revoke_answer revocation_done).0 enrolment enrolled-IsSound
      (answer_in revoke_answer revocation_done).1 refl

create_app-restart_example :
    (restarted : FogContext) × (create_app toy [] 77 enrolled.ledger.file 60 300 true
        (codes "admin")
      ≡ ok restarted)
    × (restarted.ledger ≡ enrolled.ledger)
create_app-restart_example =
    create_app-restart toy toy-Sound no_parser no_number enrolment psk_entries [] 77 60 300 true
      (codes "admin") fresh_fog created
