-- ===== src/Tests/Attacks.antt =====
-- The scenarios, run from a fresh fog on.
use blockchain_io_t_a.Devices
use blockchain_io_t_a.Devices.{returned}
use blockchain_io_t_a.Storage.{uses_did}
use blockchain_io_t_a.Fog.Registration
use blockchain_io_t_a.Attacks.{
  attack_expired_token, attack_replay, attack_revoked_token, attack_stolen_token, is_allow,
  is_expired, is_nonce_reused, is_possession_failed, is_token_revoked, queued_device,
}
use blockchain_io_t_a.Common.Canonical.{pop_message}
use blockchain_io_t_a.Common.Crypto.{derive_did}
use blockchain_io_t_a.Devices.{
  Client, default_metadata, demo_devices, new_device, post, prove_possession, session_of,
  sign_challenge, submit_metadata, submit_public_key,
}
use blockchain_io_t_a.Devices.Runtime.{
  build_token_request, get_token_nonce, request_token, token_access,
}
use blockchain_io_t_a.Epochs.{epoch_manager, first_epoch}
use blockchain_io_t_a.Fog.App.{
  carry_forward_active, challenge_ttl_seconds, create_app, default_admin_key, session_ttl_seconds,
}
use blockchain_io_t_a.Fog.Context.{FogContext}
use blockchain_io_t_a.Fog.Pop.{issue_challenge, pop_reason, verify_pop}
use blockchain_io_t_a.Fog.Registration.{
  parse_public_key, register_metadata, register_pop, register_pubkey, require_state, session_or_404,
}
use blockchain_io_t_a.Fog.TokenRoutes.{tokens_issue, tokens_nonce}
use blockchain_io_t_a.Fog.Validation.{chomp, name_fits, name_matches, validate_metadata}
use blockchain_io_t_a.Ledger.{cache_from, last_block, latest_epoch, open_ledger}
use blockchain_io_t_a.Prelude.{
  Bool, Option, Result, [], none, ok, raise, refl, some, true, ℕ, ◌++◌, ◌+◌, ◌∷◌, ◌≡◌,
}
use blockchain_io_t_a.Prelude.Text.{Str, codes}
use blockchain_io_t_a.Psk.{
  check, hash_psk, is_blank, parse_authorization, parse_credentials, split_once, strip_left,
  strip_right,
}
use blockchain_io_t_a.Storage.{create_session, did_in_use, get_session, upsert}
use blockchain_io_t_a.Tests.Access.{access_runs}
use blockchain_io_t_a.Tests.Toy.{toy}
use blockchain_io_t_a.Tokens.Nonces.{issue_nonce, purge, record_issued, was_issued}

abbrev psk_hex : Str
psk_hex = codes "00ff10"

abbrev no_floats : Str → Option ℕ
no_floats s = none

abbrev fresh_text : ℕ → Str
fresh_text n = codes "fresh" ++ (97 + n) ∷ []

abbrev ticking : ℕ → ℕ
ticking n = 100 + n

text_of_option : Option Str → Str
text_of_option none = []
text_of_option (some s) = s

unfoldable attack_runs : Unit {0}
unfolding access_runs create_app open_ledger cache_from latest_epoch first_epoch epoch_manager
    last_block hash_psk new_device post session_of default_metadata demo_devices
    Registration.register_start Devices.register_start submit_public_key sign_challenge
    prove_possession submit_metadata request_token get_token_nonce build_token_request token_access
    queued_device attack_replay attack_stolen_token attack_expired_token attack_revoked_token
    is_allow is_nonce_reused is_possession_failed is_expired is_token_revoked parse_authorization
    parse_credentials split_once strip_left strip_right is_blank check create_session get_session
    did_in_use uses_did session_or_404 require_state parse_public_key register_pubkey register_pop
    register_metadata issue_challenge verify_pop pop_reason pop_message derive_did upsert
    validate_metadata name_matches name_fits chomp tokens_issue tokens_nonce record_issued
    was_issued issue_nonce purge
attack_runs = tt

start_fog : Result FogContext
unfolding attack_runs text_of_option
start_fog =
    create_app toy ((codes "temp01", text_of_option (hash_psk toy psk_hex)) ∷ []) 77 none
      challenge_ttl_seconds session_ttl_seconds carry_forward_active default_admin_key

passed : Result FogContext → Client Bool → Option Bool
passed (raise x) scenario = none
passed (ok ctx) scenario = elim (scenario (new_device toy (codes "temp01") psk_hex 11) ctx).0 [
  | returned b ↦ some b
  | _ ↦ none
]

replay_is_detected :
    passed start_fog (attack_replay toy no_floats (1 ∷ 2 ∷ []) fresh_text ticking) ≡ some true
unfolding attack_runs start_fog passed text_of_option
replay_is_detected = refl

stolen_token_is_detected :
    passed start_fog (attack_stolen_token toy no_floats (1 ∷ 2 ∷ []) fresh_text ticking 12)
    ≡ some true
unfolding attack_runs start_fog passed text_of_option
stolen_token_is_detected = refl

expired_token_is_detected :
    passed start_fog (attack_expired_token toy no_floats (1 ∷ 2 ∷ []) fresh_text ticking 0)
    ≡ some true
unfolding attack_runs start_fog passed text_of_option
expired_token_is_detected = refl

revoked_token_is_detected :
    passed start_fog (attack_revoked_token toy no_floats (1 ∷ 2 ∷ []) fresh_text ticking)
    ≡ some true
unfolding attack_runs start_fog passed text_of_option
revoked_token_is_detected = refl
