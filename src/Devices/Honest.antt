-- ===== src/Devices/Honest.antt =====
-- What an honest device signs is accepted.
use blockchain_io_t_a.Common.Canonical.{pop_message}
use blockchain_io_t_a.Common.Crypto.{Crypto, Sound, derive_did, public_key_bytes, sign, verify-sign}
use blockchain_io_t_a.Devices.{new_device, sign_challenge}
use blockchain_io_t_a.Fog.Pop.{issue_challenge, pop_reason, verify_pop}
use blockchain_io_t_a.Ledger.{bytes_of, item}
use blockchain_io_t_a.Prelude.{Option, arith, none, ok, some, true, ℕ, ◌+◌, ◌≡◌, ◌≤◌}
use blockchain_io_t_a.Prelude.Json.{canonical_json}
use blockchain_io_t_a.Prelude.Text.{Bytes, IsBytes, Str, from_hex-to_hex, to_hex}
use blockchain_io_t_a.Storage.{Session}
use blockchain_io_t_a.Tokens.Token.{
  access_message, access_signature_valid, issue_token, sign_access, signed_fields, text_item,
  token_fields, token_signature_valid,
}

module _ (c : Crypto) (sound : Sound c) (name psk : Str) (key : ℕ) where
  -- A device that signs the challenge of a session that holds its DID and its key passes the
  -- proof of possession, as long as it answers in time: its signature is made, and verify_pop
  -- finds no reason to refuse it.
  pub sign_challenge-verify_pop :
      (s : Session) (ttl now now' : ℕ) (random : Bytes)
      → IsBytes random
      → s.did ≡ some (new_device c name psk key).did
      → s.public_key ≡ some (to_hex (new_device c name psk key).pk_bytes)
      → now' ≤ now + ttl
      → (signature : Str) × (sign_challenge c (new_device c name psk key) (to_hex random)
          ≡ ok signature)
        × ((verify_pop c (issue_challenge s ttl random now) signature now').0 ≡ ok none)
  unfolding new_device sign_challenge verify_pop issue_challenge pop_reason
  sign_challenge-verify_pop s ttl now now' random bytes_ok did_set key_set in_time =
      let device = new_device c name psk key in
      let message = pop_message random device.did in
      let signed = verify-sign c sound key message in
      let challenge_hex = from_hex-to_hex random bytes_ok in
      let signature_hex =
        from_hex-to_hex (sign c key message) (unfold sign in sound.sign_bytes key message) in
      let key_hex =
        from_hex-to_hex (public_key_bytes c key)
          (unfold public_key_bytes in sound.point_bytes key) in
      (to_hex (sign c key message), ground arith, ground arith)

  -- A token that the fog issues for the DID and the key of a device passes the fog's own check of
  -- it, and what the device signs with it passes the check of possession.
  pub sign_access-valid :
      (fog_key ttl now : ℕ) (device_type role : Option Str) (epoch_id : Option ℕ)
      (fresh nonce resource operation : Str)
      → let device = new_device c name psk key in
        let token =
          issue_token c device.did
            (to_hex device.pk_bytes)
            device_type
            role
            fog_key
            ttl
            epoch_id
            fresh
            now in
        (token_signature_valid c token fog_key ≡ true)
        × (signature : Str) × (sign_access c key token nonce resource operation ≡ ok signature)
        × (access_signature_valid c token nonce resource operation signature ≡ true)
  unfolding new_device issue_token token_fields token_signature_valid signed_fields sign_access
      access_signature_valid text_item item bytes_of
  sign_access-valid fog_key ttl now device_type role epoch_id fresh nonce resource operation =
      let did = derive_did c (public_key_bytes c key) in
      let message = access_message fresh did nonce resource operation in
      let fields =
        token_fields fresh did (to_hex (public_key_bytes c key)) device_type role epoch_id now
          ttl in
      let signed = verify-sign c sound key message in
      let issued = verify-sign c sound fog_key (canonical_json fields) in
      let signature_hex =
        from_hex-to_hex (sign c key message) (unfold sign in sound.sign_bytes key message) in
      let issued_hex =
        from_hex-to_hex (sign c fog_key (canonical_json fields))
          (unfold sign in sound.sign_bytes fog_key (canonical_json fields)) in
      let key_hex =
        from_hex-to_hex (public_key_bytes c key)
          (unfold public_key_bytes in sound.point_bytes key) in
      (ground arith, to_hex (sign c key message), ground arith, ground arith)
