-- ===== src/Fog/Pop.antt =====
-- Proof of possession (fog/registration/pop.py). `random` are the 32 random bytes.
pub mod Possession
use blockchain_io_t_a.Common.Canonical.{pop_message}
use blockchain_io_t_a.Common.Crypto.{Crypto, verify}
use blockchain_io_t_a.Fog.Context.{
  PopReason, challenge_expired, no_active_challenge, signature_invalid, signature_not_hex,
}
use blockchain_io_t_a.Prelude.{
  Option, Result, attribute_error, false, if◌then◌else◌, ltb, none, ok, or_raise, some, true,
  type_error, value_error, ℕ, ◌+◌, ◌>>=◌,
}
use blockchain_io_t_a.Prelude.Text.{Bytes, Str, from_hex, to_hex}
use blockchain_io_t_a.Storage.{Session}

unfoldable pub issue_challenge : Session → ℕ → Bytes → ℕ → Session
issue_challenge s ttl_seconds random now = record s {
  challenge = some (to_hex random);
  challenge_expires = now + ttl_seconds;
  challenge_used = false;
}

module _ (c : Crypto) where
  -- The checks behind the single use: the reason of a failure, or nothing.
  unfoldable pub pop_reason : Session → Str → Str → ℕ → Result (Option PopReason)
  pop_reason s challenge signature_hex now =
      if ltb s.challenge_expires now
      then ok (some challenge_expired)
      else elim (from_hex signature_hex) [
        | none ↦ ok (some signature_not_hex)
        | some signature ↦ do
          challenge_bytes ← or_raise (from_hex challenge) value_error
          did ← or_raise s.did attribute_error
          key ← or_raise s.public_key type_error
          pk ← or_raise (from_hex key) value_error
          ok (
              if verify c pk (pop_message challenge_bytes did) signature
              then none
              else some signature_invalid)
      ]

  -- The session comes back with its challenge consumed, whatever the verdict.
  unfoldable pub verify_pop : Session → Str → ℕ → Result (Option PopReason) × Session
  verify_pop s signature_hex now = elim s.challenge [
    | none ↦ (ok (some no_active_challenge), s)
    | some challenge ↦
        if s.challenge_used
        then (ok (some no_active_challenge), s)
        else (pop_reason s challenge signature_hex now, record s { challenge_used = true })
  ]
