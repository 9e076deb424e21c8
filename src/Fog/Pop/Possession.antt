-- ===== src/Fog/Pop/Possession.antt =====
-- What a successful proof of possession means, and that a challenge counts once.
use blockchain_io_t_a.Common.Canonical.{pop_message}
use blockchain_io_t_a.Common.Crypto.{Crypto, verify}
use blockchain_io_t_a.Fog.Context.{PopReason, no_active_challenge}
use blockchain_io_t_a.Fog.Pop.{pop_reason, verify_pop}
use blockchain_io_t_a.Prelude.{
  Bool-cases, Option, Option-cases, Result, arith, false, inl, inr, none, ok, some, true, ℕ, ◌≡◌,
  ◌≤◌,
}
use blockchain_io_t_a.Prelude.Text.{Bytes, Str, from_hex}
use blockchain_io_t_a.Storage.{Session}

module _ (c : Crypto) (s : Session) (signature_hex : Str) (now : ℕ) where
  -- What must hold of the session for the proof to succeed.
  pub record IsProof (challenge : Str) (did : Str) (pk challenge_bytes signature : Bytes)
      : Type 0 where
    pub pending_challenge : s.challenge ≡ some challenge
    pub unused : s.challenge_used ≡ false
    pub in_time : now ≤ s.challenge_expires
    pub session_did : s.did ≡ some did
    pub key_hex : (text : Str) × (s.public_key ≡ some text) × (from_hex text ≡ some pk)
    pub signature_bytes : from_hex signature_hex ≡ some signature
    pub challenge_hex : from_hex challenge ≡ some challenge_bytes
    pub signed : verify c pk (pop_message challenge_bytes did) signature ≡ true

  pop_reason-none :
      (challenge : Str)
      → pop_reason c s challenge signature_hex now ≡ ok none
      → s.challenge ≡ some challenge
      → s.challenge_used ≡ false
      → (did : Str) × (pk challenge_bytes signature : Bytes) × IsProof challenge did pk
          challenge_bytes signature
  unfolding pop_reason
  pop_reason-none challenge h there unused = elim (Option-cases (from_hex signature_hex)) [
    | inl bad ↦ absurd (ground arith)
    | inr (signature, is_hex) ↦ elim (Option-cases (from_hex challenge)) [
      | inl bad ↦ absurd (ground arith)
      | inr (challenge_bytes, decoded) ↦ elim (Option-cases s.did) [
        | inl no_did ↦ absurd (ground arith)
        | inr (did, has_did) ↦ elim (Option-cases s.public_key) [
          | inl no_key ↦ absurd (ground arith)
          | inr (text, has_key) ↦ elim (Option-cases (from_hex text)) [
            | inl bad ↦ absurd (ground arith)
            | inr (pk, is_key) ↦ (
              did,
              pk,
              challenge_bytes,
              signature,
              record {
                pending_challenge = there;
                unused = unused;
                in_time = ground arith;
                session_did = has_did;
                key_hex = (text, has_key, is_key);
                signature_bytes = is_hex;
                challenge_hex = decoded;
                signed = ground arith;
              },
            )
          ]
        ]
      ]
    ]
  ]

  -- A proof succeeds only over the challenge that was issued, unused and in time, with a signature
  -- of its PoP message under the submitted key. Whatever the verdict on a pending challenge is, the
  -- challenge is then used: the same session answers the next proof with no_active_challenge and
  -- does not change.
  pub verify_pop-once :
      (s' : Session) (verdict : Result (Option PopReason))
      → verify_pop c s signature_hex now ≡ (verdict, s')
      → (verdict ≡ ok none
          → (challenge did : Str) × (pk challenge_bytes signature : Bytes) × IsProof challenge did
              pk challenge_bytes signature)
        × ((again : Str) (later : ℕ)
            → verify_pop c s' again later ≡ (ok (some no_active_challenge), s'))
        × (s'.state ≡ s.state)
        × (s'.did ≡ s.did)
        × (s'.public_key ≡ s.public_key)
  unfolding verify_pop
  verify_pop-once s' verdict h = elim (Option-cases s.challenge) [
    | inl nothing ↦ (
      λ v. absurd (ground arith),
      λ again later. ground arith,
      ground arith,
      ground arith,
      ground arith,
    )
    | inr (challenge, there) ↦ elim (Bool-cases s.challenge_used) [
      | inl used ↦ (
        λ v. absurd (ground arith),
        λ again later. let same : s' ≡ s = ground arith in rw same (ground arith),
        ground arith,
        ground arith,
        ground arith,
      )
      | inr unused ↦ (
        λ v.
            let (did, pk, said, signature, w) =
              pop_reason-none challenge (ground arith) there unused in
            (challenge, did, pk, said, signature, w),
        λ again later.
            let after : s' ≡ record s { challenge_used = true } = ground arith in
            rw after (ground arith),
        ground arith,
        ground arith,
        ground arith,
      )
    ]
  ]
