-- ===== src/Common/Crypto.antt =====
-- What the program takes from hashlib and from the `cryptography` package (common/crypto_utils.py),
-- and its own helpers over it. A private key is the secret scalar.
use blockchain_io_t_a.Prelude.{Bool, arith, false, if◌then◌else◌, length, take, true, ℕ, ◌++◌, ◌≡◌}
use blockchain_io_t_a.Prelude.Text.{Bytes, IsBytes, Str, codes, to_hex}

-- `sha256` is hashlib's; `public_point` a key's compressed public point, `is_point` whether
-- from_encoded_point takes the bytes; `ecdsa_sign key message` and `ecdsa_verify point message
-- signature` the package's ECDSA, where signing stands for any one choice of its random number.
pub record Crypto : Type 0 where
  pub sha256 : Bytes → Bytes
  pub public_point : ℕ → Bytes
  pub is_point : Bytes → Bool
  pub ecdsa_sign : ℕ → Bytes → Bytes
  pub ecdsa_verify : Bytes → Bytes → Bytes → Bool

-- The documented behaviour that theorems name as a hypothesis.
pub record Sound (c : Crypto) : Type 0 where
  pub sha256_length : (m : Bytes) → length (c.sha256 m) ≡ 32
  pub sha256_bytes : (m : Bytes) → IsBytes (c.sha256 m)
  pub point_length : (key : ℕ) → length (c.public_point key) ≡ 33
  pub point_bytes : (key : ℕ) → IsBytes (c.public_point key)
  pub point_valid : (key : ℕ) → c.is_point (c.public_point key) ≡ true
  pub sign_bytes : (key : ℕ) (m : Bytes) → IsBytes (c.ecdsa_sign key m)
  pub sign_verifies :
      (key : ℕ) (m : Bytes) → c.ecdsa_verify (c.public_point key) m (c.ecdsa_sign key m) ≡ true

abbrev pub did_prefix : Str
did_prefix = codes "did:iiot:"

module _ (c : Crypto) where
  unfoldable pub public_key_bytes : ℕ → Bytes
  public_key_bytes key = c.public_point key

  -- false where load_public_key raises ValueError
  unfoldable pub load_public_key : Bytes → Bool
  load_public_key pk = c.is_point pk

  unfoldable pub sign : ℕ → Bytes → Bytes
  sign key message = c.ecdsa_sign key message

  unfoldable pub verify : Bytes → Bytes → Bytes → Bool
  unfolding load_public_key
  verify pk message signature =
      if load_public_key pk then c.ecdsa_verify pk message signature else false

  unfoldable pub derive_did : Bytes → Str
  derive_did pk = did_prefix ++ take 16 (to_hex (c.sha256 pk))

  -- The code's verify takes what its sign makes.
  pub verify-sign :
      Sound c → (key : ℕ) (m : Bytes) → verify (public_key_bytes key) m (sign key m) ≡ true
  unfolding verify public_key_bytes sign
  verify-sign s key m = ground (arith, s.point_valid key, s.sign_verifies key m)
