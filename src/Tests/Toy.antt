-- ===== src/Tests/Toy.antt =====
-- A hash and a signature scheme that can be run. They show that what the theorems assume of
-- hashlib and of the `cryptography` package can hold together; they are not secure.
use blockchain_io_t_a.Common.Crypto.{Crypto, Sound}
use blockchain_io_t_a.Prelude.{
  Bool, [], ap, arith, false, length, nat_beq, nat_eq, refl, suc, text_beq_refl, text_eq, zero, ℕ,
  ◌%◌, ◌*◌, ◌++◌, ◌+◌, ◌/◌, ◌==◌, ◌^◌, ◌∷◌, ◌≡◌,
}
use blockchain_io_t_a.Prelude.Text.{Bytes, IsBytes}

-- A number as `n` bytes, the lowest first.
abbrev word_bytes : ℕ → ℕ → Bytes
word_bytes zero v = []
word_bytes (suc n) v = (v % 256) ∷ word_bytes n (v / 256)

abbrev mix : ℕ → Bytes → ℕ
mix h [] = h
mix h (b ∷ bs) = mix ((h * 257 + b + 1) % 2 ^ 256) bs

unfoldable pub toy_hash : Bytes → Bytes
toy_hash m = word_bytes 32 (mix 0 m)

unfoldable pub toy_point : ℕ → Bytes
toy_point key = 2 ∷ word_bytes 32 key

unfoldable pub toy_sign : ℕ → Bytes → Bytes
unfolding toy_hash
toy_sign key m = toy_hash (word_bytes 32 key ++ m)

unfoldable pub toy_verify : Bytes → Bytes → Bytes → Bool
unfolding toy_hash
toy_verify [] m signature = false
toy_verify (tag ∷ key) m signature = signature == toy_hash (key ++ m)

abbrev pub toy : Crypto
toy = record {
  sha256 = toy_hash;
  public_point = toy_point;
  is_point = λ pk. nat_beq (length pk) 33;
  ecdsa_sign = toy_sign;
  ecdsa_verify = toy_verify;
}

-- The names that a run of the toy computes with.
unfoldable pub toy_runs : Unit {0}
unfolding toy_hash toy_point toy_sign toy_verify
toy_runs = tt

length-word_bytes : (n v : ℕ) → length (word_bytes n v) ≡ n
length-word_bytes zero v = refl
length-word_bytes (suc n) v = ap suc (length-word_bytes n (v / 256))

word_bytes-IsBytes : (n v : ℕ) → IsBytes (word_bytes n v)
word_bytes-IsBytes zero v = tt
word_bytes-IsBytes (suc n) v = (omega arith, word_bytes-IsBytes n (v / 256))

pub toy-Sound : Sound toy
unfolding toy_hash toy_point toy_sign toy_verify
toy-Sound = record {
  sha256_length = λ m. length-word_bytes 32 (mix 0 m);
  sha256_bytes = λ m. word_bytes-IsBytes 32 (mix 0 m);
  point_length = λ key. ap suc (length-word_bytes 32 key);
  point_bytes = λ key. (omega arith, word_bytes-IsBytes 32 key);
  point_valid = λ key. ground (arith, length-word_bytes 32 key);
  sign_bytes = λ key m. word_bytes-IsBytes 32 (mix 0 (word_bytes 32 key ++ m));
  sign_verifies = λ key m. text_beq_refl (toy_hash (word_bytes 32 key ++ m));
}
