-- ===== src/Common/Canonical.antt =====
-- Leaf and node hashing and the proof of possession message (common/canonical.py).
use blockchain_io_t_a.Common.Crypto.{Crypto, did_prefix}
use blockchain_io_t_a.Prelude.{
  Result, arith, if◌then◌else◌, length, nat_beq, ok, raise, value_error, ℕ, ◌&&◌, ◌++◌, ◌∷◌, ◌≡◌,
}
use blockchain_io_t_a.Prelude.Text.{Bytes, Str, codes, encode, starts_with}

abbrev pub leaf_prefix : ℕ
leaf_prefix = 0

abbrev pub node_prefix : ℕ
node_prefix = 1

abbrev pub separator : ℕ
separator = b'|'

abbrev pub hash_len : ℕ
hash_len = 32

abbrev pub compressed_pk_len : ℕ
compressed_pk_len = 33

abbrev pub pop_context : Bytes
pop_context = codes "IIOT_POP_V1"

-- The bytes that leaf_hash hashes.
unfoldable pub leaf_input : Str → Bytes → Bytes
leaf_input did pk = leaf_prefix ∷ encode did ++ separator ∷ pk

unfoldable pub node_input : Bytes → Bytes → Bytes
node_input left right = node_prefix ∷ left ++ right

unfoldable pub pop_message : Bytes → Str → Bytes
pop_message challenge did = pop_context ++ separator ∷ challenge ++ separator ∷ encode did

module _ (c : Crypto) where
  unfoldable pub leaf_hash : Str → Bytes → Result Bytes
  leaf_hash did pk =
      if starts_with did did_prefix
      then if nat_beq (length pk) compressed_pk_len
        then ok (c.sha256 (leaf_input did pk))
        else raise value_error
      else raise value_error

  unfoldable pub node_hash : Bytes → Bytes → Result Bytes
  node_hash left right =
      if nat_beq (length left) hash_len && nat_beq (length right) hash_len
      then ok (c.sha256 (node_input left right))
      else raise value_error

  pub node_hash-eq :
      (left right : Bytes)
      → length left ≡ 32
      → length right ≡ 32
      → node_hash left right ≡ ok (c.sha256 (node_input left right))
  unfolding node_hash
  node_hash-eq left right p q = ground arith

  pub leaf_hash-eq :
      (did : Str) (pk : Bytes) {leaf : Bytes}
      → leaf_hash did pk ≡ ok leaf
      → (leaf ≡ c.sha256 (leaf_input did pk)) × (length pk ≡ 33)
  unfolding leaf_hash
  leaf_hash-eq did pk h = ground arith

  pub node_hash-ok :
      (left right : Bytes) {parent : Bytes}
      → node_hash left right ≡ ok parent
      → (length left ≡ 32) × (length right ≡ 32) × (parent ≡ c.sha256 (node_input left right))
  unfolding node_hash
  node_hash-ok left right h = ground arith
