-- ===== src/Tokens/Token.antt =====
-- Issuing and checking a token (fog/tokens/tokens.py). A token is a JSON object.
pub mod Messages
use blockchain_io_t_a.Prelude.{
  Bool, List, Option, Result, [], false, if◌then◌else◌, ltb, nat_eq, none, ok, or_raise, raise,
  some, text_eq, true, type_error, value_error, ℕ, ◌++◌, ◌+◌, ◌==◌, ◌>>=◌, ◌∷◌,
}
use blockchain_io_t_a.Common.Canonical.{separator}
use blockchain_io_t_a.Common.Crypto.{Crypto, public_key_bytes, sign, verify}
use blockchain_io_t_a.Ledger.{bytes_of, item}
use blockchain_io_t_a.Policy.{provisional_operations}
use blockchain_io_t_a.Prelude.Dict.{lookup}
use blockchain_io_t_a.Prelude.Json.{
  Object, Value, bool, canonical_json, null, num, optional_str, real, str, strs,
}
use blockchain_io_t_a.Prelude.Text.{Bytes, Str, codes, encode, from_hex, to_hex}

abbrev pub token_ttl_seconds : ℕ
token_ttl_seconds = 120

abbrev pub access_label : Bytes
access_label = codes "IIOT_TOKEN_ACCESS_V1"

abbrev pub token_nonce_purpose : Str
token_nonce_purpose = codes "token_access"

-- `_signed_fields`
unfoldable pub signed_fields : Object → Object
signed_fields [] = []
signed_fields ((k, v) ∷ token) =
    let rest = signed_fields token in if k == codes "signature" then rest else (k, v) ∷ rest

-- `None` is the JSON null.
abbrev pub optional_num : Option ℕ → Value
optional_num none = null
optional_num (some n) = num n

-- The fields of a token. A missing type or role is null.
unfoldable pub token_fields : Str → Str → Str → Option Str → Option Str → Option ℕ → ℕ → ℕ → Object
token_fields fresh did public_key_hex device_type role epoch_id now ttl =
    (codes "token_id", str fresh)
    ∷ (codes "did", str did)
    ∷ (codes "public_key", str public_key_hex)
    ∷ (codes "device_type", optional_str device_type)
    ∷ (codes "role", optional_str role)
    ∷ (codes "scope", str (codes "provisional"))
    ∷ (codes "allowed_operations", strs provisional_operations)
    ∷ (codes "queued_for_epoch", optional_num epoch_id)
    ∷ (codes "issued_at", num now)
    ∷ (codes "expires_at", num (now + ttl))
    ∷ []

-- `b"|".join(parts)`
unfoldable pub join_bar : List Bytes → Bytes
join_bar [] = []
join_bar (p ∷ []) = p
join_bar (p ∷ q ∷ ps) = p ++ separator ∷ join_bar (q ∷ ps)

unfoldable pub access_message : Str → Str → Str → Str → Str → Bytes
unfolding join_bar
access_message token_id did nonce resource operation = join_bar (
    access_label
    ∷ encode token_id
    ∷ encode did
    ∷ encode nonce
    ∷ encode resource
    ∷ encode operation
    ∷ [])

-- `token["key"]`, where a use as text raises TypeError or AttributeError if it is none
unfoldable pub text_item : Str → Object → Result Str
unfolding item
text_item key token = do v ← item key token; elim v [ str s ↦ ok s | _ ↦ raise type_error ]

-- The value of a call inside `try … except (KeyError, ValueError, TypeError, AttributeError):
-- return False`.
abbrev pub or_false : Result Bool → Bool
or_false (ok b) = b
or_false (raise x) = false

module _ (c : Crypto) where
  -- `fresh` is the random token id.
  unfoldable pub issue_token :
      Str → Str → Option Str → Option Str → ℕ → ℕ → Option ℕ → Str → ℕ → Object
  issue_token did public_key_hex device_type role signing_key ttl epoch_id fresh now =
      let fields = token_fields fresh did public_key_hex device_type role epoch_id now ttl in
      fields ++ (codes "signature", str (to_hex (sign c signing_key (canonical_json fields)))) ∷ []

  unfoldable pub token_signature_valid : Object → ℕ → Bool
  token_signature_valid token signing_key = or_false (do
    signature ← item (codes "signature") token
    signature_bytes ← bytes_of signature
    ok (
        verify c (public_key_bytes c signing_key) (canonical_json (signed_fields token))
          signature_bytes))

  unfoldable pub sign_access : ℕ → Object → Str → Str → Str → Result Str
  unfolding text_item
  sign_access device_key token nonce resource operation = do
    token_id ← text_item (codes "token_id") token
    did ← text_item (codes "did") token
    ok (to_hex (sign c device_key (access_message token_id did nonce resource operation)))

  unfoldable pub access_signature_valid : Object → Str → Str → Str → Str → Bool
  access_signature_valid token nonce resource operation signature_hex = or_false (do
    key ← item (codes "public_key") token
    pk ← bytes_of key
    signature ← or_raise (from_hex signature_hex) value_error
    token_id ← text_item (codes "token_id") token
    did ← text_item (codes "did") token
    ok (verify c pk (access_message token_id did nonce resource operation) signature))

-- `float(text)` in seconds, `none` where it raises ValueError, is a parameter.
module _ (float_of : Str → Option ℕ) where
  unfoldable pub late_text : Str → ℕ → Bool
  late_text s now = elim (float_of s) [ none ↦ true | some n ↦ ltb n now ]

  unfoldable pub token_expired : Object → ℕ → Bool
  unfolding late_text
  token_expired token now = elim (lookup (codes "expires_at") token) [
    | none ↦ ltb 0 now
    | some v ↦ elim v [
      | num n ↦ ltb n now
      | bool b ↦ ltb (if b then 1 else 0) now
      | real s ↦ late_text s now
      | str s ↦ late_text s now
      | _ ↦ true
    ]
  ]
