-- ===== src/Psk.antt =====
-- Pre-shared keys (fog/auth/psk.py).
pub mod Header
use blockchain_io_t_a.Common.Crypto.{Crypto}
use blockchain_io_t_a.Policy.{is_text}
use blockchain_io_t_a.Prelude.{
  Bool, Option, [], false, if◌then◌else◌, leb, length, nat_beq, nat_eq, none, some, text_eq, ℕ,
  ◌&&◌, ◌==◌, ◌||◌, ◌∷◌,
}
use blockchain_io_t_a.Prelude.Dict.{Dict, lookup}
use blockchain_io_t_a.Prelude.Text.{Str, codes, from_hex, to_hex}

-- `_hashes`: the SHA256 of each key, in hex
abbrev pub PskStore : Type 0
PskStore = Dict Str Str

-- white space of str.strip() in a latin-1 header
unfoldable pub is_blank : ℕ → Bool
is_blank x = (leb 9 x && leb x 13) || ((leb 28 x && leb x 32) || (nat_beq x 133 || nat_beq x 160))

unfoldable pub strip_left : Str → Str
unfolding is_blank
strip_left [] = []
strip_left (x ∷ s) = let rest = strip_left s in if is_blank x then rest else x ∷ s

unfoldable pub strip_right : Str → Str
unfolding is_blank
strip_right [] = []
strip_right (x ∷ s) = elim (strip_right s) [
  | [] ↦ if is_blank x then [] else x ∷ []
  | y ∷ r ↦ x ∷ y ∷ r
]

-- `s.split(sep, 1)`: what stands before and after the first `sep`
unfoldable pub split_once : ℕ → Str → Option (Str × Str)
split_once sep [] = none
split_once sep (x ∷ s) =
    let rest = split_once sep s in
    if nat_beq x sep
    then some ([], s)
    else elim rest [ none ↦ none | some (before, after) ↦ some (x ∷ before, after) ]

abbrev pub scheme : Str
scheme = codes "PSK"

unfoldable pub parse_credentials : Str → Option (Str × Str)
unfolding split_once
parse_credentials text = elim (split_once b':' text) [
  | none ↦ none
  | some (prov_id, psk) ↦
      if is_text (some prov_id) && is_text (some psk) then some (prov_id, psk) else none
]

unfoldable pub parse_authorization : Option Str → Option (Str × Str)
parse_authorization none = none
parse_authorization (some header) = elim (split_once b' ' (strip_left (strip_right header))) [
  | none ↦ none
  | some (word, rest) ↦ if word == scheme then parse_credentials rest else none
]

module _ (c : Crypto) where
  -- `none` where bytes.fromhex raises ValueError
  unfoldable pub hash_psk : Str → Option Str
  hash_psk psk_hex = elim (from_hex psk_hex) [
    | none ↦ none
    | some psk ↦ some (to_hex (c.sha256 psk))
  ]

  -- hmac.compare_digest is equality that takes the same time for all.
  unfoldable pub check : PskStore → Str → Str → Bool
  unfolding hash_psk
  check store provisioning_id psk_hex = elim (hash_psk psk_hex) [
    | none ↦ false
    | some presented ↦ elim (lookup provisioning_id store) [
      | none ↦ false
      | some stored ↦ presented == stored
    ]
  ]

-- `len` of a PSK store
unfoldable pub psk_count : PskStore → ℕ
psk_count store = length store
