-- ===== src/Psk/Header.antt =====
-- The Authorization header that a device sends, and the check of its key.
use blockchain_io_t_a.Common.Crypto.{Crypto}
use blockchain_io_t_a.Prelude.{
  Bool, [], all, ap, arith, nat_beq, nat_eq, not, refl, some, text_beq_iff, text_eq, true, ℕ, ◌++◌,
  ◌↔◌, ◌∷◌, ◌≡◌,
}
use blockchain_io_t_a.Prelude.Dict.{lookup}
use blockchain_io_t_a.Prelude.Text.{Bytes, Str, from_hex, to_hex}
use blockchain_io_t_a.Psk.{
  PskStore, check, hash_psk, is_blank, parse_authorization, parse_credentials, scheme, split_once,
  strip_left, strip_right,
}

-- no blank of str.strip() at either end
abbrev pub solid : Str → Bool
solid s = all (λ x. not (is_blank x)) s

strip_right-append :
    (s t : Str) (x : ℕ) → strip_right (x ∷ t) ≡ x ∷ t → strip_right (s ++ x ∷ t) ≡ s ++ x ∷ t
unfolding strip_right
strip_right-append [] t x h = h
strip_right-append (y ∷ []) t x h = ground arith
strip_right-append (y ∷ z ∷ s) t x h = let rest = strip_right-append (z ∷ s) t x h in ground arith

strip_right-solid : (s : Str) → solid s ≡ true → strip_right s ≡ s
unfolding strip_right
strip_right-solid [] h = refl
strip_right-solid (x ∷ []) h = ground arith
strip_right-solid (x ∷ y ∷ s) h =
    let rest = strip_right-solid (y ∷ s) (ground arith) in ground arith

split_once-append :
    (sep : ℕ) (s t : Str)
    → all (λ x. not (nat_beq x sep)) s ≡ true
    → split_once sep (s ++ sep ∷ t) ≡ some (s, t)
unfolding split_once
split_once-append sep [] t h = ground arith
split_once-append sep (x ∷ s) t h = ground (arith, split_once-append sep s t)

-- What a device sends: `PSK name:key`
abbrev pub header_of : Str → Str → Str
header_of name psk = scheme ++ b' ' ∷ (name ++ b':' ∷ psk)

stripped :
    (name psk : Str) (x : ℕ)
    → solid (x ∷ psk) ≡ true
    → strip_left (strip_right (header_of name (x ∷ psk))) ≡ header_of name (x ∷ psk)
unfolding strip_left
stripped name psk x h =
    let whole =
      strip_right-append (scheme ++ b' ' ∷ name) (x ∷ psk) b':'
        (strip_right-append (b':' ∷ []) psk x (strip_right-solid (x ∷ psk) h)) in
    ap strip_left whole

-- The header that a device sends is read back as its name and its key, where the name is not empty
-- and has no colon, and the key is not empty, has no white space and is hex; and check accepts them
-- exactly if the hash of the key is the one stored for the name.
pub parse_authorization-header_of :
    (c : Crypto) (store : PskStore) (n x : ℕ) (name psk stored : Str) (key : Bytes)
    → all (λ x. not (nat_beq x b':')) (n ∷ name) ≡ true
    → solid (x ∷ psk) ≡ true
    → from_hex (x ∷ psk) ≡ some key
    → lookup (n ∷ name) store ≡ some stored
    → (parse_authorization (some (header_of (n ∷ name) (x ∷ psk))) ≡ some (n ∷ name, x ∷ psk))
      × ((check c store (n ∷ name) (x ∷ psk) ≡ true) ↔ (to_hex (c.sha256 key) ≡ stored))
unfolding parse_authorization parse_credentials check hash_psk
parse_authorization-header_of c store n x name psk stored key h k decoded known =
    let rest = (n ∷ name) ++ b':' ∷ x ∷ psk in
    let trimmed = stripped (n ∷ name) psk x k in
    let word : split_once b' ' (header_of (n ∷ name) (x ∷ psk)) ≡ some (scheme, rest) =
      unfold split_once in refl in
    let parts = split_once-append b':' (n ∷ name) (x ∷ psk) h in
    (
      ground (arith, trimmed, word, parts),
      ground (arith, text_beq_iff (to_hex (c.sha256 key)) stored),
    )
