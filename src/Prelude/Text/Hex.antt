-- ===== src/Prelude/Text/Hex.antt =====
-- bytes.hex() and bytes.fromhex(): two lower-case digits for a byte; either case is read, and
-- white space is skipped between bytes.
use Prim.Native.Nat.{ℕ, ◌+◌, ◌-◌, ◌*◌, ◌/◌, ◌%◌, ◌<◌}
use mathlib.Core.Path.{◌≡◌, refl, ◌∙◌}
use mathlib.Core.Bool.{Bool, true, false, ◌&&◌, ◌||◌}
use mathlib.Core.List.{List, [], ◌∷◌}
use mathlib.Core.Option.{Option, none, some}
use mathlib.Core.Logic.{inl, inr}
use native.Mathlib.Omega.{arith}
use blockchain_io_t_a.Prelude.Tests.{Bool-cases, Option-cases, if◌then◌else◌, leb, ltb, nat_beq}

-- every value is a byte
abbrev pub IsBytes : List ℕ → Type 0
IsBytes [] = Unit {0}
IsBytes (b ∷ bs) = (b < 256) × IsBytes bs

unfoldable pub hex_digit : ℕ → ℕ
hex_digit v = if ltb v 10 then b'0' + v else v + 87

unfoldable pub to_hex : List ℕ → List ℕ
to_hex [] = []
to_hex (b ∷ bs) = hex_digit (b / 16) ∷ hex_digit (b % 16) ∷ to_hex bs

is_space : ℕ → Bool
is_space c = nat_beq c 32 || (leb 9 c && leb c 13)

digit_value : ℕ → Option ℕ
digit_value c =
    if leb b'0' c && leb c b'9'
    then some (c - b'0')
    else if leb b'a' c && leb c b'f'
    then some (c - 87)
    else if leb b'A' c && leb c b'F'
    then some (c - 55)
    else none

-- The first argument is the high digit that has been read, if one has.
from_hex_from : Option ℕ → List ℕ → Option (List ℕ)
from_hex_from none [] = some []
from_hex_from (some h) [] = none
from_hex_from none (c ∷ cs) = elim (is_space c) [
  | true ↦ from_hex_from none cs
  | false ↦ elim (digit_value c) [ none ↦ none | some v ↦ from_hex_from (some v) cs ]
]
from_hex_from (some h) (c ∷ cs) = elim (digit_value c) [
  | none ↦ none
  | some v ↦ elim (from_hex_from none cs) [ none ↦ none | some bs ↦ some ((h * 16 + v) ∷ bs) ]
]

-- `none` where bytes.fromhex raises ValueError
unfoldable pub from_hex : List ℕ → Option (List ℕ)
unfolding from_hex_from is_space digit_value
from_hex s = from_hex_from none s

digit_value-hex_digit : (v : ℕ) → v < 16 → digit_value (hex_digit v) ≡ some v
unfolding digit_value hex_digit
digit_value-hex_digit v h = ground arith

not_space : (v : ℕ) → v < 16 → is_space (hex_digit v) ≡ false
unfolding is_space hex_digit
not_space v h = ground arith

-- One digit read: its white-space test fails and its value comes back.
from_hex_from-digit :
    (v : ℕ) (cs : List ℕ)
    → v < 16
    → from_hex_from none (hex_digit v ∷ cs) ≡ from_hex_from (some v) cs
unfolding from_hex_from
from_hex_from-digit v cs h = ground (arith, not_space v h, digit_value-hex_digit v h)

-- Then the second digit, where the rest decodes.
from_hex_from-byte :
    (b : ℕ) (cs : List ℕ) {bs : List ℕ}
    → b < 256
    → from_hex_from none cs ≡ some bs
    → from_hex_from (some (b / 16)) (hex_digit (b % 16) ∷ cs) ≡ some (b ∷ bs)
unfolding from_hex_from
from_hex_from-byte b cs h e = ground (arith, digit_value-hex_digit (b % 16) (omega arith))

from_hex_from-to_hex : (bs : List ℕ) → IsBytes bs → from_hex_from none (to_hex bs) ≡ some bs
unfolding to_hex from_hex_from
from_hex_from-to_hex [] h = refl
from_hex_from-to_hex (b ∷ bs) h =
    from_hex_from-digit (b / 16) (hex_digit (b % 16) ∷ to_hex bs) (omega arith)
    ∙ from_hex_from-byte b (to_hex bs) h.0 (from_hex_from-to_hex bs h.1)

-- Decoding undoes encoding.
pub from_hex-to_hex : (bs : List ℕ) → IsBytes bs → from_hex (to_hex bs) ≡ some bs
unfolding from_hex
from_hex-to_hex bs h = from_hex_from-to_hex bs h

digit_value-below : (c : ℕ) {v : ℕ} → digit_value c ≡ some v → v < 16
unfolding digit_value
digit_value-below c {v} h = ground arith

-- The high digit, if one has been read.
abbrev IsDigit : Option ℕ → Type 0
IsDigit none = Unit {0}
IsDigit (some h) = h < 16

from_hex_from-IsBytes :
    (high : Option ℕ) (cs : List ℕ) {bs : List ℕ}
    → IsDigit high
    → from_hex_from high cs ≡ some bs
    → IsBytes bs
unfolding from_hex_from
from_hex_from-IsBytes none [] {bs} d h = let same : [] ≡ bs = ground arith in rw (← same) tt
from_hex_from-IsBytes (some v) [] {bs} d h = absurd (ground arith)
from_hex_from-IsBytes none (c ∷ cs) {bs} d h = elim (Bool-cases (is_space c)) [
  | inl space ↦ from_hex_from-IsBytes none cs tt (ground arith)
  | inr other ↦ elim (Option-cases (digit_value c)) [
    | inl bad ↦ absurd (ground arith)
    | inr (v, is_v) ↦ from_hex_from-IsBytes (some v) cs (digit_value-below c is_v) (ground arith)
  ]
]
from_hex_from-IsBytes (some w) (c ∷ cs) {bs} d h = elim (Option-cases (digit_value c)) [
  | inl bad ↦ absurd (ground arith)
  | inr (v, is_v) ↦ elim (Option-cases (from_hex_from none cs)) [
    | inl bad ↦ absurd (ground arith)
    | inr (rest, is_rest) ↦
        let same : (w * 16 + v) ∷ rest ≡ bs = ground arith in
        rw (← same)
          (omega (arith, digit_value-below c is_v), from_hex_from-IsBytes none cs tt is_rest)
  ]
]

-- What is decoded is bytes.
pub from_hex-IsBytes : (s : List ℕ) {bs : List ℕ} → from_hex s ≡ some bs → IsBytes bs
unfolding from_hex
from_hex-IsBytes s h = from_hex_from-IsBytes none s tt h
