-- ===== src/Prelude/Text/Utf8.antt =====
-- UTF-8 is unambiguous: two texts of Unicode code points with one encoding are the same text.
use Prim.Native.Nat.{ℕ, ◌<◌}
use mathlib.Core.Path.{◌≡◌, refl, ap₂}
use mathlib.Core.List.{List, [], ◌∷◌, ◌++◌}
use native.Mathlib.Omega.{arith}
use blockchain_io_t_a.Prelude.Text.{encode, utf8_char}

abbrev pub IsUnicode : List ℕ → Type 0
IsUnicode [] = Unit {0}
IsUnicode (c ∷ s) = (c < 0x110000) × IsUnicode s

first_char :
    (c d : ℕ) (xs ys : List ℕ)
    → c < 0x110000
    → d < 0x110000
    → utf8_char c ++ xs ≡ utf8_char d ++ ys
    → (c ≡ d) × (xs ≡ ys)
unfolding utf8_char
first_char c d xs ys p q e = ground arith

pub encode-injective : (s t : List ℕ) → IsUnicode s → IsUnicode t → encode s ≡ encode t → s ≡ t
unfolding encode
encode-injective [] [] p q e = refl
encode-injective [] (d ∷ t) p q e = absurd (ground arith)
encode-injective (c ∷ s) [] p q e = absurd (ground arith)
encode-injective (c ∷ s) (d ∷ t) p q e =
    let (same, rest) = first_char c d (encode s) (encode t) p.0 q.0 e in
    ap₂ ◌∷◌ same (encode-injective s t p.1 q.1 rest)
