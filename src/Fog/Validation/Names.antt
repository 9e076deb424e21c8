-- ===== src/Fog/Validation/Names.antt =====
-- Which device names are accepted.
use blockchain_io_t_a.Fog.Validation.{chomp, name_char, name_fits, name_matches}
use blockchain_io_t_a.Prelude.{
  [], all, ap, arith, false, inl, inr, length, refl, true, ℕ, ◌++◌, ◌↔◌, ◌∷◌, ◌≡◌, ◌≤◌, ◌⊎◌,
}
use blockchain_io_t_a.Prelude.Text.{Str}

chomp-cases : (s : Str) → (chomp s ≡ s) ⊎ (s ≡ chomp s ++ 10 ∷ [])
unfolding chomp
chomp-cases [] = inl refl
chomp-cases (x ∷ []) = ground arith
chomp-cases (x ∷ y ∷ s) = elim (chomp-cases (y ∷ s)) [
  | inl same ↦ inl (ap (λ r. x ∷ r) same)
  | inr ends ↦ inr (ap (λ r. x ∷ r) ends)
]

chomp-append : (s : Str) → chomp (s ++ 10 ∷ []) ≡ s
unfolding chomp
chomp-append [] = refl
chomp-append (x ∷ []) = refl
chomp-append (x ∷ y ∷ s) = ap (λ r. x ∷ r) (chomp-append (y ∷ s))

line_feed-bad : (t : Str) → all name_char (t ++ 10 ∷ []) ≡ false
line_feed-bad [] = refl
line_feed-bad (x ∷ t) = ground (arith, line_feed-bad t)

fits-chomp : (s : Str) → name_fits s ≡ true → chomp s ≡ s
unfolding name_fits
fits-chomp s h = elim (chomp-cases s) [
  | inl same ↦ same
  | inr ends ↦
      let bad : all name_char s ≡ false = rw ends (line_feed-bad (chomp s)) in absurd (ground arith)
]

-- a-z, 0-9 and _
abbrev pub InName : ℕ → Type 0
InName x = ((97 ≤ x) × (x ≤ 122)) ⊎ (((48 ≤ x) × (x ≤ 57)) ⊎ (x ≡ 95))

abbrev pub AllInName : Str → Type 0
AllInName [] = Unit {0}
AllInName (x ∷ s) = InName x × AllInName s

-- A name of 2 to 32 such characters.
abbrev pub IsName : Str → Type 0
IsName s = AllInName s × (2 ≤ length s) × (length s ≤ 32)

name_char-InName : (x : ℕ) → (name_char x ≡ true) ↔ InName x
name_char-InName x = (λ h. ground arith, λ h. ground arith)

all-AllInName : (s : Str) → (all name_char s ≡ true) ↔ AllInName s
all-AllInName [] = (λ h. tt, λ h. refl)
all-AllInName (x ∷ s) = (
  λ h. ((name_char-InName x).0 (ground arith), (all-AllInName s).0 (ground arith)),
  λ h. ground (arith, (name_char-InName x).1 h.0, (all-AllInName s).1 h.1),
)

name_fits-IsName : (s : Str) → (name_fits s ≡ true) ↔ IsName s
unfolding name_fits
name_fits-IsName s = (
  λ h. ((all-AllInName s).0 (ground arith), ground arith, ground arith),
  λ h. ground (arith, (all-AllInName s).1 h.0),
)

-- The pattern accepts a name of 2 to 32 characters out of a-z (code points 97 to 122), 0-9 (48 to
-- 57) and _ (95), and also such a name with one line feed (10) behind it; it accepts nothing else.
pub name_matches_iff :
    (s : Str) → (name_matches s ≡ true) ↔ (IsName s ⊎ ((t : Str) × (s ≡ t ++ 10 ∷ []) × IsName t))
unfolding name_matches
name_matches_iff s = (
  λ h. elim (chomp-cases s) [
    | inl same ↦ inl ((name_fits-IsName s).0 (rw (← same) h))
    | inr ends ↦ inr (chomp s, ends, (name_fits-IsName (chomp s)).0 h)
  ],
  λ o. elim o [
    | inl is_name ↦ let fits = (name_fits-IsName s).1 is_name in rw (fits-chomp s fits) fits
    | inr (t, is_t, is_name) ↦ rw (is_t, chomp-append t) ((name_fits-IsName t).1 is_name)
  ],
)
