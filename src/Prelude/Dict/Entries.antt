-- ===== src/Prelude/Dict/Entries.antt =====
-- What holds of every entry of a dict, and dicts that hold a key once.
use mathlib.Core.Path.{◌≡◌, refl}
use mathlib.Core.Bool.{Bool, true, false, not, ◌&&◌}
use mathlib.Core.List.{[], ◌∷◌}
use mathlib.Core.Logic.{inl, inr, ◌⊎◌}
use mathlib.Core.Option.{some}
use native.Mathlib.Omega.{arith}
use blockchain_io_t_a.Prelude.Dict.{Dict, contains, erase, insert, keys, lookup, lookup-insert}
use blockchain_io_t_a.Prelude.Lists.{mem}
use blockchain_io_t_a.Prelude.Tests.{Bool-cases, Eq, ◌==◌}

abbrev pub Every {ℓ κ μ} : {K : Type ℓ} {V : Type κ} → (K → V → Type μ) → Dict K V → Type μ
Every P [] = Unit
Every P ((k, v) ∷ d) = P k v × Every P d

pub Every-mono {ℓ κ μ ν} :
    {K : Type ℓ} {V : Type κ} (P : K → V → Type μ) (Q : K → V → Type ν)
    → ((k : K) (v : V) → P k v → Q k v)
    → (d : Dict K V) → Every P d
    → Every Q d
Every-mono P Q f [] h = tt
Every-mono P Q f ((k, v) ∷ d) (p, h) = (f k v p, Every-mono P Q f d h)

pub Every-both {ℓ κ μ ν} :
    {K : Type ℓ} {V : Type κ} (P : K → V → Type μ) (Q : K → V → Type ν) (d : Dict K V)
    → Every P d
    → Every Q d
    → Every (λ k v. P k v × Q k v) d
Every-both P Q [] h g = tt
Every-both P Q ((k, v) ∷ d) (p, h) (q, g) = ((p, q), Every-both P Q d h g)

module _ {ℓ κ μ} {K : Type ℓ} {V : Type κ} ⦃eq : Eq K⦄ (P : K → V → Type μ) where
  pub insert-Every : (k : K) (v : V) (d : Dict K V) → P k v → Every P d → Every P (insert k v d)
  insert-Every k v [] p h = (p, tt)
  insert-Every k v ((j, w) ∷ d) p (q, h) = elim (Bool-cases (k == j)) [
    | inl same ↦ let is_j : k ≡ j = (eq.equal_iff k j).0 same in rw same (rw (← is_j) p, h)
    | inr other ↦ rw other (q, insert-Every k v d p h)
  ]

  pub lookup-Every : (k : K) (v : V) (d : Dict K V) → Every P d → lookup k d ≡ some v → P k v
  lookup-Every k v [] h there = cc
  lookup-Every k v ((j, w) ∷ d) (q, h) there = elim (Bool-cases (k == j)) [
    | inl same ↦
        let is_j : k ≡ j = (eq.equal_iff k j).0 same in
        let is_w : w ≡ v = ground arith in rw (is_j, ← is_w) q
    | inr other ↦ lookup-Every k v d h (ground arith)
  ]

module _ {ℓ κ} {K : Type ℓ} {V : Type κ} ⦃eq : Eq K⦄ where
  -- After an insertion, what is found is the new entry or an old one.
  pub lookup-insert_cases :
      (k j : K) (v w : V) (d : Dict K V)
      → lookup j (insert k v d) ≡ some w
      → ((j ≡ k) × (v ≡ w)) ⊎ (((j == k) ≡ false) × (lookup j d ≡ some w))
  lookup-insert_cases k j v w d h = elim (Bool-cases (j == k)) [
    | inl same ↦ inl ((eq.equal_iff j k).0 same, ground (arith, lookup-insert k j v d))
    | inr other ↦ inr (other, ground (arith, lookup-insert k j v d))
  ]

  -- A dict holds a key once.
  abbrev pub distinct_keys : Dict K V → Bool
  distinct_keys [] = true
  distinct_keys ((k, v) ∷ d) = not (mem k (keys d)) && distinct_keys d

  pub mem-keys : (k : K) (d : Dict K V) → mem k (keys d) ≡ contains k d
  mem-keys k [] = refl
  mem-keys k ((j, v) ∷ d) = ground (arith, mem-keys k d)

  mem-insert :
      (j k : K) (v : V) (d : Dict K V)
      → (j == k) ≡ false
      → mem j (keys (insert k v d)) ≡ mem j (keys d)
  mem-insert j k v [] h = ground arith
  mem-insert j k v ((i, w) ∷ d) h = ground (arith, mem-insert j k v d)

  pub insert-distinct_keys :
      (k : K) (v : V) (d : Dict K V) → distinct_keys d ≡ true → distinct_keys (insert k v d) ≡ true
  insert-distinct_keys k v [] h = refl
  insert-distinct_keys k v ((j, w) ∷ d) h =
      ground
        (arith, insert-distinct_keys k v d, mem-insert j k v d, eq.equal_iff j k, eq.equal_iff k j)

  mem-erase : (j k : K) (d : Dict K V) → mem j (keys d) ≡ false → mem j (keys (erase k d)) ≡ false
  mem-erase j k [] h = h
  mem-erase j k ((i, w) ∷ d) h = ground (arith, mem-erase j k d)

  pub erase-distinct_keys :
      (k : K) (d : Dict K V) → distinct_keys d ≡ true → distinct_keys (erase k d) ≡ true
  erase-distinct_keys k [] h = refl
  erase-distinct_keys k ((j, w) ∷ d) h = ground (arith, erase-distinct_keys k d, mem-erase j k d)

  -- What is found after an erasure was there before.
  pub lookup-erase :
      (k j : K) (v : V) (d : Dict K V)
      → distinct_keys d ≡ true
      → lookup j (erase k d) ≡ some v
      → lookup j d ≡ some v
  lookup-erase k j v [] u h = h
  lookup-erase k j v ((i, w) ∷ d) u h =
      ground (arith, lookup-erase k j v d, mem-keys i d, eq.equal_iff j i)

  -- What holds of all that lookup finds holds of every entry.
  pub distinct_keys-Every {μ} :
      (P : K → V → Type μ) (d : Dict K V)
      → distinct_keys d ≡ true
      → ((k : K) (v : V) → lookup k d ≡ some v → P k v)
      → Every P d
  distinct_keys-Every P [] u f = tt
  distinct_keys-Every P ((k, v) ∷ d) u f = (
    f k v (ground (arith, eq.equal_iff k k)),
    distinct_keys-Every P d (ground arith)
        (λ j w there. f j w (ground (arith, mem-keys k d, eq.equal_iff j k))),
  )

  pub Every-contains :
      (d e : Dict K V)
      → ((k : K) → contains k d ≡ true → contains k e ≡ true)
      → Every (λ k v. contains k e ≡ true) d
  Every-contains [] e f = tt
  Every-contains ((k, v) ∷ d) e f =
      (f k (ground (arith, eq.equal_iff k k)), Every-contains d e (λ j there. f j (ground arith)))
