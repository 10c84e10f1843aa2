-- ===== src/Prelude/Lists.antt =====
-- Lists measured by native numbers, membership tests, and Python's `frozenset` of strings.
use Prim.Native.Nat.{ℕ, zero, suc}
use mathlib.Core.Path.{◌≡◌, refl}
use mathlib.Core.Logic.{◌↔◌}
use mathlib.Core.Bool.{Bool, true, false, not, ◌&&◌, ◌||◌}
use mathlib.Core.List.{List, [], ◌∷◌, ◌++◌}
use native.Mathlib.Omega.{arith}
use coengram.Prelude.Tests.{if◌then◌else◌}
use coengram.Prelude.Equality.{Eq, ◌==◌}

module _ {ℓ} {A : Type ℓ} where
  abbrev pub length : List A → ℕ
  length [] = 0
  length (x ∷ xs) = suc (length xs)

  -- `xs[:n]`
  abbrev pub take : ℕ → List A → List A
  take n [] = []
  take zero (x ∷ xs) = []
  take (suc n) (x ∷ xs) = x ∷ take n xs

  -- `tuple(x for x in xs if p(x))`
  unfoldable pub keep : (A → Bool) → List A → List A
  keep p [] = []
  keep p (x ∷ xs) = let rest = keep p xs in if p x then x ∷ rest else rest

  -- `any(p(x) for x in xs)`
  unfoldable pub any : (A → Bool) → List A → Bool
  any p [] = false
  any p (x ∷ xs) = p x || any p xs

module _ {ℓ} {A : Type ℓ} ⦃e : Eq A⦄ where
  -- `a in xs`
  unfoldable pub contains : A → List A → Bool
  contains a [] = false
  contains a (x ∷ xs) = x == a || contains a xs

  -- `xs <= ys` on sets
  unfoldable pub subset : List A → List A → Bool
  unfolding contains
  subset [] ys = true
  subset (x ∷ xs) ys = contains x ys && subset xs ys

  -- `xs == ys` on sets
  unfoldable pub same_set : List A → List A → Bool
  unfolding subset
  same_set xs ys = subset xs ys && subset ys xs

  -- `xs - {a}`
  unfoldable pub without : A → List A → List A
  without a [] = []
  without a (x ∷ xs) = let rest = without a xs in if x == a then rest else x ∷ rest

  -- `xs | {a}`
  unfoldable pub with_element : A → List A → List A
  unfolding contains
  with_element a xs = if contains a xs then xs else xs ++ a ∷ []

  pub contains-append :
      (a : A) (xs ys : List A) → contains a (xs ++ ys) ≡ (contains a xs || contains a ys)
  unfolding contains
  contains-append a [] ys = refl
  contains-append a (x ∷ xs) ys = ground (arith, contains-append a xs ys)

  pub contains-without :
      (a b : A) (xs : List A) → contains a (without b xs) ≡ (not (b == a) && contains a xs)
  unfolding contains without
  contains-without a b [] = ground arith
  contains-without a b (x ∷ xs) =
      ground (arith, contains-without a b xs, e.beq_iff x b, e.beq_iff x a, e.beq_iff b a)

  pub contains-with_element :
      (a b : A) (xs : List A) → contains a (with_element b xs) ≡ (b == a || contains a xs)
  unfolding with_element contains
  contains-with_element a b xs = ground (arith, contains-append a xs (b ∷ []), e.beq_iff b a)

  pub contains_of_subset :
      (a : A) (xs ys : List A) → subset xs ys ≡ true → contains a xs ≡ true → contains a ys ≡ true
  unfolding subset
  contains_of_subset a [] ys h c = ground arith
  contains_of_subset a (x ∷ xs) ys h c = ground (arith, contains_of_subset a xs ys, e.beq_iff x a)

  subset_of_contains :
      (xs ys : List A)
      → ((a : A) → contains a xs ≡ true → contains a ys ≡ true)
      → subset xs ys ≡ true
  unfolding subset
  subset_of_contains [] ys h = refl
  subset_of_contains (x ∷ xs) ys h = ground (
    arith,
    h x,
    e.beq_iff x x,
    subset_of_contains xs ys (λ a c. h a (ground (arith, e.beq_iff x a))),
  )

  -- A test of inclusion decides inclusion.
  pub subset_iff :
      (xs ys : List A)
      → (subset xs ys ≡ true) ↔ ((a : A) → contains a xs ≡ true → contains a ys ≡ true)
  subset_iff xs ys = (λ h a. contains_of_subset a xs ys h, subset_of_contains xs ys)

  pub subset_trans :
      (xs ys zs : List A) → subset xs ys ≡ true → subset ys zs ≡ true → subset xs zs ≡ true
  subset_trans xs ys zs h k =
      subset_of_contains xs zs
        (λ a c. contains_of_subset a ys zs k (contains_of_subset a xs ys h c))

  pub subset_refl : (xs : List A) → subset xs xs ≡ true
  subset_refl xs = subset_of_contains xs xs (λ a c. c)

  pub same_set-subset : (xs ys : List A) → same_set xs ys ≡ true → subset ys xs ≡ true
  unfolding same_set
  same_set-subset xs ys h = ground arith
