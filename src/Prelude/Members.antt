-- ===== src/Prelude/Members.antt =====
-- What a list holds, under the operations that select, sort and cut it.
use Prim.Native.Nat.{ℕ, zero, suc, ◌≤◌, ◌<◌}
use mathlib.Core.Path.{◌≡◌, refl, ap, subst}
use mathlib.Core.Logic.{◌⊎◌, inl, inr}
use mathlib.Core.Bool.{Bool, true, false}
use mathlib.Core.List.{List, [], ◌∷◌, ◌++◌}
use native.Mathlib.Omega.{arith}
use coengram.Prelude.Tests.{leb, Bool-cases}
use coengram.Prelude.Lists.{length, take, keep}
use coengram.Prelude.Sort.{insert, sort}

module _ {A : Type 0} where
  infix 50 ◌∈◌
  abbrev pub ◌∈◌ : A → List A → Type 0
  a ∈ [] = ⊥
  a ∈ (x ∷ xs) = (x ≡ a) ⊎ (a ∈ xs)

  abbrev pub All : (A → Type 0) → List A → Type 0
  All P [] = Unit
  All P (x ∷ xs) = P x × All P xs

  pub All-mem : (P : A → Type 0) (a : A) (xs : List A) → All P xs → a ∈ xs → P a
  All-mem P a [] h m = absurd m
  All-mem P a (x ∷ xs) h (inl e) = subst P e h.0
  All-mem P a (x ∷ xs) h (inr m) = All-mem P a xs h.1 m

  pub All-of_mem : (P : A → Type 0) (xs : List A) → ((a : A) → a ∈ xs → P a) → All P xs
  All-of_mem P [] h = tt
  All-of_mem P (x ∷ xs) h = (h x (inl refl), All-of_mem P xs (λ a m. h a (inr m)))

  pub mem-append-left : (a : A) (xs ys : List A) → a ∈ xs → a ∈ (xs ++ ys)
  mem-append-left a [] ys m = absurd m
  mem-append-left a (x ∷ xs) ys (inl e) = inl e
  mem-append-left a (x ∷ xs) ys (inr m) = inr (mem-append-left a xs ys m)

  pub mem-append-right : (a : A) (xs ys : List A) → a ∈ ys → a ∈ (xs ++ ys)
  mem-append-right a [] ys m = m
  mem-append-right a (x ∷ xs) ys m = inr (mem-append-right a xs ys m)

  pub mem-append_cases : (a : A) (xs ys : List A) → a ∈ (xs ++ ys) → (a ∈ xs) ⊎ (a ∈ ys)
  mem-append_cases a [] ys m = inr m
  mem-append_cases a (x ∷ xs) ys (inl e) = inl (inl e)
  mem-append_cases a (x ∷ xs) ys (inr m) = elim (mem-append_cases a xs ys m) [
    | inl l ↦ inl (inr l)
    | inr r ↦ inr r
  ]

  -- an element is kept exactly when it passes
  pub mem-keep : (p : A → Bool) (a : A) (xs : List A) → a ∈ xs → p a ≡ true → a ∈ keep p xs
  unfolding keep
  mem-keep p a [] m t = absurd m
  mem-keep p a (x ∷ xs) (inl e) t = elim (Bool-cases (p x)) [
    | inl hit ↦ rw hit (inl e)
    | inr miss ↦ absurd (cc)
  ]
  mem-keep p a (x ∷ xs) (inr m) t = elim (Bool-cases (p x)) [
    | inl hit ↦ rw hit (inr (mem-keep p a xs m t))
    | inr miss ↦ rw miss (mem-keep p a xs m t)
  ]

  pub mem_of_keep : (p : A → Bool) (a : A) (xs : List A) → a ∈ keep p xs → (a ∈ xs) × (p a ≡ true)
  unfolding keep
  mem_of_keep p a [] = λ m. absurd m
  mem_of_keep p a (x ∷ xs) = elim (Bool-cases (p x)) [
    | inl hit ↦ rw hit (λ m. elim m [
      | inl e ↦ (inl e, subst (λ y. p y ≡ true) e hit)
      | inr later ↦ (let (l, t) = mem_of_keep p a xs later in (inr l, t))
    ])
    | inr miss ↦ rw miss (λ m. let (l, t) = mem_of_keep p a xs m in (inr l, t))
  ]

  pub length-keep-le : (p : A → Bool) (xs : List A) → length (keep p xs) ≤ length xs
  unfolding keep
  length-keep-le p [] = omega arith
  length-keep-le p (x ∷ xs) = ground (arith, length-keep-le p xs)

  -- a list loses what does not pass
  pub length-keep-lt :
      (p : A → Bool) (a : A) (xs : List A) → a ∈ xs → p a ≡ false → length (keep p xs) < length xs
  unfolding keep
  length-keep-lt p a [] m h = absurd m
  length-keep-lt p a (x ∷ xs) (inl e) h = ground (arith, e, ap p e, length-keep-le p xs)
  length-keep-lt p a (x ∷ xs) (inr m) h = ground (arith, length-keep-lt p a xs m h)

  -- and is left as it is where all of it passes
  pub keep_all : (p : A → Bool) (xs : List A) → ((a : A) → a ∈ xs → p a ≡ true) → keep p xs ≡ xs
  unfolding keep
  keep_all p [] h = refl
  keep_all p (x ∷ xs) h =
      rw (h x (inl refl)) (ap (λ ys. x ∷ ys) (keep_all p xs (λ a m. h a (inr m))))

  module _ (le : A → A → Bool) where
    mem-insert : (a x : A) (ys : List A) → (x ≡ a) ⊎ (a ∈ ys) → a ∈ insert le x ys
    unfolding insert
    mem-insert a x [] m = m
    mem-insert a x (y ∷ ys) m = elim (Bool-cases (le x y)) [
      | inl here ↦ rw here m
      | inr later ↦ rw later (elim m [
        | inl e ↦ inr (mem-insert a x ys (inl e))
        | inr n ↦ elim n [ inl e ↦ inl e | inr k ↦ inr (mem-insert a x ys (inr k)) ]
      ])
    ]

    mem_of_insert : (a x : A) (ys : List A) → a ∈ insert le x ys → (x ≡ a) ⊎ (a ∈ ys)
    unfolding insert
    mem_of_insert a x [] = λ m. m
    mem_of_insert a x (y ∷ ys) = elim (Bool-cases (le x y)) [
      | inl here ↦ rw here (λ m. m)
      | inr later ↦ rw later (λ m. elim m [
        | inl e ↦ inr (inl e)
        | inr n ↦ elim (mem_of_insert a x ys n) [ inl e ↦ inl e | inr k ↦ inr (inr k) ]
      ])
    ]

    pub mem-sort : (a : A) (xs : List A) → a ∈ xs → a ∈ sort le xs
    unfolding sort
    mem-sort a [] m = m
    mem-sort a (x ∷ xs) (inl e) = mem-insert a x (sort le xs) (inl e)
    mem-sort a (x ∷ xs) (inr m) = mem-insert a x (sort le xs) (inr (mem-sort a xs m))

    pub mem_of_sort : (a : A) (xs : List A) → a ∈ sort le xs → a ∈ xs
    unfolding sort
    mem_of_sort a [] m = m
    mem_of_sort a (x ∷ xs) m = elim (mem_of_insert a x (sort le xs) m) [
      | inl e ↦ inl e
      | inr k ↦ inr (mem_of_sort a xs k)
    ]

  pub mem_of_take : (n : ℕ) (a : A) (xs : List A) → a ∈ take n xs → a ∈ xs
  mem_of_take n a [] m = m
  mem_of_take zero a (x ∷ xs) m = absurd m
  mem_of_take (suc n) a (x ∷ xs) (inl e) = inl e
  mem_of_take (suc n) a (x ∷ xs) (inr m) = inr (mem_of_take n a xs m)

  pub length-take-le : (n : ℕ) (xs : List A) → length (take n xs) ≤ n
  length-take-le n [] = omega arith
  length-take-le zero (x ∷ xs) = omega arith
  length-take-le (suc n) (x ∷ xs) = omega (arith, length-take-le n xs)

  -- A list whose values under `f` do not rise.
  module _ (f : A → ℕ) where
    abbrev pub IsDescending : List A → Type 0
    IsDescending [] = Unit
    IsDescending (x ∷ xs) = All (λ y. f y ≤ f x) xs × IsDescending xs

    abbrev pub down : A → A → Bool
    down a b = leb (f b) (f a)

    insert-IsDescending : (x : A) (ys : List A) → IsDescending ys → IsDescending (insert down x ys)
    unfolding insert
    insert-IsDescending x [] h = (tt, tt)
    insert-IsDescending x (y ∷ ys) h = elim (Bool-cases (down x y)) [
      | inl here ↦
          rw here ((ground arith, All-of_mem _ ys (λ a m. ground (arith, All-mem _ a ys h.0 m))), h)
      | inr later ↦ rw later (
        All-of_mem _ _ (λ a m. elim (mem_of_insert down a x ys m) [
          | inl e ↦ ground (arith, e, ap f e)
          | inr k ↦ All-mem _ a ys h.0 k
        ]),
        insert-IsDescending x ys h.1,
      )
    ]

    pub sort-IsDescending : (xs : List A) → IsDescending (sort down xs)
    unfolding sort
    sort-IsDescending [] = tt
    sort-IsDescending (x ∷ xs) = insert-IsDescending x (sort down xs) (sort-IsDescending xs)

    pub keep-IsDescending :
        (p : A → Bool) (xs : List A) → IsDescending xs → IsDescending (keep p xs)
    unfolding keep
    keep-IsDescending p [] h = tt
    keep-IsDescending p (x ∷ xs) h = elim (Bool-cases (p x)) [
      | inl hit ↦ rw hit (
        All-of_mem _ _ (λ a m. All-mem _ a xs h.0 (mem_of_keep p a xs m).0),
        keep-IsDescending p xs h.1,
      )
      | inr miss ↦ rw miss (keep-IsDescending p xs h.1)
    ]

    pub take-IsDescending : (n : ℕ) (xs : List A) → IsDescending xs → IsDescending (take n xs)
    take-IsDescending n [] h = tt
    take-IsDescending zero (x ∷ xs) h = tt
    take-IsDescending (suc n) (x ∷ xs) h = (
      All-of_mem _ _ (λ a m. All-mem _ a xs h.0 (mem_of_take n a xs m)),
      take-IsDescending n xs h.1,
    )

    -- What a cut leaves out lies below all that it keeps, and the cut is then full.
    pub take_cases :
        (n : ℕ) (a : A) (xs : List A)
        → IsDescending xs
        → a ∈ xs
        → (a ∈ take n xs) ⊎ (length (take n xs) ≡ n) × All (λ y. f a ≤ f y) (take n xs)
    take_cases n a [] h m = absurd m
    take_cases zero a (x ∷ xs) h m = inr (refl, tt)
    take_cases (suc n) a (x ∷ xs) h (inl e) = inl (inl e)
    take_cases (suc n) a (x ∷ xs) h (inr m) = elim (take_cases n a xs h.1 m) [
      | inl l ↦ inl (inr l)
      | inr (full, above) ↦ inr (ap (λ k. suc k) full, (All-mem _ a xs h.0 m, above))
    ]
