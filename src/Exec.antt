-- ===== src/Exec.antt =====
-- Methods that change an object and may raise: a function of the object's state that returns the
-- result or the exception together with the state that is left. What was written before a raise
-- stays written.
pub mod Reads
pub mod Keeps
use coengram.Prelude.{
  String, ◌≡◌, refl, ◌⊎◌, inl, inr, Bool, true, false, Option, none, some, List, [], ◌∷◌, ℕ, suc,
  if◌then◌else◌,
}

-- The exceptions of the Python code, with their messages.
pub data Error : Type 0 where
  value_error permission_error lookup_error runtime_error authentication_error control_conflict
        control_not_found tenant_memory_unavailable provisioning_conflict provisioning_failed :
      String → Error

pub data Result {ℓ} (A : Type ℓ) : Type ℓ where
  ok : A → Result A
  err : Error → Result A

abbrev pub Exec {ℓ} : Type ℓ → Type ℓ → Type ℓ
Exec S A = S → Result A × S

-- what a statement returns that returns nothing
abbrev pub Nothing : Type 0
Nothing = Unit

module _ {ℓ} {S A : Type ℓ} where
  abbrev pub pure : A → Exec S A
  pure a s = (ok a, s)

  abbrev pub raise : Error → Exec S A
  raise x s = (err x, s)

  abbrev pub gets : (S → A) → Exec S A
  gets f s = (ok (f s), s)

-- `if b: raise x`
abbrev pub raise_if : {S : Type 0} → Bool → Error → Exec S Nothing
raise_if b x s = if b then (err x, s) else (ok tt, s)

abbrev pub modify : {S : Type 0} → (S → S) → Exec S Nothing
modify f s = (ok tt, f s)

module _ {ℓ} {S A : Type ℓ} where
  -- `if o is None or not p(o): raise x`, and then the value
  abbrev pub require : (A → Bool) → Option A → Error → Exec S A
  require p none x s = (err x, s)
  require p (some a) x s = if p a then (ok a, s) else (err x, s)

  -- `if o is None: raise x`
  abbrev pub present : Option A → Error → Exec S A
  present none x s = (err x, s)
  present (some a) x s = (ok a, s)

module _ {ℓ} {S A B : Type ℓ} where
  abbrev pub continue : Result A → (A → Exec S B) → Exec S B
  continue (ok a) f s = f a s
  continue (err x) f s = (err x, s)

  infixl 10 ◌>>=◌ ◌>>◌
  abbrev pub ◌>>=◌ : Exec S A → (A → Exec S B) → Exec S B
  ◌>>=◌ m f s = let (r, s') = m s in continue r f s'

  abbrev pub ◌>>◌ : Exec S A → Exec S B → Exec S B
  m >> n = m >>= λ _. n

-- `except AuthenticationError` catches it
abbrev pub is_authentication_error : Error → Bool
is_authentication_error (authentication_error m) = true
is_authentication_error _ = false

pub Result-cases {ℓ} :
    {A : Type ℓ} (r : Result A) → ((a : A) × (r ≡ ok a)) ⊎ ((x : Error) × (r ≡ err x))
Result-cases (ok a) = inl (a, refl)
Result-cases (err x) = inr (x, refl)

module _ {S A : Type 0} where
  -- `for x in xs: f(x)`
  unfoldable pub for_each : (A → Exec S Nothing) → List A → Exec S Nothing
  for_each f [] = pure tt
  for_each f (x ∷ xs) = f x >> for_each f xs

  -- `for x in xs: n += int(f(x))`
  unfoldable pub count_each : (A → Exec S Bool) → List A → Exec S ℕ
  count_each f [] = pure 0
  count_each f (x ∷ xs) = do done ← f x; n ← count_each f xs; pure (if done then suc n else n)

  -- a result that needs no state
  abbrev pub return : Result A → Exec S A
  return r s = (r, s)
