-- ===== src/Exec/Reads.antt =====
-- An action whose first part changes nothing keeps what the rest keeps.
use coengram.Prelude.{◌≡◌, refl, inl, inr, Bool, true, false}
use coengram.Exec.{
  Error, Result, ok, err, Exec, raise_if, ◌>>=◌, ◌>>◌, continue, pure, Result-cases,
}

module _ {S A B : Type 0} (P : S → Type 0) where
  continue-holds :
      (r : Result A) (f : A → Exec S B) (s : S)
      → P s
      → ((a : A) → r ≡ ok a → P (f a s).1)
      → P (continue r f s).1
  continue-holds (ok a) f s h k = k a refl
  continue-holds (err x) f s h k = h

  -- `m` changes nothing and `f` keeps `P`, for every result that `m` may hand it.
  pub reads_then :
      (m : Exec S A) (f : A → Exec S B) (s : S)
      → (m s).1 ≡ s
      → P s
      → ((a : A) → (m s).0 ≡ ok a → P (f a s).1)
      → P ((m >>= f) s).1
  reads_then m f s same h k = rw same (continue-holds (m s).0 f s h k)

-- A guard keeps what the rest keeps where the guard lets it run.
pub guard_then :
    {S A : Type 0} (P : S → Type 0) (b : Bool) (x : Error) (f : Exec S A) (s : S)
    → P s
    → (b ≡ false → P (f s).1)
    → P ((raise_if b x >> f) s).1
guard_then P true x f s h k = h
guard_then P false x f s h k = k refl

-- A result that is only turned into another leaves the state
pub then_pure :
    {S A B : Type 0} (m : Exec S A) (f : A → B) (s : S) → ((m >>= λ a. pure (f a)) s).1 ≡ (m s).1
then_pure m f s = elim (Result-cases (m s).0) [ inl (a, e) ↦ rw e | inr (x, e) ↦ rw e ]
