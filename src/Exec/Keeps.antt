-- ===== src/Exec/Keeps.antt =====
-- What a statement keeps, whether it returns or raises: one rule for each way to build it.
use coengram.Prelude.{Bool, true, false, Option, none, some, List, [], ◌∷◌}
use coengram.Exec.{
  Error, Result, ok, err, Exec, Nothing, pure, raise_if, gets, present, return, ◌>>=◌, continue,
  for_each, count_each,
}

pub record Keeps {S A : Type 0} (P : S → Type 0) (m : Exec S A) : Type 0 where
  pub after : (s : S) → P s → P (m s).1

module _ {S A : Type 0} {P : S → Type 0} where
  pub Keeps-return : (r : Result A) → Keeps P (return r)
  Keeps-return r = record { after = λ s h. h }

  pub Keeps-pure : (a : A) → Keeps P (pure a)
  Keeps-pure a = record { after = λ s h. h }

  pub Keeps-gets : (f : S → A) → Keeps P (gets f)
  Keeps-gets f = record { after = λ s h. h }

  pub Keeps-present : (o : Option A) (x : Error) → Keeps P (present o x)
  Keeps-present none x = record { after = λ s h. h }
  Keeps-present (some a) x = record { after = λ s h. h }

pub Keeps-raise_if : {S : Type 0} {P : S → Type 0} (b : Bool) (x : Error) → Keeps P (raise_if b x)
Keeps-raise_if true x = record { after = λ s h. h }
Keeps-raise_if false x = record { after = λ s h. h }

module _ {S A B : Type 0} {P : S → Type 0} where
  continue-keeps :
      (r : Result A) (f : A → Exec S B) (s : S)
      → P s
      → ((a : A) → Keeps P (f a))
      → P (continue r f s).1
  continue-keeps (ok a) f s h kf = (kf a).after s h
  continue-keeps (err x) f s h kf = h

  pub Keeps-bind :
      (m : Exec S A) (f : A → Exec S B) → Keeps P m → ((a : A) → Keeps P (f a)) → Keeps P (m >>= f)
  Keeps-bind m f km kf = record {
    after = λ s h. continue-keeps (m s).0 f (m s).1 (km.after s h) kf;
  }

module _ {S A : Type 0} {P : S → Type 0} where
  pub Keeps-for_each :
      (f : A → Exec S Nothing) (xs : List A) → ((a : A) → Keeps P (f a)) → Keeps P (for_each f xs)
  unfolding for_each
  Keeps-for_each f [] kf = Keeps-pure tt
  Keeps-for_each f (x ∷ xs) kf =
      Keeps-bind (f x) (λ a. for_each f xs) (kf x) (λ a. Keeps-for_each f xs kf)

  pub Keeps-count_each :
      (f : A → Exec S Bool) (xs : List A) → ((a : A) → Keeps P (f a)) → Keeps P (count_each f xs)
  unfolding count_each
  Keeps-count_each f [] kf = Keeps-pure 0
  Keeps-count_each f (x ∷ xs) kf =
      Keeps-bind (f x) _ (kf x)
        (λ done. Keeps-bind (count_each f xs) _ (Keeps-count_each f xs kf) (λ n. Keeps-pure _))

pub ruleset keeps_rules = (
  Keeps-return, Keeps-pure, Keeps-gets, Keeps-present, Keeps-raise_if, Keeps-bind, Keeps-for_each,
  Keeps-count_each,
)
