-- ===== src/Provisioning/Prefix.antt =====
-- provisioning.py: the progress of a Tenant is a prefix of the steps, and every write keeps it one.
use coengram.Prelude.{
  suc, String, ◌==◌, ==_refl, ==_iff, string_eq, list_eq, bool_eq, ◌≡◌, refl, ap, Bool, true, false,
  ◌&&◌, some, List, [], ◌∷◌, ◌++◌, arith, contains, contains-append, length, take, inl, inr,
  Option-cases,
}
use coengram.Exec.{ok}
use coengram.Dict
use coengram.Dict.Laws.{get-put_cases}
use coengram.Provisioning.{
  ProvisioningState, ProvisioningStep, TenantManifest, steps, step_eq, step_beq, is_active,
  is_provisioning, activate,
}
use coengram.Provisioning
use coengram.Provisioning.Store.{
  States, get_elem?, next_step, is_next, validate_completed_prefix, require_provisioning,
}

-- The completed steps are the first ones, and the last one is among them just when the Tenant is active.
abbrev pub is_valid : ProvisioningState → Bool
is_valid st =
    st.completed_steps == take (length st.completed_steps) steps
    && contains activate st.completed_steps == is_active st.status

pub record IsValid (s : States) : Type 0 where
  pub states_valid :
      (k : String) (st : ProvisioningState) → Dict.get s k ≡ some st → is_valid st ≡ true

length-append_one {ℓ} : {A : Type ℓ} (xs : List A) (x : A) → length (xs ++ x ∷ []) ≡ suc (length xs)
length-append_one [] x = refl
length-append_one (y ∷ ys) x = ap suc (length-append_one ys x)

-- The next element of a list prolongs a prefix of it.
take_next {ℓ} :
    {A : Type ℓ} (xs c : List A) (x : A)
    → get_elem? xs (length c) ≡ some x
    → c ≡ take (length c) xs
    → c ++ x ∷ [] ≡ take (suc (length c)) xs
take_next [] [] x h e = absurd (ground arith)
take_next (z ∷ []) [] x h e = ground arith
take_next (z ∷ w ∷ zs) [] x h e = ground arith
take_next [] (y ∷ c) x h e = absurd (ground arith)
take_next (z ∷ zs) (y ∷ c) x h e = ground (arith, take_next zs c x h)

prolonged :
    (c : List ProvisioningStep) (step : ProvisioningStep)
    → (c == take (length c) steps) ≡ true
    → is_next step (next_step c) ≡ true
    → ((c ++ step ∷ []) == take (length (c ++ step ∷ [])) steps) ≡ true
prolonged c step h n = elim (Option-cases (next_step c)) [
  | inl none' ↦ absurd (ground (arith, none', n))
  | inr (x, found) ↦
      let same : step ≡ x = ground (arith, found, n, ==_iff step x) in
      rw
        (
          length-append_one,
          ← take_next steps c step (rw same found) ((==_iff c (take (length c) steps)).0 h),
        )
        (==_refl (c ++ step ∷ []))
]

contains_one : (a b : ProvisioningStep) → contains a (b ∷ []) ≡ (b == a)
unfolding contains
contains_one a b = ground arith

pub put-IsValid :
    (s : States) (k : String) (st : ProvisioningState)
    → IsValid s
    → is_valid st ≡ true
    → IsValid (Dict.put s k st)
put-IsValid s k st h good = record {
  states_valid = λ j q found. elim (get-put_cases s k j st q found) [
    | inl (_, same) ↦ rw (← same) good
    | inr old ↦ h.states_valid j q old
  ];
}

-- what `_require_provisioning` lets through
pub require_provisioning_ok :
    (t : String) (s : States) (c : ProvisioningState)
    → (require_provisioning t s).0 ≡ ok c
    → (Dict.get s t ≡ some c) × (is_provisioning c.status ≡ true) × (is_valid c ≡ true)
unfolding require_provisioning validate_completed_prefix
require_provisioning_ok t s c h = ground arith

pub require_provisioning_reads : (t : String) (s : States) → (require_provisioning t s).1 ≡ s
unfolding require_provisioning validate_completed_prefix
require_provisioning_reads t s = ground arith

-- the state after one more step
abbrev pub with_step : ProvisioningState → ProvisioningStep → ProvisioningState
with_step c step = record c { completed_steps = c.completed_steps ++ step ∷ [] }

abbrev pub activated : ProvisioningState → ProvisioningState
activated c = record c {
  status = Provisioning.active;
  completed_steps = c.completed_steps ++ activate ∷ [];
}

pub with_step-is_valid :
    (c : ProvisioningState) (step : ProvisioningStep)
    → is_provisioning c.status ≡ true
    → is_valid c ≡ true
    → (step == activate) ≡ false
    → is_next step (next_step c.completed_steps) ≡ true
    → is_valid (with_step c step) ≡ true
with_step-is_valid c step on good other next = ground (
  arith,
  prolonged c.completed_steps step (ground (arith, good)) next,
  contains-append activate c.completed_steps (step ∷ []),
  contains_one activate step,
  good,
  on,
  other,
)

pub activated-is_valid :
    (c : ProvisioningState)
    → is_valid c ≡ true
    → is_next activate (next_step c.completed_steps) ≡ true
    → is_valid (activated c) ≡ true
activated-is_valid c good next = ground (
  arith,
  prolonged c.completed_steps activate (ground (arith, good)) next,
  contains-append activate c.completed_steps (activate ∷ []),
  contains_one activate activate,
  good,
)
