-- ===== src/Provisioning/Returned.antt =====
-- provisioning.py: a provisioner that returns has completed every step, and the Tenant is active.
use coengram.Prelude.{
  ℕ, zero, suc, String, ◌==◌, ==_iff, string_eq, list_eq, bool_eq, ◌≡◌, refl, Bool, true, false,
  ◌&&◌, some, List, [], ◌∷◌, ◌++◌, arith, contains, length, take, inl, inr, ◌⊎◌, any, Bool-cases,
  contains-append, ◌∙◌,
}
use coengram.Exec.{Error, Result, ok, err, Nothing, Result-cases}
use coengram.Dict
use coengram.Dict.Laws.{get-put_self}
use coengram.Provisioning.{
  ProvisioningState, ProvisioningStep, TenantManifest, steps, step_eq, is_active, activate,
  record_control_state,
}
use coengram.Provisioning
use coengram.Provisioning.Store.{
  States, next_step, is_next, validate_completed_prefix, require_matching_manifest, start,
  require_provisioning, activate_tenant,
}
use coengram.Provisioning.Prefix.{
  IsValid, is_valid, activated, activated-is_valid, require_provisioning_ok,
  require_provisioning_reads,
}
use coengram.Provisioning.Apply.{
  plan, plan_of, is_noop, attempt_step, fail_step, apply_steps, apply,
}

-- A prefix of the steps that has the last one is all of them.
all_steps : (n : ℕ) → contains activate (take n steps) ≡ true → take n steps ≡ steps
unfolding contains
all_steps zero h = absurd (ground (arith, h))
all_steps (suc zero) h = absurd (ground (arith, h))
all_steps (suc (suc zero)) h = absurd (ground (arith, h))
all_steps (suc (suc (suc zero))) h = absurd (ground (arith, h))
all_steps (suc (suc (suc (suc zero)))) h = absurd (ground (arith, h))
all_steps (suc (suc (suc (suc (suc zero))))) h = absurd (ground (arith, h))
all_steps (suc (suc (suc (suc (suc (suc zero)))))) h = absurd (ground (arith, h))
all_steps (suc (suc (suc (suc (suc (suc (suc zero))))))) h = absurd (ground (arith, h))
all_steps (suc (suc (suc (suc (suc (suc (suc (suc zero)))))))) h = absurd (ground (arith, h))
all_steps (suc (suc (suc (suc (suc (suc (suc (suc (suc zero))))))))) h = absurd (ground (arith, h))
all_steps (suc (suc (suc (suc (suc (suc (suc (suc (suc (suc n)))))))))) h = refl

-- a valid state with the last step
abbrev has_activated : ProvisioningState → Bool
has_activated st = is_valid st && contains activate st.completed_steps

has_activated-steps :
    (st : ProvisioningState)
    → has_activated st ≡ true
    → (is_active st.status ≡ true) × (st.completed_steps ≡ steps)
has_activated-steps st h =
    let prefix : st.completed_steps ≡ take (length st.completed_steps) steps =
      (==_iff st.completed_steps (take (length st.completed_steps) steps)).0 (ground (arith, h)) in
    (
      ground (arith, h),
      prefix ∙ all_steps (length st.completed_steps) (rw (← prefix) (ground (arith, h))),
    )

pub contains_last : (c : List ProvisioningStep) → contains activate (c ++ activate ∷ []) ≡ true
unfolding contains
contains_last c = ground (arith, contains-append activate c (activate ∷ []))

activate_tenant_ok :
    (t : String) (s : States) (st : ProvisioningState)
    → (activate_tenant t s).0 ≡ ok st
    → (has_activated st ≡ true) × (Dict.get (activate_tenant t s).1 t ≡ some st)
unfolding activate_tenant
activate_tenant_ok t s st h = elim (Result-cases (require_provisioning t s).0) [
  | inr (x, failed) ↦ absurd (ground (arith, failed))
  | inl (c, passed) ↦
      let (_, _, good) = require_provisioning_ok t s c passed in
      elim (Bool-cases (is_next activate (next_step c.completed_steps))) [
        | inr off ↦ absurd (ground (arith, passed, off))
        | inl next ↦
            let same : activated c ≡ st = ground (arith, passed, next, h) in
            rw (passed, next, require_provisioning_reads t s)
              (rw (← same) (
                ground (arith, activated-is_valid c good next, contains_last c.completed_steps),
                get-put_self s t (activated c),
              ))
      ]
]

noop-contains :
    (m : TenantManifest) (status : _) (c : List ProvisioningStep)
    → is_noop (plan_of m status c) ≡ true
    → contains activate c ≡ true
unfolding is_noop any
noop-contains m status c h = ground (arith, h)

pub is_noop_new : (m : TenantManifest) → is_noop (plan_of m Provisioning.not_started []) ≡ false
unfolding is_noop any contains
is_noop_new m = refl

plan_ok :
    (m : TenantManifest) (s : States)
    → ((x : Error) × ((plan m s).0 ≡ err x))
      ⊎ ((plan m s).0 ≡ ok (plan_of m Provisioning.not_started []))
      ⊎ ((st : ProvisioningState) × (Dict.get s m.tenant_id ≡ some st)
          × (is_valid st ≡ true)
          × ((plan m s).0 ≡ ok (plan_of m st.status st.completed_steps)))
unfolding plan require_matching_manifest validate_completed_prefix
plan_ok m s = grind arith

plan_reads : (m : TenantManifest) (s : States) → (plan m s).1 ≡ s
unfolding plan require_matching_manifest validate_completed_prefix
plan_reads m s = ground arith

module _ (execute : ProvisioningStep → TenantManifest → Result Nothing)
    (type_name : Error → String) where
  -- the state is the Tenant's, with every step completed
  abbrev Completes : TenantManifest → States → ProvisioningState → Type 0
  Completes m s st = (has_activated st ≡ true) × (Dict.get s m.tenant_id ≡ some st)

  fail_step_raises :
      (m : TenantManifest) (step : ProvisioningStep) (x : Error) (s : States)
      (st : ProvisioningState)
      → ¬ ((fail_step execute type_name m step x s).0 ≡ ok st)
  unfolding fail_step
  fail_step_raises m step x s st h = ground (arith, h)

  attempted :
      (m : TenantManifest) (step : ProvisioningStep) (s : States) (st : ProvisioningState)
      → (step == activate) ≡ true
      → (attempt_step execute type_name m step s).0 ≡ ok st
      → Completes m (attempt_step execute type_name m step s).1 st
  unfolding attempt_step
  attempted m step s st last h =
      rw last (activate_tenant_ok m.tenant_id s st (ground (arith, last, h)))

  apply_steps-Completes :
      (m : TenantManifest) (completed todo : List ProvisioningStep) (s : States)
      (st : ProvisioningState)
      → (apply_steps execute type_name m completed todo s).0 ≡ ok st
      → Completes m (apply_steps execute type_name m completed todo s).1 st
  unfolding apply_steps
  apply_steps-Completes m completed [] s st h = absurd (ground (arith, h))
  apply_steps-Completes m completed (step ∷ rest) s st h =
      let s' = (attempt_step execute type_name m step s).1 in
      elim (Bool-cases (contains step completed)) [
        | inl done ↦ rw done (apply_steps-Completes m completed rest s st (grind (arith, done, h)))
        | inr todo' ↦ elim (Result-cases (attempt_step execute type_name m step s).0) [
          | inr (x, failed) ↦
              absurd (fail_step_raises m step x s' st (grind (arith, todo', failed, h)))
          | inl (next, passed) ↦ elim (Bool-cases (step == activate)) [
            | inl last ↦
                rw (todo', passed, last)
                  (attempted m step s st last (grind (arith, todo', passed, last, h)))
            | inr other ↦
                rw (todo', passed, other)
                  (apply_steps-Completes m next.completed_steps rest s' st
                    (grind (arith, todo', passed, other, h)))
          ]
        ]
      ]

  start_apply :
      (m : TenantManifest) (s : States) (st : ProvisioningState)
      → (p : _) → (plan m s).0 ≡ ok p
      → is_noop p ≡ false
      → (apply execute type_name m s).0 ≡ ok st
      → Completes m (apply execute type_name m s).1 st
  unfolding apply
  start_apply m s st p planned pending h =
      let s' = (start m s).1 in
      elim (Result-cases (start m s).0) [
        | inr (x, failed) ↦ absurd (ground (arith, planned, pending, failed, plan_reads m s))
        | inl (c, started) ↦
            elim (Bool-cases (take 1 c.completed_steps == record_control_state ∷ [])) [
              | inr bad ↦ absurd (ground (arith, planned, pending, started, bad, plan_reads m s))
              | inl good ↦
                  rw (planned, plan_reads m s, pending, started, good)
                    (apply_steps-Completes m c.completed_steps steps s' st
                      (ground (arith, planned, pending, started, good, plan_reads m s, h)))
            ]
      ]

  -- If the recorded progress is valid and `apply` returns a state, every step is completed in it, in order,
  -- the Tenant is active, and the state is what is recorded.
  pub apply-steps :
      (m : TenantManifest) (s : States) (st : ProvisioningState)
      → IsValid s
      → (apply execute type_name m s).0 ≡ ok st
      → (is_active st.status ≡ true)
        × (st.completed_steps ≡ steps)
        × (Dict.get (apply execute type_name m s).1 m.tenant_id ≡ some st)
  unfolding apply contains
  apply-steps m s st h done = elim (plan_ok m s) [
    | inl (x, failed) ↦ absurd (ground (arith, failed))
    | inr (inl new) ↦
        let (has, stored) =
          start_apply m s st (plan_of m Provisioning.not_started []) new (is_noop_new m) done in
        let (on, all) = has_activated-steps st has in (on, all, stored)
    | inr (inr (c, found, good, planned)) ↦
        elim (Bool-cases (is_noop (plan_of m c.status c.completed_steps))) [
          | inl noop ↦
              let same : c ≡ st = ground (arith, planned, noop, plan_reads m s, found, done) in
              let (on, all) =
                has_activated-steps c
                  (ground (arith, good, noop-contains m c.status c.completed_steps noop)) in
              rw (planned, noop, plan_reads m s, ← same) (on, all, ground (arith, found))
          | inr pending ↦
              let (has, stored) =
                start_apply m s st (plan_of m c.status c.completed_steps) planned pending done in
              let (on, all) = has_activated-steps st has in (on, all, stored)
        ]
  ]
