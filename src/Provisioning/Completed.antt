-- ===== src/Provisioning/Completed.antt =====
-- provisioning.py: what the provisioner's loop leaves, and what its return means.
use coengram.Prelude.{
  String, ◌==◌, string_eq, list_eq, bool_eq, ◌≡◌, refl, not, List, [], ◌∷◌, if◌then◌else◌, arith,
  contains, take, inl, inr, Bool-cases,
}
use coengram.Exec.{
  Error, Result, Nothing, raise_if, present, gets, provisioning_conflict, ◌>>=◌, ◌>>◌, Result-cases,
}
use coengram.Exec.Reads.{reads_then, guard_then}
use coengram.Auth.{lift_result}
use coengram.Dict
use coengram.Provisioning.{
  ProvisioningStep, TenantManifest, steps, step_eq, activate, record_control_state,
}
use coengram.Provisioning.Store.{
  States, validate_completed_prefix, require_matching_manifest, start, mark_completed, mark_failed,
}
use coengram.Provisioning.Prefix.{IsValid}
use coengram.Provisioning.Laws.{
  mark_completed-IsValid, mark_failed-IsValid, activate_tenant-IsValid, start-IsValid,
}
use coengram.Provisioning.Apply.{plan, is_noop, attempt_step, fail_step, apply_steps, apply}

plan_reads : (m : TenantManifest) (s : States) → (plan m s).1 ≡ s
unfolding plan require_matching_manifest validate_completed_prefix
plan_reads m s = ground arith

module _ (execute : ProvisioningStep → TenantManifest → Result Nothing)
    (type_name : Error → String) where
  attempt_step-IsValid :
      (m : TenantManifest) (step : ProvisioningStep) (s : States)
      → IsValid s
      → IsValid (attempt_step execute type_name m step s).1
  unfolding attempt_step
  attempt_step-IsValid m step s h = elim (Bool-cases (step == activate)) [
    | inl last ↦ rw last (activate_tenant-IsValid m.tenant_id s h)
    | inr other ↦ rw other (
        reads_then IsValid (lift_result (execute step m)) (λ _. mark_completed m.tenant_id step) s
          refl h (λ _ _. mark_completed-IsValid m.tenant_id step s h))
  ]

  fail_step_state :
      (m : TenantManifest) (step : ProvisioningStep) (x : Error) (s : States)
      → (fail_step execute type_name m step x s).1
        ≡ (mark_failed m.tenant_id step (type_name x) s).1
  unfolding fail_step
  fail_step_state m step x s = ground arith

  apply_steps-IsValid :
      (m : TenantManifest) (completed todo : List ProvisioningStep) (s : States)
      → IsValid s
      → IsValid (apply_steps execute type_name m completed todo s).1
  unfolding apply_steps
  apply_steps-IsValid m completed [] s h = h
  apply_steps-IsValid m completed (step ∷ rest) s h =
      let s' = (attempt_step execute type_name m step s).1 in
      let h' = attempt_step-IsValid m step s h in
      elim (Bool-cases (contains step completed)) [
        | inl done ↦ rw done (apply_steps-IsValid m completed rest s h)
        | inr todo' ↦ elim (Result-cases (attempt_step execute type_name m step s).0) [
          | inr (x, failed) ↦
              rw (todo', failed, fail_step_state m step x s')
                (mark_failed-IsValid m.tenant_id step (type_name x) s' h')
          | inl (st, passed) ↦ elim (Bool-cases (step == activate)) [
            | inl last ↦ rw (todo', passed, last) h'
            | inr other ↦
                rw (todo', passed, other) (apply_steps-IsValid m st.completed_steps rest s' h')
          ]
        ]
      ]

  -- Whatever happens at the steps, and whether `apply` returns or raises, the recorded progress of every
  -- Tenant stays a prefix of the steps, with the last step in it exactly where the Tenant is active.
  pub apply-IsValid :
      (m : TenantManifest) (s : States) → IsValid s → IsValid (apply execute type_name m s).1
  unfolding apply
  apply-IsValid m s h =
      reads_then IsValid (plan m)
        (λ p.
          if is_noop p
          then (gets (λ s. Dict.get s m.tenant_id) >>= λ found.
              present found (provisioning_conflict "Completed plan has no provisioning state"))
          else (start m >>= λ st.
              raise_if (not (take 1 st.completed_steps == record_control_state ∷ []))
                (provisioning_conflict "Provisioning state did not record the Tenant manifest")
              >> apply_steps execute type_name m st.completed_steps steps))
        s (plan_reads m s) h
        λ p _. elim (Bool-cases (is_noop p)) [
          | inl noop ↦ rw noop (ground (arith, h))
          | inr pending ↦
              let s' = (start m s).1 in
              let h' = start-IsValid m s h in
              rw pending (elim (Result-cases (start m s).0) [
                | inr (x, failed) ↦ rw failed h'
                | inl (st, started) ↦ rw started (
                    guard_then IsValid
                      (not (take 1 st.completed_steps == record_control_state ∷ [])) _ _ s' h'
                      λ _. apply_steps-IsValid m st.completed_steps steps s' h')
              ])
        ]
