-- ===== src/Provisioning/Laws.antt =====
-- provisioning.py: every call of the provisioner keeps the recorded progress valid, and one that returns
-- has completed every step.
use coengram.Prelude.{
  suc, String, ◌==◌, string_eq, list_eq, bool_eq, ◌≡◌, refl, true, false, not, none, some, arith,
  contains, inl, inr, ◌⊎◌,
}
use coengram.Exec.{raise_if, provisioning_conflict, ◌>>◌}
use coengram.Exec.Reads.{reads_then, guard_then}
use coengram.Dict
use coengram.Provisioning.{
  ProvisioningState, ProvisioningStep, TenantManifest, steps, step_eq, is_active, is_provisioning,
  activate, provisioning,
}
use coengram.Provisioning
use coengram.Provisioning.Store.{
  States, next_step, is_next, validate_completed_prefix, require_matching_manifest, restart, start,
  require_provisioning, mark_completed, mark_failed, activate_tenant, first_state, write,
}
use coengram.Provisioning.Prefix.{
  IsValid, is_valid, put-IsValid, require_provisioning_ok, require_provisioning_reads, with_step,
  with_step-is_valid, activated, activated-is_valid,
}

pub mark_completed-IsValid :
    (t : String) (step : ProvisioningStep) (s : States)
    → IsValid s
    → IsValid (mark_completed t step s).1
unfolding mark_completed
mark_completed-IsValid t step s h =
    reads_then IsValid (require_provisioning t)
      (λ c.
        raise_if (step == activate)
          (provisioning_conflict "Activation requires the final activation transition")
        >> (raise_if (not (is_next step (next_step c.completed_steps)))
              (provisioning_conflict "Provisioning steps must complete in order")
            >> write t (with_step c step)))
      s (require_provisioning_reads t s) h
      λ c passed.
        let (_, on, good) = require_provisioning_ok t s c passed in
        guard_then IsValid (step == activate) _ _ s h λ other.
          guard_then IsValid (not (is_next step (next_step c.completed_steps))) _ _ s h λ next.
            put-IsValid s t (with_step c step) h
              (with_step-is_valid c step on good other (ground (arith, next)))

abbrev failing : ProvisioningStep → String → ProvisioningState → ProvisioningState
failing step code c = record c {
  status = Provisioning.failed;
  failed_step = some step;
  failure_code = some code;
}

pub mark_failed-IsValid :
    (t : String) (step : ProvisioningStep) (code : String) (s : States)
    → IsValid s
    → IsValid (mark_failed t step code s).1
unfolding mark_failed
mark_failed-IsValid t step code s h =
    reads_then IsValid (require_provisioning t)
      (λ c.
        raise_if (not (is_next step (next_step c.completed_steps)))
          (provisioning_conflict "Only the current provisioning step can fail")
        >> write t (failing step code c))
      s (require_provisioning_reads t s) h
      λ c passed.
        let (_, on, good) = require_provisioning_ok t s c passed in
        guard_then IsValid (not (is_next step (next_step c.completed_steps))) _ _ s h
          λ next. put-IsValid s t (failing step code c) h (ground (arith, on, good))

pub activate_tenant-IsValid :
    (t : String) (s : States) → IsValid s → IsValid (activate_tenant t s).1
unfolding activate_tenant
activate_tenant-IsValid t s h =
    reads_then IsValid (require_provisioning t)
      (λ c.
        raise_if (not (is_next activate (next_step c.completed_steps)))
          (provisioning_conflict "Tenant cannot activate before every verification passes")
        >> write t (activated c))
      s (require_provisioning_reads t s) h
      λ c passed.
        let (_, on, good) = require_provisioning_ok t s c passed in
        guard_then IsValid (not (is_next activate (next_step c.completed_steps))) _ _ s h
          λ next. put-IsValid s t (activated c) h (activated-is_valid c good (ground (arith, next)))

start_cases :
    (m : TenantManifest) (s : States)
    → ((start m s).1 ≡ s)
      ⊎ ((start m s).1 ≡ Dict.put s m.tenant_id (first_state m))
      ⊎ ((c : ProvisioningState) × (is_active c.status ≡ false)
          × (is_valid c ≡ true)
          × ((start m s).1
              ≡ Dict.put s m.tenant_id (record c {
                status = provisioning;
                failed_step = none;
                failure_code = none;
                attempt = suc c.attempt;
              })))
unfolding start restart require_matching_manifest validate_completed_prefix
start_cases m s = grind arith

pub start-IsValid : (m : TenantManifest) (s : States) → IsValid s → IsValid (start m s).1
unfolding contains
start-IsValid m s h = elim (start_cases m s) [
  | inl same ↦ rw same h
  | inr (inl new) ↦ rw new (put-IsValid s m.tenant_id (first_state m) h refl)
  | inr (inr (c, off, good, made)) ↦
      rw made (put-IsValid s m.tenant_id _ h (ground (arith, off, good)))
]
