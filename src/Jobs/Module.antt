-- ===== src/Jobs/Module.antt =====
-- control.py, `ControlModule`: what Operators ask of Provisioning Jobs. Every request that succeeds is
-- recorded in the audit; `event_id` is what `uuid4` returns.
use Prim.Native.String.{◌++◌}
use coengram.Prelude.{
  ℕ, String, ◌==◌, string_eq, Bool, not, ◌||◌, Option, none, some, List, [], ◌∷◌, holds,
}
use coengram.Prelude.Text.{strip}
use coengram.Exec.{Exec, value_error, control_not_found, raise_if, gets, present, pure, ◌>>=◌, ◌>>◌}
use coengram.Control.Identities.{Identities, get_tenant}
use coengram.Operators.{OperatorSession, OperatorAuditEvent}
use coengram.Operators.Module.{create_operator_audit_event, record_operator_audit_event}
use coengram.Jobs.{
  Console, Jobs, ProvisioningJobRecord, queued, running, failed, canceled, cancel_requested,
  cleanup_requested, new_provisioning_job,
}
use coengram.Provisioning.{TenantManifest}
use coengram.Jobs.Store as Store
use coengram.Jobs.Store.{is_state, get_provisioning_job}

-- a method of the store on its jobs
abbrev pub on_jobs : {A : Type 0} → Exec Jobs A → Exec Console A
on_jobs m s = let (r, j) = m s.jobs in (r, record s { jobs = j })

-- `record_operator_audit_event` for a job
unfoldable pub audit_job :
    String
    → OperatorSession
    → String
    → List (String × String)
    → Option (List (String × String))
    → ℕ
    → Exec Console OperatorAuditEvent
audit_job event_id session action target_ids after now s =
    let event =
      create_operator_audit_event event_id session action "provisioning_job" target_ids "succeeded"
        none none after now in
    let (r, o) = record_operator_audit_event event s.operators in (r, record s { operators = o })

abbrev pub target_of : ProvisioningJobRecord → List (String × String)
target_of job = ("job_id", job.job_id) ∷ ("tenant_id", job.tenant_id) ∷ []

unfoldable pub create_provisioning_job :
    String
    → String
    → OperatorSession
    → TenantManifest
    → String
    → ℕ
    → Exec Console ProvisioningJobRecord
create_provisioning_job job_id event_id session manifest idempotency_key now = do
  raise_if (strip idempotency_key == "")
      (value_error "Provisioning Job idempotency key cannot be empty")
  job ← on_jobs (
      Store.create_provisioning_job
        (new_provisioning_job job_id manifest idempotency_key session.operator_id now))
  audit_job event_id session "provisioning_job.create" (target_of job) none now
  pure job

abbrev pub find_job : String → Exec Console ProvisioningJobRecord
find_job id = do
  found ← gets (λ s. get_provisioning_job s.jobs id)
  present found (control_not_found "Provisioning Job not found")

unfoldable pub cancel_provisioning_job :
    String → OperatorSession → String → ℕ → Exec Console ProvisioningJobRecord
cancel_provisioning_job event_id session id now = do
  job ← find_job id
  raise_if (not (is_state job.state queued || is_state job.state running))
      (value_error "Only queued or running Provisioning Jobs can be canceled")
  updated ← on_jobs (Store.update_provisioning_job_state id cancel_requested now)
  audit_job event_id session "provisioning_job.cancel_requested" (target_of updated) none now
  pure updated

-- failed, canceled, or asked to be canceled
abbrev pub is_stopped : ProvisioningJobRecord → Bool
is_stopped job =
    is_state job.state failed || is_state job.state canceled || is_state job.state cancel_requested

unfoldable pub retry_provisioning_job :
    String → OperatorSession → String → ℕ → Exec Console ProvisioningJobRecord
retry_provisioning_job event_id session id now = do
  job ← find_job id
  raise_if (not (is_stopped job))
      (value_error "Only failed or canceled Provisioning Jobs can be retried")
  updated ← on_jobs (Store.update_provisioning_job_state id queued now)
  audit_job event_id session "provisioning_job.retry" (target_of updated)
      (some (("next_state", "queued") ∷ [])) now
  pure updated

-- The store's Tenants are in `identities`, which the request reads only.
unfoldable pub request_provisioning_cleanup :
    Identities → String → OperatorSession → String → String → ℕ → Exec Console ProvisioningJobRecord
request_provisioning_cleanup identities event_id session id confirmation now = do
  job ← find_job id
  let expected = "cleanup " ++ job.tenant_id
  raise_if (not (confirmation == expected))
      (value_error ("Provisioning Cleanup confirmation must be exactly '" ++ (expected ++ "'")))
  raise_if (not (is_stopped job))
      (value_error "Only failed or canceled Provisioning Jobs can request cleanup")
  raise_if (holds (λ t. t.active) (get_tenant identities job.tenant_id))
      (value_error "Active Tenants must use Tenant decommissioning, not cleanup")
  updated ← on_jobs (Store.update_provisioning_job_state id cleanup_requested now)
  audit_job event_id session "provisioning_job.cleanup_requested" (target_of updated) none now
  pure updated
