-- ===== src/Jobs/Worker.antt =====
-- operator_provisioning.py, `OperatorProvisioningService`: the worker that claims a job and has it
-- carried out. The provisioner is a port, whose outcome is a parameter, and so is what
-- others do to the jobs until it ends.
use coengram.Prelude.{ℕ, String, ◌==◌, string_eq, Option, none, some, if◌then◌else◌}
use coengram.Exec.{ok, Exec, pure, ◌>>=◌}
use coengram.Jobs.{Jobs, ProvisioningJobRecord}
use coengram.Provisioning
use coengram.Provisioning.{
  ProvisioningState, ProvisioningStatus, ProvisioningStep, TenantManifest, not_started,
  provisioning,
}
use coengram.Jobs.Store.{
  claim_next_provisioning_job, complete_provisioning_job, fail_provisioning_job,
}

-- What `apply` returns or raises: a state, `ProvisioningFailed` at a step, or another exception, by
-- the name of its class.
pub data Applied : Type 0 where
  returned : ProvisioningState → Applied
  failed_at : ProvisioningStep → Applied
  raised : String → Applied

abbrev pub status_value : ProvisioningStatus → String
status_value not_started = "not_started"
status_value provisioning = "provisioning"
status_value Provisioning.failed = "failed"
status_value Provisioning.active = "active"

-- `state.failure_code or state.status.value`
abbrev pub code_of : ProvisioningState → String
code_of st = elim st.failure_code [
  | none ↦ status_value st.status
  | some code ↦ if code == "" then status_value st.status else code
]

-- what the worker writes after the provisioner has ended
unfoldable pub settle : String → String → Applied → ℕ → Exec Jobs ProvisioningJobRecord
settle worker_id id (failed_at step) now =
    fail_provisioning_job id worker_id (some step) "ProvisioningFailed" now
settle worker_id id (raised name) now = fail_provisioning_job id worker_id none name now
settle worker_id id (returned st) now = elim st.status [
  | Provisioning.active ↦ complete_provisioning_job id worker_id st.completed_steps now
  | _ ↦ fail_provisioning_job id worker_id st.failed_step (code_of st) now
]

-- `meanwhile` is what others do to the jobs while the provisioner works, as a cancellation.
unfoldable pub run_once :
    (TenantManifest → Applied)
    → (Jobs → Jobs)
    → String
    → ℕ
    → ℕ
    → Exec Jobs (Option ProvisioningJobRecord)
run_once apply meanwhile worker_id claimed_at now = do
  claim ← claim_next_provisioning_job worker_id claimed_at
  (λ s. elim claim [
    | none ↦ (ok none, s)
    | some job ↦
        (settle worker_id job.job_id (apply job.manifest) now >>= λ done. pure (some done))
          (meanwhile s)
  ])
