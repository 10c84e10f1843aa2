-- ===== src/Jobs.antt =====
-- operator_provisioning.py and control.py: the Provisioning Jobs that Operators ask for and a worker on
-- the host carries out. `Jobs` is the part of the Control Store's state that holds them.
pub mod Store
pub mod Module
pub mod Worker
pub mod Settle
pub mod Laws
use coengram.Prelude.{
  ℕ, String, Bool, true, false, Eq, ◌≡◌, ◌↔◌, arith, Option, none, List, [], ◌⊎◌,
}
use coengram.Dict
use coengram.Dict.{Dict}
use coengram.Operators.{Operators}
use coengram.Provisioning.{ProvisioningStep, TenantManifest}

pub data ProvisioningJobState : Type 0 where
  queued running succeeded failed cancel_requested canceled cleanup_requested cleaned_up :
      ProvisioningJobState

abbrev pub job_state_number : ProvisioningJobState → ℕ
job_state_number queued = 0
job_state_number running = 1
job_state_number succeeded = 2
job_state_number failed = 3
job_state_number cancel_requested = 4
job_state_number canceled = 5
job_state_number cleanup_requested = 6
job_state_number cleaned_up = 7

pub record ProvisioningJobRecord : Type 0 where
  pub job_id : String
  pub tenant_id : String
  pub manifest_fingerprint : String
  pub manifest : TenantManifest
  pub idempotency_key : String
  pub requested_by_operator_id : String
  pub state : ProvisioningJobState
  pub created_at : ℕ
  pub updated_at : ℕ
  pub attempt : ℕ
  pub completed_steps : List ProvisioningStep
  pub failed_step : Option ProvisioningStep
  pub failure_code : Option String
  pub claimed_by : Option String
  pub claimed_at : Option ℕ
  pub heartbeat_at : Option ℕ
  pub cancel_requested_at : Option ℕ
  pub cleanup_requested_at : Option ℕ
  pub cleanup_completed_at : Option ℕ

-- `new_provisioning_job`; `job_id` is what `uuid4` returns
unfoldable pub new_provisioning_job :
    String → TenantManifest → String → String → ℕ → ProvisioningJobRecord
new_provisioning_job job_id manifest idempotency_key operator_id now = record {
  job_id = job_id;
  tenant_id = manifest.tenant_id;
  manifest_fingerprint = manifest.fingerprint;
  manifest = manifest;
  idempotency_key = idempotency_key;
  requested_by_operator_id = operator_id;
  state = queued;
  created_at = now;
  updated_at = now;
  attempt = 0;
  completed_steps = [];
  failed_step = none;
  failure_code = none;
  claimed_by = none;
  claimed_at = none;
  heartbeat_at = none;
  cancel_requested_at = none;
  cleanup_requested_at = none;
  cleanup_completed_at = none;
}

pub record Jobs : Type 0 where
  pub provisioning_jobs : Dict String ProvisioningJobRecord
  pub provisioning_job_keys : Dict (String × String) String
  pub provisioning_manifest_keys : Dict (String × String) String

-- The jobs with the Operators, whose audit records the requests.
pub record Console : Type 0 where
  pub jobs : Jobs
  pub operators : Operators
