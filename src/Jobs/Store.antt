-- ===== src/Jobs/Store.antt =====
-- control.py, `InMemoryControlStore`: the methods on Provisioning Jobs.
use coengram.Prelude.{
  ℕ, suc, String, ◌==◌, string_eq, pair_eq, option_eq, nat_eq, Bool, not, ◌&&◌, ◌||◌, Option, none,
  some, List, [], ◌∷◌, if◌then◌else◌, ltb, nat_beq,
}
use coengram.Prelude.Text.{str_leb, found_id}
use coengram.Prelude.Sort.{sort}
use coengram.Exec.{
  ok, Exec, control_conflict, control_not_found, lookup_error, raise_if, modify, gets, present,
  pure, ◌>>=◌, ◌>>◌,
}
use coengram.Dict
use coengram.Jobs.{
  Jobs, ProvisioningJobRecord, ProvisioningJobState, queued, running, succeeded, cancel_requested,
  cleanup_requested, cleaned_up, job_state_number,
}
use coengram.Jobs
use coengram.Provisioning.{ProvisioningStep}

abbrev pub is_state : ProvisioningJobState → ProvisioningJobState → Bool
is_state a b = nat_beq (job_state_number a) (job_state_number b)

abbrev pub get_provisioning_job : Jobs → String → Option ProvisioningJobRecord
get_provisioning_job s id = Dict.get s.provisioning_jobs id

abbrev pub request_key : ProvisioningJobRecord → String × String
request_key r = (r.requested_by_operator_id, r.idempotency_key)

abbrev pub manifest_key : ProvisioningJobRecord → String × String
manifest_key r = (r.tenant_id, r.manifest_fingerprint)

-- `return self._provisioning_jobs[job_id]`
abbrev pub existing : String → Exec Jobs ProvisioningJobRecord
existing id = do found ← gets (λ s. get_provisioning_job s id); present found (lookup_error id)

-- The three assignments of a new job.
abbrev pub insert_job : ProvisioningJobRecord → Jobs → Jobs
insert_job r s = record s {
  provisioning_jobs = Dict.put s.provisioning_jobs r.job_id r;
  provisioning_job_keys = Dict.put s.provisioning_job_keys (request_key r) r.job_id;
  provisioning_manifest_keys = Dict.put s.provisioning_manifest_keys (manifest_key r) r.job_id;
}

unfoldable pub create_provisioning_job : ProvisioningJobRecord → Exec Jobs ProvisioningJobRecord
create_provisioning_job r s = elim (found_id (Dict.get s.provisioning_job_keys (request_key r))) [
  | some id ↦ existing id s
  | none ↦ elim (found_id (Dict.get s.provisioning_manifest_keys (manifest_key r))) [
    | some id ↦ existing id s
    | none ↦ (ok r, insert_job r s)
  ]
]

-- the order of `(created_at, job_id)`
abbrev pub job_leb : ProvisioningJobRecord → ProvisioningJobRecord → Bool
job_leb a b =
    ltb a.created_at b.created_at || a.created_at == b.created_at && str_leb a.job_id b.job_id

unfoldable pub list_provisioning_jobs : Jobs → List ProvisioningJobRecord
list_provisioning_jobs s = sort (λ a b. job_leb b a) (Dict.values s.provisioning_jobs)

-- the record that `update_provisioning_job_state` writes
abbrev pub with_state : ProvisioningJobState → ℕ → ProvisioningJobRecord → ProvisioningJobRecord
with_state state now c = record c {
  state = state;
  updated_at = now;
  claimed_by = if is_state state queued then none else c.claimed_by;
  claimed_at = if is_state state queued then none else c.claimed_at;
  heartbeat_at = if is_state state queued then none else c.heartbeat_at;
  completed_steps = if is_state state queued then [] else c.completed_steps;
  failed_step = if is_state state queued then none else c.failed_step;
  failure_code = if is_state state queued then none else c.failure_code;
  cancel_requested_at = if is_state state cancel_requested then some now else c.cancel_requested_at;
  cleanup_requested_at =
      if is_state state cleanup_requested then some now else c.cleanup_requested_at;
  cleanup_completed_at = if is_state state cleaned_up then some now else c.cleanup_completed_at;
}

abbrev pub put_job : String → ProvisioningJobRecord → Jobs → Jobs
put_job id r s = record s { provisioning_jobs = Dict.put s.provisioning_jobs id r }

unfoldable pub update_provisioning_job_state :
    String → ProvisioningJobState → ℕ → Exec Jobs ProvisioningJobRecord
update_provisioning_job_state id state now = do
  found ← gets (λ s. get_provisioning_job s id)
  current ← present found (control_not_found "Provisioning Job not found")
  let updated = with_state state now current
  modify (put_job id updated)
  pure updated

abbrev pub claimed : String → ℕ → ProvisioningJobRecord → ProvisioningJobRecord
claimed worker_id now job = record job {
  state = running;
  attempt = suc job.attempt;
  claimed_by = some worker_id;
  claimed_at = some now;
  heartbeat_at = some now;
  updated_at = now;
}

-- the loop of `claim_next_provisioning_job`: the first queued job of the list
unfoldable pub first_queued : List ProvisioningJobRecord → Option ProvisioningJobRecord
first_queued [] = none
first_queued (job ∷ jobs) =
    let rest = first_queued jobs in if is_state job.state queued then some job else rest

unfoldable pub claim_next_provisioning_job : String → ℕ → Exec Jobs (Option ProvisioningJobRecord)
claim_next_provisioning_job worker_id now s =
    elim (first_queued (sort job_leb (Dict.values s.provisioning_jobs))) [
      | none ↦ (ok none, s)
      | some job ↦
          (ok (some (claimed worker_id now job)), put_job job.job_id (claimed worker_id now job) s)
    ]

-- `_require_running_provisioning_job`
unfoldable pub require_running_provisioning_job : String → String → Exec Jobs ProvisioningJobRecord
require_running_provisioning_job id worker_id = do
  found ← gets (λ s. get_provisioning_job s id)
  current ← present found (control_not_found "Provisioning Job not found")
  raise_if (not (is_state current.state running) || not (current.claimed_by == some worker_id))
      (control_conflict "Provisioning Job is not claimed by this worker")
  pure current

unfoldable pub complete_provisioning_job :
    String → String → List ProvisioningStep → ℕ → Exec Jobs ProvisioningJobRecord
unfolding require_running_provisioning_job
complete_provisioning_job id worker_id steps now = do
  current ← require_running_provisioning_job id worker_id
  let completed = record current {
    state = succeeded;
    completed_steps = steps;
    failed_step = none;
    failure_code = none;
    updated_at = now;
  }
  modify (put_job id completed)
  pure completed

unfoldable pub fail_provisioning_job :
    String → String → Option ProvisioningStep → String → ℕ → Exec Jobs ProvisioningJobRecord
unfolding require_running_provisioning_job
fail_provisioning_job id worker_id step code now = do
  current ← require_running_provisioning_job id worker_id
  let failing = record current {
    state = Jobs.failed;
    failed_step = step;
    failure_code = some code;
    updated_at = now;
  }
  modify (put_job id failing)
  pure failing
