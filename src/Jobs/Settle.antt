-- ===== src/Jobs/Settle.antt =====
-- operator_provisioning.py and control.py: how a worker ends a Provisioning Job.
use text.Mathlib.TextEquality.{eq_iff}
use coengram.Prelude.{
  ℕ, String, string_eq, pair_eq, option_eq, nat_eq, ◌≡◌, refl, Bool, true, false, ◌||◌, Option,
  none, some, List, arith,
}
use coengram.Exec.{ok, err, control_conflict}
use coengram.Jobs.{Jobs, ProvisioningJobRecord, running, succeeded, failed}
use coengram.Provisioning
use coengram.Provisioning.{ProvisioningStatus, not_started, provisioning}
use coengram.Jobs.Store.{
  is_state, get_provisioning_job, put_job, complete_provisioning_job, fail_provisioning_job,
}
use coengram.Jobs.Worker.{Applied, returned, failed_at, raised, settle}

-- The job's work has ended, one way or the other.
abbrev pub has_ended : ProvisioningJobRecord → Bool
has_ended j = is_state j.state succeeded || is_state j.state failed

complete_running :
    (id w : String) (steps : List _) (now : ℕ) (s : Jobs) (c : ProvisioningJobRecord)
    → get_provisioning_job s id ≡ some c
    → is_state c.state running ≡ true
    → c.claimed_by ≡ some w
    → (j : ProvisioningJobRecord) × (complete_provisioning_job id w steps now s
        ≡ (ok j, put_job id j s))
      × (has_ended j ≡ true)
      × (j.job_id ≡ c.job_id)
unfolding complete_provisioning_job
complete_running id w steps now s c found on by =
    let j : ProvisioningJobRecord = record c {
      state = succeeded;
      completed_steps = steps;
      failed_step = none;
      failure_code = none;
      updated_at = now;
    } in
    (j, ground (arith, found, on, by, eq_iff w w), refl, refl)

fail_running :
    (id w : String) (step : Option _) (code : String) (now : ℕ) (s : Jobs)
    (c : ProvisioningJobRecord)
    → get_provisioning_job s id ≡ some c
    → is_state c.state running ≡ true
    → c.claimed_by ≡ some w
    → (j : ProvisioningJobRecord) × (fail_provisioning_job id w step code now s
        ≡ (ok j, put_job id j s))
      × (has_ended j ≡ true)
      × (j.job_id ≡ c.job_id)
unfolding fail_provisioning_job
fail_running id w step code now s c found on by =
    let j : ProvisioningJobRecord = record c {
      state = failed;
      failed_step = step;
      failure_code = some code;
      updated_at = now;
    } in
    (j, ground (arith, found, on, by, eq_iff w w), refl, refl)

-- Whatever the provisioner's outcome, the worker that claimed a running job ends it.
pub settle_running :
    (w id : String) (a : Applied) (now : ℕ) (s : Jobs) (c : ProvisioningJobRecord)
    → get_provisioning_job s id ≡ some c
    → is_state c.state running ≡ true
    → c.claimed_by ≡ some w
    → (j : ProvisioningJobRecord) × (settle w id a now s ≡ (ok j, put_job id j s))
      × (has_ended j ≡ true)
      × (j.job_id ≡ c.job_id)
unfolding settle
settle_running w id (failed_at step) now s c found on by =
    fail_running id w (some step) "ProvisioningFailed" now s c found on by
settle_running w id (raised name) now s c found on by =
    fail_running id w none name now s c found on by
settle_running w id (returned st) now s c found on by = by_status st.status
  where
    by_status :
        (status : ProvisioningStatus)
        → (j : ProvisioningJobRecord) × (settle w id
              (returned (record st { status = status }))
              now
              s
            ≡ (ok j, put_job id j s))
          × (has_ended j ≡ true)
          × (j.job_id ≡ c.job_id)
    by_status not_started = fail_running id w st.failed_step _ now s c found on by
    by_status provisioning = fail_running id w st.failed_step _ now s c found on by
    by_status Provisioning.failed = fail_running id w st.failed_step _ now s c found on by
    by_status Provisioning.active = complete_running id w st.completed_steps now s c found on by

complete_refused :
    (id w : String) (steps : List _) (now : ℕ) (s : Jobs) (c : ProvisioningJobRecord)
    → get_provisioning_job s id ≡ some c
    → is_state c.state running ≡ false
    → complete_provisioning_job id w steps now s
      ≡ (err (control_conflict "Provisioning Job is not claimed by this worker"), s)
unfolding complete_provisioning_job
complete_refused id w steps now s c found off = ground (arith, found, off)

fail_refused :
    (id w : String) (step : Option _) (code : String) (now : ℕ) (s : Jobs)
    (c : ProvisioningJobRecord)
    → get_provisioning_job s id ≡ some c
    → is_state c.state running ≡ false
    → fail_provisioning_job id w step code now s
      ≡ (err (control_conflict "Provisioning Job is not claimed by this worker"), s)
unfolding fail_provisioning_job
fail_refused id w step code now s c found off = ground (arith, found, off)

pub settle_refused :
    (w id : String) (a : Applied) (now : ℕ) (s : Jobs) (c : ProvisioningJobRecord)
    → get_provisioning_job s id ≡ some c
    → is_state c.state running ≡ false
    → settle w id a now s
      ≡ (err (control_conflict "Provisioning Job is not claimed by this worker"), s)
unfolding settle
settle_refused w id (failed_at step) now s c found off =
    fail_refused id w (some step) "ProvisioningFailed" now s c found off
settle_refused w id (raised name) now s c found off = fail_refused id w none name now s c found off
settle_refused w id (returned st) now s c found off = by_status st.status
  where
    by_status :
        (status : ProvisioningStatus)
        → settle w id (returned (record st { status = status })) now s
          ≡ (err (control_conflict "Provisioning Job is not claimed by this worker"), s)
    by_status not_started = fail_refused id w st.failed_step _ now s c found off
    by_status provisioning = fail_refused id w st.failed_step _ now s c found off
    by_status Provisioning.failed = fail_refused id w st.failed_step _ now s c found off
    by_status Provisioning.active = complete_refused id w st.completed_steps now s c found off
