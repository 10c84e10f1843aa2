-- ===== src/Jobs/Laws.antt =====
-- operator_provisioning.py and control.py: the life of a Provisioning Job.
use text.Mathlib.TextEquality.{eq_iff}
use coengram.Prelude.{
  ℕ, String, ◌==◌, string_eq, pair_eq, option_eq, nat_eq, ◌≡◌, refl, Bool, true, false, some, List,
  [], ◌∷◌, arith, any, is_some, inl, inr, Option-cases,
}
use coengram.Prelude.Sort.{sort, any-sort}
use coengram.Exec.{ok, err, control_conflict}
use coengram.Dict
use coengram.Dict.Laws.{dict_laws, get-put_self}
use coengram.Operators.{OperatorSession}
use coengram.Operators.Module.{record_operator_audit_event}
use coengram.Jobs.{Jobs, Console, ProvisioningJobRecord, queued, running}
use coengram.Provisioning.{TenantManifest}
use coengram.Jobs.Store as Store
use coengram.Prelude.Text.{found_id}
use coengram.Jobs.Store.{
  is_state, get_provisioning_job, put_job, claimed, first_queued, job_leb, request_key,
  manifest_key, claim_next_provisioning_job, create_provisioning_job, complete_provisioning_job,
  fail_provisioning_job,
}
use coengram.Jobs.Module.{cancel_provisioning_job, audit_job}
use coengram.Jobs.Settle.{has_ended, settle_running, settle_refused}
use coengram.Jobs.Worker.{Applied, settle, run_once}

-- some job is queued
unfoldable pub has_queued : Jobs → Bool
has_queued s = any (λ j. is_state j.state queued) (Dict.values s.provisioning_jobs)

first_queued_found :
    (jobs : List ProvisioningJobRecord)
    → is_some (first_queued jobs) ≡ any (λ j. is_state j.state queued) jobs
unfolding first_queued any
first_queued_found [] = refl
first_queued_found (j ∷ js) = ground (arith, first_queued_found js)

run_once-claimed :
    (apply : TenantManifest → Applied) (meanwhile : Jobs → Jobs) (w : String) (t now : ℕ) (s : Jobs)
    → (job j : ProvisioningJobRecord)
    → first_queued (sort job_leb (Dict.values s.provisioning_jobs)) ≡ some job
    → settle w job.job_id
        (apply job.manifest)
        now
        (meanwhile (put_job job.job_id (claimed w t job) s))
      ≡ (ok j, put_job job.job_id j (meanwhile (put_job job.job_id (claimed w t job) s)))
    → run_once apply meanwhile w t now s
      ≡ (ok (some j), put_job job.job_id j (meanwhile (put_job job.job_id (claimed w t job) s)))
unfolding run_once claim_next_provisioning_job
run_once-claimed apply meanwhile w t now s job j next settled = ground (arith, next, settled)

-- If a job is queued, `run_once` returns one, whatever the provisioner does, and whatever others do
-- meanwhile, as long as they leave running jobs as they are: the job has succeeded or failed, and is
-- stored so.
pub run_once-has_ended :
    (apply : TenantManifest → Applied) (meanwhile : Jobs → Jobs) (w : String) (t now : ℕ) (s : Jobs)
    → has_queued s ≡ true
    → ((id : String) (r : ProvisioningJobRecord)
        → get_provisioning_job (claim_next_provisioning_job w t s).1 id ≡ some r
        → is_state r.state running ≡ true
        → get_provisioning_job (meanwhile (claim_next_provisioning_job w t s).1) id ≡ some r)
    → (j : ProvisioningJobRecord) × ((run_once apply meanwhile w t now s).0 ≡ ok (some j))
      × (has_ended j ≡ true)
      × (get_provisioning_job (run_once apply meanwhile w t now s).1 j.job_id ≡ some j)
unfolding has_queued claim_next_provisioning_job
run_once-has_ended apply meanwhile w t now s some_queued leaves =
    let jobs = Dict.values s.provisioning_jobs in
    elim (Option-cases (first_queued (sort job_leb jobs))) [
      | inl none' ↦ absurd (
          ground (
            arith,
            none',
            some_queued,
            first_queued_found (sort job_leb jobs),
            any-sort job_leb (λ j. is_state j.state queued) jobs,
          ))
      | inr (job, next) ↦
          let s1 = put_job job.job_id (claimed w t job) s in
          let at : (claim_next_provisioning_job w t s).1 ≡ s1 = ground (arith, next) in
          let there : get_provisioning_job (meanwhile s1) job.job_id ≡ some (claimed w t job) =
            rw (← at) (
              leaves job.job_id (claimed w t job)
                (rw at (get-put_self s.provisioning_jobs job.job_id (claimed w t job))) refl) in
          let (j, settled, ended, same) =
            settle_running w job.job_id (apply job.manifest) now (meanwhile s1) (claimed w t job)
              there refl refl in
          let ran = run_once-claimed apply meanwhile w t now s job j next settled in
          (
            j,
            ground (arith, ran),
            ended,
            rw (ran, same) (get-put_self (meanwhile s1).provisioning_jobs job.job_id j),
          )
    ]

canceled :
    (event_id id : String) (session : OperatorSession) (now : ℕ) (s : Console)
    → (c : ProvisioningJobRecord) → (cancel_provisioning_job event_id session id now s).0 ≡ ok c
    → (get_provisioning_job (cancel_provisioning_job event_id session id now s).1.jobs id ≡ some c)
      × (is_state c.state running ≡ false)
unfolding cancel_provisioning_job Store.update_provisioning_job_state audit_job
    record_operator_audit_event
canceled event_id id session now s c done = grind (arith, dict_laws, eq_iff id id, done)

-- Once `cancel_provisioning_job` has returned, no worker ends the job, whatever the outcome of its work:
-- the write is refused, and changes nothing.
pub settle-cancel_provisioning_job :
    (event_id id w : String) (session : OperatorSession) (a : Applied) (now later : ℕ) (s : Console)
    → (c : ProvisioningJobRecord) → (cancel_provisioning_job event_id session id now s).0 ≡ ok c
    → settle w id a later (cancel_provisioning_job event_id session id now s).1.jobs ≡ (
      err (control_conflict "Provisioning Job is not claimed by this worker"),
      (cancel_provisioning_job event_id session id now s).1.jobs,
    )
settle-cancel_provisioning_job event_id id w session a now later s c done =
    let (found, off) = canceled event_id id session now s c done in
    settle_refused w id a later (cancel_provisioning_job event_id session id now s).1.jobs c found
      off

-- If a request for a job, whose new id is not empty, returns a job, then asking again with the same key of
-- the same Operator and the same manifest returns that job and changes nothing.
pub create_provisioning_job_again :
    (r again : ProvisioningJobRecord) (s : Jobs) (j : ProvisioningJobRecord)
    → (r.job_id == "") ≡ false
    → request_key again ≡ request_key r
    → manifest_key again ≡ manifest_key r
    → (create_provisioning_job r s).0 ≡ ok j
    → create_provisioning_job again (create_provisioning_job r s).1
      ≡ (ok j, (create_provisioning_job r s).1)
unfolding create_provisioning_job
create_provisioning_job_again r again s j ne rk mk done =
    let kept : Dict.get (Dict.put s.provisioning_job_keys (request_key r) r.job_id)
          (request_key again)
        ≡ some r.job_id =
      rw rk (get-put_self s.provisioning_job_keys (request_key r) r.job_id) in
    elim (Option-cases (found_id (Dict.get s.provisioning_job_keys (request_key r)))) [
      | inr (id, hit) ↦ grind (arith, hit, rk, mk, done)
      | inl miss ↦
          elim (Option-cases (found_id (Dict.get s.provisioning_manifest_keys (manifest_key r)))) [
            | inr (id, hit) ↦ grind (arith, miss, hit, rk, mk, done)
            | inl new ↦
                ground
                  (arith, miss, new, done, ne, kept, get-put_self s.provisioning_jobs r.job_id r)
          ]
    ]
