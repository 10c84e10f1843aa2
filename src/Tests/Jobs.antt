-- ===== src/Tests/Jobs.antt =====
-- Runs of Provisioning Jobs, and the instances of their theorems.
use coengram.Prelude.{
  string_eq, pair_eq, option_eq, nat_eq, ◌≡◌, refl, true, none, some, [], ◌∷◌, any,
}
use coengram.Prelude.Sort.{sort, insert}
use coengram.Dict
use coengram.Exec.{ok, err, control_conflict}
use coengram.Operators
use coengram.Operators.{OperatorSession}
use coengram.Operators.Module.{record_operator_audit_event}
use coengram.Jobs.{Jobs, Console, ProvisioningJobRecord, new_provisioning_job, cancel_requested}
use coengram.Provisioning.{TenantManifest, write_secrets}
use coengram.Jobs.Store as Store
use coengram.Jobs.Store.{
  request_key, manifest_key, get_provisioning_job, create_provisioning_job, with_state,
  claim_next_provisioning_job, first_queued,
}
use coengram.Jobs.Module.{cancel_provisioning_job, audit_job}
use coengram.Jobs.Worker.{Applied, failed_at, settle, run_once}
use coengram.Jobs.Settle.{has_ended}
use coengram.Jobs.Laws.{
  has_queued, run_once-has_ended, settle-cancel_provisioning_job, create_provisioning_job_again,
}

abbrev manifest : TenantManifest
manifest = record {
  tenant_id = "acme";
  fingerprint = "f1";
  database_name = "tenant_acme";
  database_role = "tenant_acme_rw";
  neo4j_service_name = "neo4j-acme";
}

abbrev job : ProvisioningJobRecord
job = new_provisioning_job "j1" manifest "k1" "root" 1000

abbrev empty_jobs : Jobs
empty_jobs = record {
  provisioning_jobs = Dict.empty;
  provisioning_job_keys = Dict.empty;
  provisioning_manifest_keys = Dict.empty;
}

abbrev jobs : Jobs
jobs = record {
  provisioning_jobs = record { entries = ("j1", job) ∷ [] };
  provisioning_job_keys = record { entries = (("root", "k1"), "j1") ∷ [] };
  provisioning_manifest_keys = record { entries = (("acme", "f1"), "j1") ∷ [] };
}

job-created : (create_provisioning_job job empty_jobs).0 ≡ ok job
unfolding create_provisioning_job new_provisioning_job Dict.get Dict.lookup
job-created = refl

create_provisioning_job_again_example :
    create_provisioning_job
      (new_provisioning_job "j2" manifest "k1" "root" 2000)
      (create_provisioning_job job empty_jobs).1
    ≡ (ok job, (create_provisioning_job job empty_jobs).1)
unfolding new_provisioning_job
create_provisioning_job_again_example =
    create_provisioning_job_again job (new_provisioning_job "j2" manifest "k1" "root" 2000)
      empty_jobs job refl refl refl job-created

-- a provisioner that fails at its second step
abbrev failing : TenantManifest → Applied
failing m = failed_at write_secrets

jobs-queued : has_queued jobs ≡ true
unfolding has_queued new_provisioning_job Dict.values Dict.items Dict.distinct Dict.erase any
jobs-queued = refl

-- meanwhile the Operator asks for the same job again, under the same key
abbrev asks_again : Jobs → Jobs
asks_again u = (create_provisioning_job (new_provisioning_job "j2" manifest "k1" "root" 2500) u).1

asks_again-same :
    asks_again (claim_next_provisioning_job "w1" 2000 jobs).1
    ≡ (claim_next_provisioning_job "w1" 2000 jobs).1
unfolding create_provisioning_job claim_next_provisioning_job new_provisioning_job first_queued sort
    insert Dict.values Dict.items Dict.distinct Dict.erase Dict.get Dict.lookup Dict.put
asks_again-same = refl

run_once-has_ended_example :
    (j : ProvisioningJobRecord) × ((run_once failing asks_again "w1" 2000 3000 jobs).0
      ≡ ok (some j))
    × (has_ended j ≡ true)
    × (get_provisioning_job (run_once failing asks_again "w1" 2000 3000 jobs).1 j.job_id ≡ some j)
run_once-has_ended_example =
    run_once-has_ended failing asks_again "w1" 2000 3000 jobs jobs-queued
      (λ id r found _. rw asks_again-same found)

abbrev console : Console
console = record { jobs = jobs; operators = Operators.init }

abbrev root : OperatorSession
root = record { operator_id = "root"; roles = []; token_id = none; session_id = none }

job-canceled :
    (cancel_provisioning_job "e1" root "j1" 2000 console).0
    ≡ ok (with_state cancel_requested 2000 job)
unfolding cancel_provisioning_job new_provisioning_job Store.update_provisioning_job_state audit_job
    record_operator_audit_event Dict.get Dict.lookup
job-canceled = refl

settle-cancel_provisioning_job_example :
    settle "w1" "j1"
      (failed_at write_secrets)
      3000
      (cancel_provisioning_job "e1" root "j1" 2000 console).1.jobs
    ≡ (
      err (control_conflict "Provisioning Job is not claimed by this worker"),
      (cancel_provisioning_job "e1" root "j1" 2000 console).1.jobs,
    )
settle-cancel_provisioning_job_example =
    settle-cancel_provisioning_job "e1" "j1" "w1" root (failed_at write_secrets) 2000 3000 console
      (with_state cancel_requested 2000 job) job-canceled
