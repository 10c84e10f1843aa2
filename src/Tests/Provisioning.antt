-- ===== src/Tests/Provisioning.antt =====
-- Runs of the provisioner, and the instances of its theorems.
use coengram.Prelude.{
  String, string_eq, list_eq, bool_eq, ◌≡◌, refl, true, none, some, [], ◌∷◌, contains, any, arith,
}
use coengram.Exec.{Error, Result, ok, err, Nothing, value_error}
use coengram.Dict
use coengram.Provisioning.{
  ProvisioningState, ProvisioningStep, TenantManifest, steps, step_eq, is_active, start_neo4j,
  write_secrets, record_control_state,
}
use coengram.Provisioning
use coengram.Provisioning.Store.{
  States, start, restart, mark_completed, mark_failed, activate_tenant, require_provisioning,
  require_matching_manifest, validate_completed_prefix,
}
use coengram.Provisioning.Prefix.{IsValid}
use coengram.Provisioning.Apply.{plan, is_noop, apply, apply_steps, attempt_step, fail_step}
use coengram.Provisioning.Completed.{apply-IsValid}
use coengram.Provisioning.Returned.{apply-steps}
use coengram.Provisioning.Fresh.{apply_fresh}

abbrev manifest : TenantManifest
manifest = record {
  tenant_id = "acme";
  fingerprint = "f1";
  database_name = "tenant_acme";
  database_role = "tenant_acme_rw";
  neo4j_service_name = "neo4j-acme";
}

-- every step succeeds
abbrev works : ProvisioningStep → TenantManifest → Result Nothing
works step m = ok tt

-- Neo4j does not start
abbrev stuck : ProvisioningStep → TenantManifest → Result Nothing
stuck start_neo4j m = err (value_error "no such image")
stuck step m = ok tt

abbrev type_name : Error → String
type_name (value_error m) = "ValueError"
type_name x = "Exception"

abbrev active_state : ProvisioningState
active_state = record {
  tenant_id = "acme";
  manifest_fingerprint = "f1";
  database_name = "tenant_acme";
  database_role = "tenant_acme_rw";
  neo4j_service_name = "neo4j-acme";
  status = Provisioning.active;
  completed_steps = steps;
  failed_step = none;
  failure_code = none;
  attempt = 2;
}

-- the first call failed where Neo4j starts
abbrev failed_state : ProvisioningState
failed_state = record {
  tenant_id = "acme";
  manifest_fingerprint = "f1";
  database_name = "tenant_acme";
  database_role = "tenant_acme_rw";
  neo4j_service_name = "neo4j-acme";
  status = Provisioning.failed;
  completed_steps = record_control_state ∷ write_secrets ∷ [];
  failed_step = some start_neo4j;
  failure_code = some "ValueError";
  attempt = 1;
}

abbrev recorded : States
recorded = record { entries = ("acme", failed_state) ∷ [] }

stops-failed : (apply stuck type_name manifest Dict.empty).1 ≡ recorded
unfolding apply plan is_noop any contains require_matching_manifest validate_completed_prefix
    Dict.get Dict.lookup Dict.put Dict.assign start restart apply_steps attempt_step fail_step
    mark_completed mark_failed require_provisioning
stops-failed = refl

recorded-IsValid : IsValid recorded
unfolding Dict.get Dict.lookup contains
recorded-IsValid = record { states_valid = λ k st found. grind (arith, found) }

empty-IsValid : IsValid Dict.empty
unfolding Dict.get Dict.lookup
empty-IsValid = record { states_valid = λ k st found. absurd (ground (arith, found)) }

apply-IsValid_example : IsValid (apply stuck type_name manifest Dict.empty).1
apply-IsValid_example = apply-IsValid stuck type_name manifest Dict.empty empty-IsValid

resumes-active : (apply works type_name manifest recorded).0 ≡ ok active_state
unfolding apply plan is_noop any contains require_matching_manifest validate_completed_prefix
    Dict.get Dict.lookup Dict.put Dict.assign start restart apply_steps attempt_step mark_completed
    activate_tenant require_provisioning
resumes-active = refl

apply-steps_example :
    (is_active active_state.status ≡ true)
    × (active_state.completed_steps ≡ steps)
    × (Dict.get (apply works type_name manifest recorded).1 "acme" ≡ some active_state)
apply-steps_example =
    apply-steps works type_name manifest recorded active_state recorded-IsValid resumes-active

abbrev nothing : States
nothing = Dict.empty

nothing-recorded : Dict.get nothing "acme" ≡ none
unfolding Dict.get Dict.lookup
nothing-recorded = refl

apply_fresh_example :
    (st : ProvisioningState) × ((apply works type_name manifest nothing).0 ≡ ok st)
apply_fresh_example = apply_fresh works type_name manifest (λ step. refl) nothing nothing-recorded
