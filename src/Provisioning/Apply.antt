-- ===== src/Provisioning/Apply.antt =====
-- provisioning.py, `TenantProvisioner`: the plan, and the loop that carries out what it leaves to do.
-- What the adapters on the host do at a step is a parameter, `execute`, and so is the name of an
-- exception's class.
use Prim.Native.String.{◌++◌}
use coengram.Prelude.{
  String, ◌==◌, string_eq, list_eq, Bool, not, none, some, List, [], ◌∷◌, if◌then◌else◌, contains,
  map, take, any,
}
use coengram.Exec.{
  Error, Result, ok, err, Exec, Nothing, provisioning_conflict, provisioning_failed, raise,
  raise_if, gets, present, pure, ◌>>=◌, ◌>>◌,
}
use coengram.Dict
use coengram.Auth.{lift_result}
use coengram.Provisioning.{
  ProvisioningState, ProvisioningStatus, ProvisioningStep, TenantManifest, steps, step_eq,
  not_started, activate, record_control_state, write_secrets, start_neo4j, create_tenant_database,
  migrate_postgres, migrate_neo4j, verify_neo4j_health, verify_routing, verify_isolation,
}
use coengram.Provisioning.Store.{
  States, require_matching_manifest, validate_completed_prefix, start, mark_completed, mark_failed,
  activate_tenant,
}

-- a planned step, with whether it is completed; its description in words is left out
pub record PlannedStep : Type 0 where
  pub step : ProvisioningStep
  pub completed : Bool

pub record ProvisioningPlan : Type 0 where
  pub tenant_id : String
  pub manifest_fingerprint : String
  pub current_status : ProvisioningStatus
  pub planned : List PlannedStep

abbrev pub plan_of : TenantManifest → ProvisioningStatus → List ProvisioningStep → ProvisioningPlan
plan_of m status completed = record {
  tenant_id = m.tenant_id;
  manifest_fingerprint = m.fingerprint;
  current_status = status;
  planned = map (λ x. record { step = x; completed = contains x completed }) steps;
}

unfoldable pub plan : TenantManifest → Exec States ProvisioningPlan
plan m s = elim (Dict.get s m.tenant_id) [
  | none ↦ (ok (plan_of m not_started []), s)
  | some st ↦
      (do
        require_matching_manifest st m.fingerprint
        validate_completed_prefix st
        pure (plan_of m st.status st.completed_steps))
        s
]

-- `is_noop`: no step is pending
unfoldable pub is_noop : ProvisioningPlan → Bool
is_noop p = not (any (λ x. not x.completed) p.planned)

-- the value of the step, as `ProvisioningFailed` writes it
abbrev pub step_value : ProvisioningStep → String
step_value record_control_state = "record_control_state"
step_value write_secrets = "write_secrets"
step_value start_neo4j = "start_neo4j"
step_value create_tenant_database = "create_tenant_database"
step_value migrate_postgres = "migrate_postgres"
step_value migrate_neo4j = "migrate_neo4j"
step_value verify_neo4j_health = "verify_neo4j_health"
step_value verify_routing = "verify_routing"
step_value verify_isolation = "verify_isolation"
step_value activate = "activate"

module _ (execute : ProvisioningStep → TenantManifest → Result Nothing)
    (type_name : Error → String) where
  -- the body of the loop's `try`
  unfoldable pub attempt_step : TenantManifest → ProvisioningStep → Exec States ProvisioningState
  attempt_step m step =
      if step == activate
      then activate_tenant m.tenant_id
      else (do lift_result (execute step m); mark_completed m.tenant_id step)

  -- the `except` of the loop
  unfoldable pub fail_step :
      TenantManifest → ProvisioningStep → Error → Exec States ProvisioningState
  fail_step m step x = do
    mark_failed m.tenant_id step (type_name x)
    raise (provisioning_failed ("Tenant provisioning failed at step: " ++ step_value step))

  -- the loop over the steps; `completed` is what the last write left
  unfoldable pub apply_steps :
      TenantManifest → List ProvisioningStep → List ProvisioningStep → Exec States ProvisioningState
  apply_steps m completed [] s =
      (err (provisioning_conflict "Provisioning ended without activation"), s)
  apply_steps m completed (step ∷ rest) s =
      let skipped = apply_steps m completed rest s in
      let (r, s') = attempt_step m step s in
      if contains step completed then skipped else elim r [
        | err x ↦ fail_step m step x s'
        | ok st ↦
            let further = apply_steps m st.completed_steps rest s' in
            if step == activate then (ok st, s') else further
      ]

  unfoldable pub apply : TenantManifest → Exec States ProvisioningState
  apply m = do
    p ← plan m
    (if is_noop p
        then (do
          found ← gets (λ s. Dict.get s m.tenant_id)
          present found (provisioning_conflict "Completed plan has no provisioning state"))
        else (do
          st ← start m
          raise_if (not (take 1 st.completed_steps == record_control_state ∷ []))
              (provisioning_conflict "Provisioning state did not record the Tenant manifest")
          apply_steps m st.completed_steps steps))
