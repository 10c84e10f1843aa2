-- ===== src/Provisioning/Store.antt =====
-- provisioning.py, `InMemoryProvisioningStateStore`: the progress of every Tenant.
use coengram.Prelude.{
  ℕ, zero, suc, String, ◌==◌, string_eq, list_eq, bool_eq, Bool, false, not, Option, none, some,
  List, [], ◌∷◌, ◌++◌, if◌then◌else◌, contains, length, take,
}
use coengram.Exec.{
  ok, Exec, Nothing, provisioning_conflict, raise_if, gets, present, pure, ◌>>=◌, ◌>>◌,
}
use coengram.Dict
use coengram.Dict.{Dict}
use coengram.Provisioning.{
  ProvisioningState, ProvisioningStep, TenantManifest, steps, step_eq, is_active, is_provisioning,
  record_control_state, activate, provisioning, step_beq,
}
use coengram.Provisioning

abbrev pub States : Type 0
States = Dict String ProvisioningState

-- `xs[n]`
abbrev pub get_elem? {ℓ} : {A : Type ℓ} → List A → ℕ → Option A
get_elem? [] n = none
get_elem? (x ∷ xs) zero = some x
get_elem? (x ∷ xs) (suc n) = get_elem? xs n

-- `_next_step`
abbrev pub next_step : List ProvisioningStep → Option ProvisioningStep
next_step completed = get_elem? steps (length completed)

-- `_validate_completed_prefix`
unfoldable pub validate_completed_prefix : ProvisioningState → Exec States Nothing
validate_completed_prefix st = do
  raise_if (not (st.completed_steps == take (length st.completed_steps) steps))
      (provisioning_conflict "Provisioning progress is not a valid completed prefix")
  raise_if (not (contains activate st.completed_steps == is_active st.status))
      (provisioning_conflict "Provisioning activation state is inconsistent")

-- `_require_matching_manifest`
unfoldable pub require_matching_manifest : ProvisioningState → String → Exec States Nothing
require_matching_manifest st fingerprint =
    raise_if (not (st.manifest_fingerprint == fingerprint))
      (provisioning_conflict "Cannot resume Tenant provisioning with a changed manifest")

-- the state of a Tenant whose provisioning begins
abbrev pub first_state : TenantManifest → ProvisioningState
first_state m = record {
  tenant_id = m.tenant_id;
  manifest_fingerprint = m.fingerprint;
  database_name = m.database_name;
  database_role = m.database_role;
  neo4j_service_name = m.neo4j_service_name;
  status = provisioning;
  completed_steps = record_control_state ∷ [];
  failed_step = none;
  failure_code = none;
  attempt = 1;
}

abbrev pub write : String → ProvisioningState → Exec States ProvisioningState
write tenant_id st s = (ok st, Dict.put s tenant_id st)

-- `start` on a state that is there
unfoldable pub restart : TenantManifest → ProvisioningState → Exec States ProvisioningState
restart m current = do
  require_matching_manifest current m.fingerprint
  (if is_active current.status then pure current else (do
    validate_completed_prefix current
    write m.tenant_id (record current {
      status = provisioning;
      failed_step = none;
      failure_code = none;
      attempt = suc current.attempt;
    })))

unfoldable pub start : TenantManifest → Exec States ProvisioningState
start m s = elim (Dict.get s m.tenant_id) [
  | none ↦ write m.tenant_id (first_state m) s
  | some current ↦ restart m current s
]

-- `_require_provisioning`
unfoldable pub require_provisioning : String → Exec States ProvisioningState
require_provisioning tenant_id = do
  found ← gets (λ s. Dict.get s tenant_id)
  st ← present found (provisioning_conflict "Tenant provisioning has not started")
  raise_if (not (is_provisioning st.status))
      (provisioning_conflict "Tenant is not in the provisioning state")
  validate_completed_prefix st
  pure st

-- `step is next`, where `next` may be `None`
abbrev pub is_next : ProvisioningStep → Option ProvisioningStep → Bool
is_next step none = false
is_next step (some next) = step == next

unfoldable pub mark_completed : String → ProvisioningStep → Exec States ProvisioningState
mark_completed tenant_id step = do
  current ← require_provisioning tenant_id
  raise_if (step == activate)
      (provisioning_conflict "Activation requires the final activation transition")
  raise_if (not (is_next step (next_step current.completed_steps)))
      (provisioning_conflict "Provisioning steps must complete in order")
  write tenant_id (record current { completed_steps = current.completed_steps ++ step ∷ [] })

unfoldable pub mark_failed : String → ProvisioningStep → String → Exec States ProvisioningState
mark_failed tenant_id step failure_code = do
  current ← require_provisioning tenant_id
  raise_if (not (is_next step (next_step current.completed_steps)))
      (provisioning_conflict "Only the current provisioning step can fail")
  write tenant_id (record current {
    status = Provisioning.failed;
    failed_step = some step;
    failure_code = some failure_code;
  })

unfoldable pub activate_tenant : String → Exec States ProvisioningState
activate_tenant tenant_id = do
  current ← require_provisioning tenant_id
  raise_if (not (is_next activate (next_step current.completed_steps)))
      (provisioning_conflict "Tenant cannot activate before every verification passes")
  write tenant_id (record current {
    status = Provisioning.active;
    completed_steps = current.completed_steps ++ activate ∷ [];
  })
