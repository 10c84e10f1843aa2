-- ===== src/Provisioning/Fresh.antt =====
-- provisioning.py: a Tenant that is not yet recorded is provisioned in one call, if every step succeeds.
use coengram.Prelude.{
  String, ◌==◌, string_eq, list_eq, bool_eq, ◌≡◌, refl, true, false, none, some, List, [], ◌∷◌,
  ◌++◌, arith, contains, ap,
}
use coengram.Exec.{Error, Result, ok, Nothing}
use coengram.Dict
use coengram.Dict.Laws.{get-put_self}
use coengram.Provisioning.{
  ProvisioningState, ProvisioningStep, TenantManifest, steps, step_eq, is_active, is_provisioning,
  activate,
}
use coengram.Provisioning
use coengram.Provisioning.Store.{
  States, next_step, is_next, validate_completed_prefix, start, require_provisioning,
  mark_completed, activate_tenant, first_state,
}
use coengram.Provisioning.Prefix.{is_valid, with_step, with_step-is_valid, activated}
use coengram.Provisioning.Returned.{is_noop_new}
use coengram.Provisioning.Apply.{plan, attempt_step, apply_steps, apply}

-- the Tenant is being provisioned, with these steps completed
abbrev IsAt : TenantManifest → List ProvisioningStep → ProvisioningState → States → Type 0
IsAt m completed c s =
    (Dict.get s m.tenant_id ≡ some c)
    × (c.completed_steps ≡ completed)
    × (is_provisioning c.status ≡ true)
    × (is_valid c ≡ true)

module _ (execute : ProvisioningStep → TenantManifest → Result Nothing) (type_name : Error → String)
    (m : TenantManifest) (works : (step : ProvisioningStep) → execute step m ≡ ok tt) where
  attempted :
      (completed : List ProvisioningStep) (step : ProvisioningStep) (c : ProvisioningState)
      (s : States)
      → IsAt m completed c s
      → (step == activate) ≡ false
      → is_next step (next_step completed) ≡ true
      → attempt_step execute type_name m step s
        ≡ (ok (with_step c step), Dict.put s m.tenant_id (with_step c step))
  unfolding attempt_step mark_completed require_provisioning validate_completed_prefix
  attempted completed step c s (found, done, on, good) other next =
      ground (arith, works step, found, done, on, good, other, next)

  -- the loop returns from here
  abbrev Returns : List ProvisioningStep → List ProvisioningStep → Type 0
  Returns completed todo =
      (c : ProvisioningState) (s : States)
      → IsAt m completed c s
      → (st : ProvisioningState) × ((apply_steps execute type_name m completed todo s).0 ≡ ok st)

  looped :
      (completed todo : List ProvisioningStep) (step : ProvisioningStep) (c : ProvisioningState)
      → (s : States) → contains step completed ≡ false
      → (step == activate) ≡ false
      → c.completed_steps ≡ completed
      → attempt_step execute type_name m step s
        ≡ (ok (with_step c step), Dict.put s m.tenant_id (with_step c step))
      → apply_steps execute type_name m completed (step ∷ todo) s
        ≡ apply_steps execute type_name m
            (completed ++ step ∷ [])
            todo
            (Dict.put s m.tenant_id (with_step c step))
  unfolding apply_steps
  looped completed todo step c s new other done ran =
      rw (new, ap (λ r. r.0) ran, ap (λ r. r.1) ran, other, done) refl

  one_step :
      (completed todo : List ProvisioningStep) (step : ProvisioningStep)
      → contains step completed ≡ false
      → (step == activate) ≡ false
      → is_next step (next_step completed) ≡ true
      → Returns (completed ++ step ∷ []) todo
      → Returns completed (step ∷ todo)
  one_step completed todo step new other next further c s (found, done, on, good) =
      let ran = attempted completed step c s (found, done, on, good) other next in
      rw (looped completed todo step c s new other done ran) (
        further (with_step c step) (Dict.put s m.tenant_id (with_step c step)) (
          get-put_self s m.tenant_id (with_step c step),
          rw done refl,
          on,
          with_step-is_valid c step on good other (rw done next),
        ))

  last_step :
      (completed : List ProvisioningStep)
      → contains activate completed ≡ false
      → is_next activate (next_step completed) ≡ true
      → Returns completed (activate ∷ [])
  unfolding apply_steps attempt_step activate_tenant require_provisioning validate_completed_prefix
  last_step completed new next c s (found, done, on, good) =
      (activated c, ground (arith, found, done, on, good, new, next))

  loop-Returns : Returns (Provisioning.record_control_state ∷ []) (
      Provisioning.write_secrets ∷ Provisioning.start_neo4j ∷ Provisioning.create_tenant_database
      ∷ Provisioning.migrate_postgres ∷ Provisioning.migrate_neo4j
      ∷ Provisioning.verify_neo4j_health ∷ Provisioning.verify_routing
      ∷ Provisioning.verify_isolation ∷ activate ∷ [])
  unfolding contains
  loop-Returns = one_step _ _ _ refl refl refl (
      one_step _ _ _ refl refl refl (
        one_step _ _ _ refl refl refl (
          one_step _ _ _ refl refl refl (
            one_step _ _ _ refl refl refl (
              one_step _ _ _ refl refl refl (
                one_step _ _ _ refl refl refl
                  (one_step _ _ _ refl refl refl (last_step _ refl refl))))))))

  begun :
      (s : States)
      → Dict.get s m.tenant_id ≡ none
      → apply execute type_name m s
        ≡ apply_steps execute type_name m
            (Provisioning.record_control_state ∷ [])
            steps
            (Dict.put s m.tenant_id (first_state m))
  unfolding apply plan start
  begun s absent = ground (arith, absent, is_noop_new m)

  skipped :
      (s : States)
      → apply_steps execute type_name m (Provisioning.record_control_state ∷ []) steps s
        ≡ apply_steps execute type_name m
            (Provisioning.record_control_state ∷ [])
            (Provisioning.write_secrets ∷ Provisioning.start_neo4j
              ∷ Provisioning.create_tenant_database ∷ Provisioning.migrate_postgres
              ∷ Provisioning.migrate_neo4j ∷ Provisioning.verify_neo4j_health
              ∷ Provisioning.verify_routing ∷ Provisioning.verify_isolation ∷ activate ∷ [])
            s
  unfolding apply_steps contains
  skipped s = refl

  -- If nothing is recorded of the Tenant and every step on the host succeeds, `apply` returns.
  pub apply_fresh :
      (s : States)
      → Dict.get s m.tenant_id ≡ none
      → (st : ProvisioningState) × ((apply execute type_name m s).0 ≡ ok st)
  unfolding contains
  apply_fresh s absent =
      rw (begun s absent, skipped (Dict.put s m.tenant_id (first_state m)))
        (loop-Returns (first_state m) (Dict.put s m.tenant_id (first_state m))
          (get-put_self s m.tenant_id (first_state m), refl, refl, refl))
