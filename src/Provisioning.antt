-- ===== src/Provisioning.antt =====
-- provisioning.py: the steps by which a Tenant is set up on the host, and the record of its progress.
pub mod Store
pub mod Apply
pub mod Prefix
pub mod Laws
pub mod Completed
pub mod Returned
pub mod Fresh
use coengram.Prelude.{
  ℕ, String, Bool, true, false, Eq, ◌==◌, nat_beq, nat_beq_iff, ◌≡◌, ◌↔◌, refl, ap, ◌∙◌, sym, arith,
  Option, List, [], ◌∷◌,
}

pub data ProvisioningStatus : Type 0 where
  not_started provisioning failed active : ProvisioningStatus

pub data ProvisioningStep : Type 0 where
  record_control_state write_secrets start_neo4j create_tenant_database migrate_postgres
        migrate_neo4j verify_neo4j_health verify_routing verify_isolation activate :
      ProvisioningStep

-- `PROVISIONING_STEPS`
abbrev pub steps : List ProvisioningStep
steps =
    record_control_state ∷ write_secrets ∷ start_neo4j ∷ create_tenant_database ∷ migrate_postgres
    ∷ migrate_neo4j ∷ verify_neo4j_health ∷ verify_routing ∷ verify_isolation ∷ activate ∷ []

-- the place of a step
abbrev pub step_number : ProvisioningStep → ℕ
step_number record_control_state = 0
step_number write_secrets = 1
step_number start_neo4j = 2
step_number create_tenant_database = 3
step_number migrate_postgres = 4
step_number migrate_neo4j = 5
step_number verify_neo4j_health = 6
step_number verify_routing = 7
step_number verify_isolation = 8
step_number activate = 9

abbrev pub step_beq : ProvisioningStep → ProvisioningStep → Bool
step_beq a b = nat_beq (step_number a) (step_number b)

pub step_beq_iff : (a b : ProvisioningStep) → (step_beq a b ≡ true) ↔ (a ≡ b)
step_beq_iff a b = ground arith

instance abbrev pub step_eq : Eq ProvisioningStep
step_eq = record { beq = step_beq; beq_iff = step_beq_iff }

abbrev pub is_active : ProvisioningStatus → Bool
is_active active = true
is_active _ = false

abbrev pub is_provisioning : ProvisioningStatus → Bool
is_provisioning provisioning = true
is_provisioning _ = false

-- manifest.py: what provisioning records of a manifest, with its fingerprint
pub record TenantManifest : Type 0 where
  pub tenant_id : String
  pub fingerprint : String
  pub database_name : String
  pub database_role : String
  pub neo4j_service_name : String

pub record ProvisioningState : Type 0 where
  pub tenant_id : String
  pub manifest_fingerprint : String
  pub database_name : String
  pub database_role : String
  pub neo4j_service_name : String
  pub status : ProvisioningStatus
  pub completed_steps : List ProvisioningStep
  pub failed_step : Option ProvisioningStep
  pub failure_code : Option String
  pub attempt : ℕ
