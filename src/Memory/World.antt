-- ===== src/Memory/World.antt =====
-- memory.py: what the Memory Module reaches, the durable commands of durable_memory.py as a port, and
-- the statements that work on one of its stores.
pub mod Laws
pub mod Keeps
use coengram.Prelude.{ℕ, String, string_eq, Bool, Option, none, some, List}
use coengram.Dict
use coengram.Dict.{Dict}
use coengram.Exec.{Result, ok, err, Exec, Nothing, tenant_memory_unavailable, runtime_error}
use coengram.Models.Items.{MemoryItem, RetainMemory, PrivateMemoryInspection}
use coengram.Memory.{CorrectMemory, TenantStore, Erasures, Governance}

pub data PrivateMemoryCommandType : Type 0 where
  retain correct import erase : PrivateMemoryCommandType

pub data PrivateMemoryCommandState : Type 0 where
  accepted applied failed : PrivateMemoryCommandState

pub record PrivateMemoryCommand : Type 0 where
  pub id : String
  pub tenant_id : String
  pub actor_id : String
  pub owner_principal_id : String
  pub command_type : PrivateMemoryCommandType
  pub idempotency_key : String
  pub target_memory_id : Option String
  pub result_item : Option MemoryItem
  pub erasure_request_id : Option String
  pub state : PrivateMemoryCommandState
  pub created_at : ℕ

pub record ImportAcceptance : Type 0 where
  pub item : MemoryItem
  pub accepted : Bool

-- `PrivateMemoryCommandStore`, whose state is a `W`: the methods that the module calls
pub record Commands (W : Type 0) : Type 0 where
  pub accept_retain : String → String → String → RetainMemory → Exec W MemoryItem
  pub accept_correction : String → String → String → CorrectMemory → Exec W MemoryItem
  pub accept_import : String → String → String → MemoryItem → Exec W ImportAcceptance
  pub get_memory_command_by_result : String → String → Exec W (Option PrivateMemoryCommand)
  pub list_private_memory_state : String → String → Exec W (List PrivateMemoryInspection)
  pub list_private_memory_items : String → String → Exec W (List MemoryItem)

-- The Tenants' stores, and the others where the module is given them.
pub record World (W : Type 0) : Type 0 where
  pub stores : Dict String TenantStore
  pub governance : Option Governance
  pub erasures : Option Erasures
  pub durable : W

module _ {W : Type 0} where
  abbrev pub put_store : World W → String → TenantStore → World W
  put_store s tenant_id store = record s { stores = Dict.put s.stores tenant_id store }

module _ {W A : Type 0} where
  -- `store = self._router.for_tenant(tenant_id)`, and a method that changes nothing
  unfoldable pub read_store : String → (TenantStore → A) → Exec (World W) A
  read_store tenant_id f s = elim (Dict.get s.stores tenant_id) [
    | none ↦ (err (tenant_memory_unavailable "Tenant Memory Store is not available"), s)
    | some store ↦ (ok (f store), s)
  ]

  -- the same, and a method that may change the store
  unfoldable pub on_store : String → Exec TenantStore A → Exec (World W) A
  on_store tenant_id m s = elim (Dict.get s.stores tenant_id) [
    | none ↦ (err (tenant_memory_unavailable "Tenant Memory Store is not available"), s)
    | some store ↦ let (r, store') = m store in (r, put_store s tenant_id store')
  ]

  -- `self._require_governance()`, and a method of it
  unfoldable pub read_governance : (Governance → A) → Exec (World W) A
  read_governance f s = elim s.governance [
    | none ↦ (err (runtime_error "Tenant governance is not available"), s)
    | some g ↦ (ok (f g), s)
  ]

  unfoldable pub on_governance : Exec Governance A → Exec (World W) A
  on_governance m s = elim s.governance [
    | none ↦ (err (runtime_error "Tenant governance is not available"), s)
    | some g ↦ let (r, g') = m g in (r, record s { governance = some g' })
  ]

  -- `self._require_erasures()`, and a method of it
  unfoldable pub read_erasures : (Erasures → A) → Exec (World W) A
  read_erasures f s = elim s.erasures [
    | none ↦ (err (runtime_error "Erasure governance is not available"), s)
    | some e ↦ (ok (f e), s)
  ]

  unfoldable pub on_erasures : Exec Erasures A → Exec (World W) A
  on_erasures m s = elim s.erasures [
    | none ↦ (err (runtime_error "Erasure governance is not available"), s)
    | some e ↦ let (r, e') = m e in (r, record s { erasures = some e' })
  ]

  unfoldable pub on_durable : Exec W A → Exec (World W) A
  on_durable m s = let (r, w) = m s.durable in (r, record s { durable = w })

-- `self._require_governance()`
abbrev pub require_governance : {W : Type 0} → Exec (World W) Nothing
require_governance = read_governance (λ g. tt)

-- `self._require_erasures()`
abbrev pub require_erasures : {W : Type 0} → Exec (World W) Nothing
require_erasures = read_erasures (λ e. tt)
