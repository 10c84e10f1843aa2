-- ===== src/Memory/Module.antt =====
-- memory.py, `MemoryModule`: Private Memory and what is recalled of it.
use Prim.Native.String.{◌++◌ as append_text}
use coengram.Prelude.{ℕ, String, Bool, true, not, Option, none, some, List, [], ◌∷◌, map}
use coengram.Prelude.Text.{or_else}
use coengram.Exec.{Exec, permission_error, runtime_error, raise_if, present, pure, ◌>>=◌, ◌>>◌}
use coengram.Models.{TenantSession, MutationState, accepted, applied, failed, is_agent}
use coengram.Models.Items.{
  MemoryItem, RetainMemory, RecallQuery, RecallResult, MemoryMutationReceipt,
  PrivateMemoryInspection,
}
use coengram.Memory.{CorrectMemory}
use coengram.Memory.Store as Store
use coengram.Memory.World.{
  World, Commands, PrivateMemoryCommandState, read_store, on_store, on_durable,
}

-- `session.subject_user_id or session.actor_id`
abbrev pub owner_of : TenantSession → String
owner_of session = or_else session.subject_user_id session.actor_id

abbrev subject_owner : Bool → Option String → List String
subject_owner true (some subject) = subject ∷ []
subject_owner _ _ = []

-- `_private_owners`
abbrev pub private_owners : TenantSession → List String
private_owners session =
    session.actor_id ∷ subject_owner (is_agent session.actor_kind) session.subject_user_id

-- `f"memory_mutation_{state.value}"`
abbrev pub mutation_value : MutationState → String
mutation_value accepted = "accepted"
mutation_value applied = "applied"
mutation_value failed = "failed"

-- `MutationState(command.state.value)`
abbrev pub mutation_of : PrivateMemoryCommandState → MutationState
mutation_of PrivateMemoryCommandState.accepted = accepted
mutation_of PrivateMemoryCommandState.applied = applied
mutation_of PrivateMemoryCommandState.failed = failed

abbrev pub receipt : String → MutationState → MemoryItem → MemoryMutationReceipt
receipt operation_id state item = record {
  code = append_text "memory_mutation_" (mutation_value state);
  operation_id = operation_id;
  state = state;
  item = item;
  id = item.id;
}

abbrev pub inspection : String → (String → Option String) → MemoryItem → PrivateMemoryInspection
inspection owner content item = record {
  id = item.id;
  owner_principal_id = owner;
  state = item.state;
  operation_id = none;
  mutation_state = applied;
  content = content item.content;
  kind = some item.kind;
  confidence = some item.confidence;
  created_at = item.created_at;
  supersedes_id = item.supersedes_id;
}

abbrev pub without_content : PrivateMemoryInspection → PrivateMemoryInspection
without_content i = record i { content = none }

module _ {W : Type 0} where
  unfoldable pub recall :
      (String → String) → TenantSession → RecallQuery → Exec (World W) RecallResult
  recall casefold session query = do
    items ← read_store session.tenant_id (Store.recall casefold (private_owners session) query)
    pure (record { items = items })

  unfoldable pub list_operator_tenant_knowledge : String → Exec (World W) (List MemoryItem)
  list_operator_tenant_knowledge tenant_id = read_store tenant_id Store.list_tenant_knowledge

module _ {W : Type 0} (commands : Option (Commands W)) where
  unfoldable pub retain_for :
      String → ℕ → String → TenantSession → RetainMemory → Exec (World W) MemoryItem
  retain_for fresh_id now owner session command = elim commands [
    | some c ↦ on_durable (c.accept_retain session.tenant_id session.actor_id owner command)
    | none ↦
        on_store session.tenant_id
          (Store.retain_private fresh_id now owner command (some session.actor_id))
  ]

  unfoldable pub retain : String → ℕ → TenantSession → RetainMemory → Exec (World W) MemoryItem
  unfolding retain_for
  retain fresh_id now session command = retain_for fresh_id now (owner_of session) session command

  unfoldable pub retain_agent_private :
      String → ℕ → TenantSession → RetainMemory → Exec (World W) MemoryItem
  unfolding retain_for
  retain_agent_private fresh_id now session command = do
    raise_if (not (is_agent session.actor_kind))
        (permission_error "Agent Private Memory requires an Agent Actor")
    retain_for fresh_id now session.actor_id session command

  unfoldable pub correct : String → ℕ → TenantSession → CorrectMemory → Exec (World W) MemoryItem
  correct fresh_id now session command = elim commands [
    | some c ↦
        on_durable
          (c.accept_correction session.tenant_id session.actor_id (owner_of session) command)
    | none ↦
        on_store session.tenant_id
          (Store.correct_private fresh_id now (owner_of session) command (some session.actor_id))
  ]

  -- `_mutation_receipt`
  unfoldable pub mutation_receipt : String → MemoryItem → Exec (World W) MemoryMutationReceipt
  mutation_receipt tenant_id item = elim commands [
    | none ↦ pure (receipt item.id applied item)
    | some c ↦ do
      found ← on_durable (c.get_memory_command_by_result tenant_id item.id)
      command ←
          present found (runtime_error "Committed Private Memory operation cannot be inspected")
      pure (receipt command.id (mutation_of command.state) item)
  ]

  unfoldable pub retain_result :
      String → ℕ → TenantSession → RetainMemory → Exec (World W) MemoryMutationReceipt
  unfolding retain mutation_receipt
  retain_result fresh_id now session command = do
    item ← retain fresh_id now session command
    mutation_receipt session.tenant_id item

  unfoldable pub correct_result :
      String → ℕ → TenantSession → CorrectMemory → Exec (World W) MemoryMutationReceipt
  unfolding correct mutation_receipt
  correct_result fresh_id now session command = do
    item ← correct fresh_id now session command
    mutation_receipt session.tenant_id item

  -- the items that a Principal owns
  unfoldable pub owned_items : String → String → Exec (World W) (List MemoryItem)
  owned_items tenant_id owner = elim commands [
    | some c ↦ on_durable (c.list_private_memory_items tenant_id owner)
    | none ↦ read_store tenant_id (Store.list_private owner)
  ]

  unfoldable pub inspect_private : TenantSession → Exec (World W) (List PrivateMemoryInspection)
  inspect_private session = elim commands [
    | some c ↦ on_durable (c.list_private_memory_state session.tenant_id session.actor_id)
    | none ↦ do
      items ← read_store session.tenant_id (Store.list_private session.actor_id)
      pure (map (inspection session.actor_id (λ text. some text)) items)
  ]

  unfoldable pub list_operator_private_memory_metadata :
      String → String → Exec (World W) (List PrivateMemoryInspection)
  list_operator_private_memory_metadata tenant_id owner = elim commands [
    | some c ↦ do
      inspections ← on_durable (c.list_private_memory_state tenant_id owner)
      pure (map without_content inspections)
    | none ↦ do
      items ← read_store tenant_id (Store.list_private owner)
      pure (map (inspection owner (λ text. none)) items)
  ]
