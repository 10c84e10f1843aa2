-- ===== src/Memory/Store.antt =====
-- stores/memory.py, `InMemoryTenantMemoryStore`: the items of one Tenant.
use coengram.Prelude.{
  ℕ, String, ◌==◌, string_eq, pair_eq, Bool, true, false, not, ◌&&◌, ◌||◌, Option, none, some, List,
  [], ◌∷◌, ◌++◌, map, contains, any, keep, take, length, leb, ltb, holds, if◌then◌else◌,
}
use Prim.Native.String.{◌++◌ as append_text}
use coengram.Prelude.Text.{str_leb, or_else}
use coengram.Prelude.Sort.{sort}
use coengram.Dict
use coengram.Dict.{Dict}
use coengram.Exec.{ok, err, Exec, lookup_error}
use coengram.Models.{private, tenant_knowledge, active, superseded, explicit}
use coengram.Models.Items.{
  MemoryItem, RetainMemory, RecallQuery, Confidence, is_private, is_knowledge, is_active,
}
use coengram.Memory.{CorrectMemory, TenantStore}
use coengram.Memory.Terms.{score}

-- `__init__`
abbrev pub init : TenantStore
init = record {
  items = [];
  idempotency = Dict.empty;
  published_candidates = Dict.empty;
  correction_keys = Dict.empty;
}

-- `item.owner_principal_id == owner`
abbrev pub owned_by : String → MemoryItem → Bool
owned_by owner item = holds (λ o. o == owner) item.owner_principal_id

-- `item.owner_principal_id in owners`
abbrev pub owned_in : List String → MemoryItem → Bool
owned_in owners item = holds (λ o. contains o owners) item.owner_principal_id

abbrev pub append_item : MemoryItem → TenantStore → TenantStore
append_item item s = record s { items = s.items ++ item ∷ [] }

-- the item that a command to retain makes
abbrev pub retained : String → ℕ → String → RetainMemory → String → MemoryItem
retained fresh_id now owner command actor_id = record {
  id = fresh_id;
  owner_principal_id = some owner;
  scope = private;
  content = command.content;
  kind = command.kind;
  confidence = command.confidence;
  provenance = record { actor_id = actor_id; source = "explicit" };
  created_at = now;
  state = active;
  supersedes_id = none;
}

unfoldable pub retain_private :
    String → ℕ → String → RetainMemory → Option String → Exec TenantStore MemoryItem
retain_private fresh_id now owner command actor_id s =
    let key : String × String = (owner, command.idempotency_key) in
    elim (Dict.get s.idempotency key) [
      | some existing ↦ (ok existing, s)
      | none ↦
          let item = retained fresh_id now owner command (or_else actor_id owner) in
          (ok item, record (append_item item s) { idempotency = Dict.put s.idempotency key item })
    ]

-- which items `recall` ranks
abbrev pub recallable : List String → MemoryItem → Bool
recallable owners item = is_active item.state && (is_knowledge item.scope || owned_in owners item)

module _ (casefold : String → String) where
  abbrev pub score_of : String → MemoryItem → ℕ
  score_of query item = score casefold item.content query

  -- `sorted(..., reverse=True)` by the score, which keeps the order of items with one score
  abbrev pub ranks_before : String → MemoryItem → MemoryItem → Bool
  ranks_before query a b = leb (score_of query b) (score_of query a)

  unfoldable pub ranked : List String → String → List MemoryItem → List MemoryItem
  ranked owners query items =
      keep (λ item. ltb 0 (score_of query item))
        (sort (ranks_before query) (keep (recallable owners) items))

  unfoldable pub recall : List String → RecallQuery → TenantStore → List MemoryItem
  recall owners query s = take query.limit (ranked owners query.query s.items)

unfoldable pub get_visible_private_items : List String → List String → TenantStore → List MemoryItem
get_visible_private_items owners item_ids s =
    keep
      (λ item.
        contains item.id item_ids
        && is_private item.scope
        && is_active item.state
        && owned_in owners item)
      s.items

-- the item that a published candidate becomes
abbrev pub knowledge : String → ℕ → String → String → Confidence → String → MemoryItem
knowledge fresh_id now source claim confidence proposer_id = record {
  id = fresh_id;
  owner_principal_id = none;
  scope = tenant_knowledge;
  content = claim;
  kind = explicit;
  confidence = confidence;
  provenance = record { actor_id = proposer_id; source = source };
  created_at = now;
  state = active;
  supersedes_id = none;
}

unfoldable pub publish_tenant_knowledge :
    String → ℕ → String → String → Confidence → String → Exec TenantStore MemoryItem
publish_tenant_knowledge fresh_id now candidate_id claim confidence proposer_id s =
    elim (Dict.get s.published_candidates candidate_id) [
      | some existing ↦ (ok existing, s)
      | none ↦
          let item =
            knowledge fresh_id now (append_text "candidate:" candidate_id) claim confidence
              proposer_id in
          (
            ok item,
            record (append_item item s) {
              published_candidates = Dict.put s.published_candidates candidate_id item;
            },
          )
    ]

-- the item that a correction looks for
abbrev pub correctable : String → String → MemoryItem → Bool
correctable owner memory_id item =
    item.id == memory_id && owned_by owner item && is_private item.scope && is_active item.state

abbrev pub supersede : MemoryItem → MemoryItem
supersede item = record item { state = superseded }

-- the first item that passes, and the items with that one replaced
unfoldable pub replace_first :
    (MemoryItem → Bool)
    → (MemoryItem → MemoryItem)
    → List MemoryItem
    → Option (MemoryItem × List MemoryItem)
replace_first p f [] = none
replace_first p f (x ∷ xs) =
    let rest = replace_first p f xs in
    if p x
    then some (x, f x ∷ xs)
    else elim rest [ none ↦ none | some (found, ys) ↦ some (found, x ∷ ys) ]

abbrev pub corrected : String → ℕ → String → CorrectMemory → String → String → MemoryItem
corrected fresh_id now owner command actor_id original_id = record {
  id = fresh_id;
  owner_principal_id = some owner;
  scope = private;
  content = command.replacement_content;
  kind = command.kind;
  confidence = command.confidence;
  provenance = record { actor_id = actor_id; source = "correction" };
  created_at = now;
  state = active;
  supersedes_id = some original_id;
}

unfoldable pub correct_private :
    String → ℕ → String → CorrectMemory → Option String → Exec TenantStore MemoryItem
correct_private fresh_id now owner command actor_id s =
    let key : String × String = (owner, command.idempotency_key) in
    elim (Dict.get s.correction_keys key) [
      | some existing ↦ (ok existing, s)
      | none ↦ elim (replace_first (correctable owner command.memory_id) supersede s.items) [
        | none ↦ (err (lookup_error "Owned active Memory Item not found"), s)
        | some (original, items) ↦
            let item = corrected fresh_id now owner command (or_else actor_id owner) original.id in
            (
              ok item,
              record s {
                items = items ++ item ∷ [];
                correction_keys = Dict.put s.correction_keys key item;
              },
            )
      ]
    ]

-- whether `erase_private` removes the item
abbrev pub erases : String → String → MemoryItem → Bool
erases owner memory_id item = item.id == memory_id && owned_by owner item

unfoldable pub erase_private : String → String → Exec TenantStore Bool
erase_private owner memory_id s =
    let left = keep (λ item. not (erases owner memory_id item)) s.items in
    (ok (ltb (length left) (length s.items)), record s { items = left })

abbrev pub item_leb : MemoryItem → MemoryItem → Bool
item_leb a b = str_leb a.id b.id

unfoldable pub list_private : String → TenantStore → List MemoryItem
list_private owner s =
    sort item_leb (keep (λ item. is_private item.scope && owned_by owner item) s.items)

unfoldable pub list_tenant_knowledge : TenantStore → List MemoryItem
list_tenant_knowledge s = sort item_leb (keep (λ item. is_knowledge item.scope) s.items)

-- marks the ancestor that an applied item supersedes
abbrev pub supersede_ancestor : String → String → MemoryItem → MemoryItem
supersede_ancestor owner ancestor_id item =
    if item.id == ancestor_id && owned_by owner item then supersede item else item

abbrev pub without_ancestor : String → Option String → List MemoryItem → List MemoryItem
without_ancestor owner none items = items
without_ancestor owner (some id) items = map (supersede_ancestor owner id) items

unfoldable pub apply_private_item : String → MemoryItem → Exec TenantStore Bool
apply_private_item owner item s =
    if any (λ existing. existing.id == item.id) s.items then (ok false, s) else (
      ok true,
      record s {
        items =
            without_ancestor owner item.supersedes_id s.items
            ++ record item { owner_principal_id = some owner; scope = private } ∷ [];
      },
    )

-- `import_private`
unfoldable pub import_private : String → MemoryItem → Exec TenantStore Bool
import_private = apply_private_item
