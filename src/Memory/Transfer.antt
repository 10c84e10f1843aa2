-- ===== src/Memory/Transfer.antt =====
-- memory.py, `MemoryModule`: what an import does with a decoded archive, and what an export encodes.
use coengram.Prelude.{
  ℕ, ◌+◌, ◌-◌, String, ◌==◌, string_eq, nat_eq, Bool, true, false, not, ◌&&◌, ◌||◌, Option, none,
  some, is_some, List, [], ◌∷◌, ◌++◌, map, contains, any, length, holds,
}
use coengram.Dict
use coengram.Dict.{Dict}
use coengram.Exec.{
  ok, Exec, Nothing, value_error, runtime_error, permission_error, raise_if, for_each, count_each,
  return, pure, gets, ◌>>=◌, ◌>>◌,
}
use coengram.Models.{TenantSession}
use coengram.Models.Items.{MemoryItem, is_knowledge}
use coengram.Memory.{ErasureTombstone, KnowledgeCandidate}
use coengram.Memory.Store as Store
use coengram.Memory.Erasure as Erasure
use coengram.Memory.Erasure.{tombstone_beq, rebind}
use coengram.Memory.Knowledge as Knowledge
use coengram.Memory.Knowledge.{candidate_view}
use coengram.Memory.Archive.{
  DecodedArchive, ArchiveImportResult, put_all, by_id, ordered_history, validate_private_archive,
  same_archived_memory,
}
use coengram.Memory.Module.{owned_items}
use coengram.Memory.Reviews.{is_human_administrator}
use coengram.Memory.World.{
  World, Commands, read_store, on_store, read_governance, on_governance, read_erasures, on_erasures,
  on_durable, require_governance,
}

abbrev pub is_empty : {A : Type 0} → List A → Bool
is_empty [] = true
is_empty (x ∷ xs) = false

-- whether an item that is there under the archived item's id differs from it
abbrev pub differs : Dict String MemoryItem → MemoryItem → Bool
differs existing item =
    holds (λ persisted. not (same_archived_memory persisted item)) (Dict.get existing item.id)

-- whether a candidate that is there under an imported item's id differs from it
abbrev pub conflicts : MemoryItem → Option KnowledgeCandidate → Bool
conflicts item = holds (λ c. not (c.claim == item.content) || not (c.confidence == item.confidence))

-- the last value for each key, as a `dict` comprehension keeps it
unfoldable pub index_by :
    (ErasureTombstone → String)
    → List ErasureTombstone
    → Dict String ErasureTombstone
    → Dict String ErasureTombstone
index_by key [] d = d
index_by key (t ∷ ts) d = index_by key ts (Dict.put d (key t) t)

module _ {W : Type 0} where
  -- the tombstones of an owner
  unfoldable pub completed_erasures : String → String → Exec (World W) (List ErasureTombstone)
  completed_erasures tenant_id owner = do
    listed ← read_erasures (Erasure.list_completed tenant_id owner)
    return listed

  -- the comparison of one archived tombstone with those that are there
  unfoldable pub check_tombstone :
      String
      → Dict String ErasureTombstone
      → Dict String ErasureTombstone
      → ErasureTombstone
      → Exec (World W) Nothing
  check_tombstone owner by_request by_memory t = do
    raise_if
        (holds (λ there. not (tombstone_beq there (rebind owner t))) (Dict.get by_request t.id))
        (value_error "Erasure Tombstone identifier already has different data")
    raise_if (holds (λ there. not (there.id == t.id)) (Dict.get by_memory t.memory_id))
        (value_error "Memory Item already has a different Erasure Tombstone")

  -- the same for all of them, where there is a store of erasures
  unfoldable pub check_existing :
      TenantSession → List ErasureTombstone → Bool → Exec (World W) Nothing
  unfolding completed_erasures check_tombstone index_by for_each
  check_existing session tombstones false = pure tt
  check_existing session tombstones true = do
    existing ← completed_erasures session.tenant_id session.actor_id
    let by_request = index_by (λ t. t.id) existing Dict.empty
    let by_memory = index_by (λ t. t.memory_id) (Dict.values by_request) Dict.empty
    for_each (check_tombstone session.actor_id by_request by_memory) tombstones

  unfoldable pub check_tombstones : TenantSession → List ErasureTombstone → Exec (World W) Nothing
  unfolding check_existing
  check_tombstones session tombstones = do
    there ← gets (λ s. is_some s.erasures)
    check_existing session tombstones there

  -- one round of the loop that imports items
  unfoldable pub import_item :
      Option (Commands W) → TenantSession → MemoryItem → Exec (World W) Bool
  import_item commands session item = elim commands [
    | some c ↦ do
      acceptance ←
          on_durable (c.accept_import session.tenant_id session.actor_id session.actor_id item)
      pure acceptance.accepted
    | none ↦ on_store session.tenant_id (Store.import_private session.actor_id item)
  ]

  -- the comparison of the archive with what is stored
  unfoldable pub check_written :
      TenantSession
      → Dict String MemoryItem
      → List MemoryItem
      → List ErasureTombstone
      → Exec (World W) (List MemoryItem)
  unfolding for_each any check_tombstones
  check_written session index records tombstones = do
    raise_if (any (λ t. is_some (Dict.get index t.memory_id)) tombstones)
        (value_error "Erasure Tombstone conflicts with an active Memory Item")
    for_each
        (λ item.
          raise_if (differs index item)
            (value_error "Memory Item identifier already has different data"))
        records
    check_tombstones session tombstones
    pure records

  -- what `import_private` checks before it writes; the items in the order of their corrections
  unfoldable pub check_private :
      Option (Commands W) → TenantSession → DecodedArchive → Exec (World W) (List MemoryItem)
  unfolding ordered_history validate_private_archive owned_items put_all check_written
  check_private commands session decoded = do
    let tombstones = decoded.erasure_tombstones
    raise_if (not (is_empty decoded.governance_candidates))
        (value_error "Private Memory Archive contains Tenant governance records")
    there ← gets (λ s. is_some s.erasures)
    raise_if (not (is_empty tombstones) && not there)
        (runtime_error "Erasure governance is not available")
    records ← ordered_history decoded.memory_items
    validate_private_archive records tombstones
    existing ← owned_items commands session.tenant_id session.actor_id
    check_written session (by_id existing) records tombstones

  -- `import_private`, after the decoding
  unfoldable pub import_private :
      Option (Commands W) → TenantSession → DecodedArchive → Exec (World W) ArchiveImportResult
  unfolding check_private import_item count_each
  import_private commands session decoded = do
    let tombstones = decoded.erasure_tombstones
    records ← check_private commands session decoded
    imported_tombstones ←
        count_each
          (λ t. on_erasures (Erasure.import_tombstone session.tenant_id session.actor_id t))
          tombstones
    imported ← count_each (import_item commands session) records
    let accepted = imported + imported_tombstones
    pure (record {
      imported = accepted;
      skipped = length records + length tombstones - accepted;
      candidates = [];
      erasure_tombstones = imported_tombstones;
      governance_records = 0;
    })

  -- `import_tenant`'s first loop: the candidates that are there already
  unfoldable pub existing_candidates :
      String → List MemoryItem → Exec (World W) (List KnowledgeCandidate)
  existing_candidates tenant_id [] = pure []
  existing_candidates tenant_id (item ∷ rest) = do
    found ← read_governance (Knowledge.get_candidate tenant_id item.id)
    raise_if (conflicts item found)
        (value_error "Knowledge Candidate identifier already has different data")
    others ← existing_candidates tenant_id rest
    pure (elim found [ none ↦ others | some c ↦ c ∷ others ])

  -- the second loop: the candidates of the other items
  unfoldable pub import_candidates :
      ℕ → TenantSession → List String → List MemoryItem → Exec (World W) (List KnowledgeCandidate)
  unfolding contains
  import_candidates now session existing_ids [] s = (ok [], s)
  import_candidates now session existing_ids (item ∷ rest) s =
      let others = import_candidates now session existing_ids rest in
      elim (contains item.id existing_ids) [
        | true ↦ others s
        | false ↦
            (do
              c ← on_governance (
                  Knowledge.import_candidate now session.tenant_id session.actor_id item.id
                    item.content item.confidence)
              cs ← others
              pure (c ∷ cs))
              s
      ]

  -- `import_tenant`, after the decoding, with the check that precedes it
  unfoldable pub import_tenant :
      ℕ → TenantSession → DecodedArchive → Exec (World W) ArchiveImportResult
  unfolding existing_candidates import_candidates any
  import_tenant now session decoded = do
    raise_if (not (is_human_administrator session))
        (permission_error "Tenant import requires a human Tenant Administrator")
    require_governance
    raise_if (not (is_empty decoded.erasure_tombstones))
        (value_error "Tenant Memory Archive contains Private Memory erasure records")
    let records = decoded.memory_items
    raise_if (any (λ item. not (is_knowledge item.scope)) records)
        (value_error "Tenant Memory Archive contains a private item")
    existing ← existing_candidates session.tenant_id records
    new ← import_candidates now session (map (λ c. c.id) existing) records
    let governance_records = length decoded.governance_candidates
    pure (record {
      imported = length new;
      skipped = governance_records + length existing;
      candidates = map candidate_view (existing ++ new);
      erasure_tombstones = 0;
      governance_records = governance_records;
    })

  -- what `export_private` encodes
  unfoldable pub export_private :
      Option (Commands W) → TenantSession → Exec (World W) DecodedArchive
  unfolding owned_items completed_erasures
  export_private commands session = do
    items ← owned_items commands session.tenant_id session.actor_id
    there ← gets (λ s. is_some s.erasures)
    tombstones ← elim there [
      | false ↦ pure []
      | true ↦ completed_erasures session.tenant_id session.actor_id
    ]
    pure (record {
      memory_items = items;
      governance_candidates = [];
      erasure_tombstones = tombstones;
    })

  -- what `export_tenant` encodes
  unfoldable pub export_tenant : TenantSession → Exec (World W) DecodedArchive
  export_tenant session = do
    raise_if (not (is_human_administrator session))
        (permission_error "Tenant export requires a human Tenant Administrator")
    items ← read_store session.tenant_id Store.list_tenant_knowledge
    candidates ← read_governance (Knowledge.list_candidates session.tenant_id)
    pure (record {
      memory_items = items;
      governance_candidates = map candidate_view candidates;
      erasure_tombstones = [];
    })
