-- ===== src/Memory/Reachable/Imports.antt =====
-- memory.py: an import into a Tenant's knowledge keeps what its writes keep.
use coengram.Prelude.{
  ℕ, String, string_eq, nat_eq, not, List, [], ◌∷◌, contains, any, Bool-cases, inl, inr,
}
use coengram.Exec.{value_error}
use coengram.Exec.Keeps.{Keeps, Keeps-pure, Keeps-raise_if, Keeps-bind}
use coengram.Models.{TenantSession}
use coengram.Models.Items.{MemoryItem, is_knowledge}
use coengram.Memory.Archive.{DecodedArchive}
use coengram.Memory.Knowledge as Knowledge
use coengram.Memory.Reviews.{is_human_administrator}
use coengram.Memory.Transfer as Transfer
use coengram.Memory.Transfer.{is_empty}
use coengram.Memory.World.{World, on_governance}
use coengram.Memory.World.Keeps.{Keeps-read_governance}

module _ {W : Type 0} (P : World W → Type 0) (n : ℕ) (session : TenantSession) where
  existing_candidates-Keeps :
      (items : List MemoryItem) → Keeps P (Transfer.existing_candidates session.tenant_id items)
  unfolding Transfer.existing_candidates
  existing_candidates-Keeps [] = Keeps-pure []
  existing_candidates-Keeps (item ∷ rest) = Keeps-bind _ _ (Keeps-read_governance _) (λ found.
      Keeps-bind _ _ (Keeps-raise_if (Transfer.conflicts item found) _)
        (λ _. Keeps-bind _ _ (existing_candidates-Keeps rest) (λ others. Keeps-pure _)))

  import_candidates-Keeps :
      (existing_ids : List String) (items : List MemoryItem)
      → ((item : MemoryItem)
          → Keeps P (
              on_governance (
                Knowledge.import_candidate n session.tenant_id session.actor_id item.id item.content
                  item.confidence)))
      → Keeps P (Transfer.import_candidates n session existing_ids items)
  unfolding Transfer.import_candidates
  import_candidates-Keeps existing_ids [] k = record { after = λ s h. h }
  import_candidates-Keeps existing_ids (item ∷ rest) k =
      let others = import_candidates-Keeps existing_ids rest k in
      let new = Keeps-bind _ _ (k item) (λ c. Keeps-bind _ _ others (λ cs. Keeps-pure (c ∷ cs))) in
      record {
        after = λ s h. elim (Bool-cases (contains item.id existing_ids)) [
          | inl there ↦ rw (there, Transfer.import_candidates) (others.after s h)
          | inr missing ↦ rw (missing, Transfer.import_candidates) (new.after s h)
        ];
      }

  pub import_tenant-Keeps :
      (a : DecodedArchive)
      → ((item : MemoryItem)
          → Keeps P (
              on_governance (
                Knowledge.import_candidate n session.tenant_id session.actor_id item.id item.content
                  item.confidence)))
      → Keeps P (Transfer.import_tenant n session a)
  unfolding Transfer.import_tenant
  import_tenant-Keeps a k =
      Keeps-bind _ _ (Keeps-raise_if (not (is_human_administrator session)) _) (λ _.
        Keeps-bind _ _ (Keeps-read_governance _) (λ _.
          Keeps-bind _ _
            (Keeps-raise_if (not (is_empty a.erasure_tombstones))
              (value_error "Tenant Memory Archive contains Private Memory erasure records"))
            (λ _.
              Keeps-bind _ _
                (Keeps-raise_if
                  (any (λ (item : MemoryItem). not (is_knowledge item.scope)) a.memory_items)
                  (value_error "Tenant Memory Archive contains a private item"))
                (λ _. Keeps-bind _ _ (existing_candidates-Keeps a.memory_items) (λ existing.
                  Keeps-bind _ _ (import_candidates-Keeps _ a.memory_items k)
                    (λ new. Keeps-pure _))))))
