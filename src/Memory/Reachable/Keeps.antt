-- ===== src/Memory/Reachable/Keeps.antt =====
-- memory.py: a request keeps what the statements on the stores keep.
use coengram.Memory.Erasure as Erasure
use coengram.Prelude.{
  ◌≡◌, sym, subst, arith, map, any, not, ◌&&◌, is_some, ℕ, String, string_eq, nat_eq, Bool, true,
  false, Option, none, some, List,
}
use coengram.Exec.{runtime_error, Exec}
use coengram.Exec.Keeps.{
  Keeps, Keeps-pure, Keeps-return, Keeps-gets, Keeps-raise_if, Keeps-bind, Keeps-for_each,
  Keeps-count_each,
}
use coengram.Models.{TenantSession}
use coengram.Models.Items.{MemoryItem, RetainMemory, is_private}
use coengram.Memory.{TenantStore, CorrectMemory, ErasureTombstone}
use coengram.Dict.{Dict}
use coengram.Dict
use coengram.Memory.Archive.{
  DecodedArchive, ordered_history, by_id, repeats, parent_ids, validate_correction,
  validate_private_archive,
}
use coengram.Memory.Module as Module
use coengram.Memory.Transfer as Transfer
use coengram.Memory.Transfer.{is_empty}
use coengram.Memory.World.{World, Commands, ImportAcceptance, on_store, on_erasures, on_durable}
use coengram.Memory.World.Keeps.{Keeps-read_store, Keeps-read_erasures}

module _ {W : Type 0} (P : World W → Type 0) (session : TenantSession)
    (store : (A : Type 0) (m : Exec TenantStore A) → Keeps P (on_store session.tenant_id m))
    (durable : (A : Type 0) (m : Exec W A) → Keeps P (on_durable m)) where
  pub retain_for-Keeps :
      (commands : Option (Commands W)) (i : String) (n : ℕ) (owner : String) (c : RetainMemory)
      → Keeps P (Module.retain_for commands i n owner session c)
  unfolding Module.retain_for
  retain_for-Keeps none i n owner c = store MemoryItem _
  retain_for-Keeps (some commands) i n owner c = durable MemoryItem _

  pub retain_agent_private-Keeps :
      (commands : Option (Commands W)) (i : String) (n : ℕ) (c : RetainMemory)
      → Keeps P (Module.retain_agent_private commands i n session c)
  unfolding Module.retain_agent_private
  retain_agent_private-Keeps commands i n c =
      Keeps-bind _ _ (Keeps-raise_if _ _) (λ _. retain_for-Keeps commands i n session.actor_id c)

  pub correct-Keeps :
      (commands : Option (Commands W)) (i : String) (n : ℕ) (c : CorrectMemory)
      → Keeps P (Module.correct commands i n session c)
  unfolding Module.correct
  correct-Keeps none i n c = store MemoryItem _
  correct-Keeps (some commands) i n c = durable MemoryItem _

  owned_items-Keeps :
      (commands : Option (Commands W)) (owner : String)
      → Keeps P (Module.owned_items commands session.tenant_id owner)
  unfolding Module.owned_items
  owned_items-Keeps none owner = Keeps-read_store session.tenant_id _
  owned_items-Keeps (some commands) owner = durable (List MemoryItem) _

  import_item-Keeps :
      (commands : Option (Commands W)) (item : MemoryItem)
      → Keeps P (Transfer.import_item commands session item)
  unfolding Transfer.import_item
  import_item-Keeps none item = store Bool _
  import_item-Keeps (some commands) item =
      Keeps-bind _ _ (durable ImportAcceptance _) (λ a. Keeps-pure a.accepted)

  ordered_history-Keeps : (items : List MemoryItem) → Keeps P (ordered_history items)
  unfolding ordered_history
  ordered_history-Keeps items = record {
    after =
        λ s h. let same : (ordered_history items s).1 ≡ s = ground arith in subst P (sym same) h;
  }

  validate_correction-Keeps :
      (index : Dict String MemoryItem) (erased_ids : List String) (item : MemoryItem)
      → Keeps P (validate_correction index erased_ids item)
  unfolding validate_correction
  validate_correction-Keeps index erased_ids item = record {
    after = λ s h.
        let same : (validate_correction index erased_ids item s).1 ≡ s = ground arith in
        subst P (sym same) h;
  }

  check_tombstone-Keeps :
      (a b : Dict String ErasureTombstone) (t : ErasureTombstone)
      → Keeps P (Transfer.check_tombstone session.actor_id a b t)
  unfolding Transfer.check_tombstone
  check_tombstone-Keeps a b t = record {
    after = λ s h.
        let same : (Transfer.check_tombstone session.actor_id a b t s).1 ≡ s = ground arith in
        subst P (sym same) h;
  }

  completed_erasures-Keeps :
      (owner : String) → Keeps P (Transfer.completed_erasures session.tenant_id owner)
  unfolding Transfer.completed_erasures
  completed_erasures-Keeps owner = Keeps-bind _ _ (Keeps-read_erasures _) (λ r. Keeps-return r)

  check_existing-Keeps :
      (there : Bool) (ts : List ErasureTombstone)
      → Keeps P (Transfer.check_existing session ts there)
  unfolding Transfer.check_existing
  check_existing-Keeps false ts = Keeps-pure tt
  check_existing-Keeps true ts =
      Keeps-bind _ _ (completed_erasures-Keeps session.actor_id)
        (λ existing. Keeps-for_each _ ts (λ t. check_tombstone-Keeps _ _ t))

  check_tombstones-Keeps :
      (ts : List ErasureTombstone) → Keeps P (Transfer.check_tombstones session ts)
  unfolding Transfer.check_tombstones
  check_tombstones-Keeps ts = Keeps-bind _ _ (Keeps-gets _) (λ there. check_existing-Keeps there ts)

  validate_private_archive-Keeps :
      (items : List MemoryItem) (ts : List ErasureTombstone)
      → Keeps P (validate_private_archive items ts)
  unfolding validate_private_archive
  validate_private_archive-Keeps items ts =
      let index = by_id items in
      let erased_ids = map (λ (t : ErasureTombstone). t.memory_id) ts in
      Keeps-bind _ _ (Keeps-raise_if (any (λ item. not (is_private item.scope)) items) _) (λ _.
        Keeps-bind _ _ (Keeps-raise_if (repeats (parent_ids items)) _)
          (λ _. Keeps-for_each _ items (validate_correction-Keeps index erased_ids)))

  check_written-Keeps :
      (index : Dict String MemoryItem) (records : List MemoryItem) (ts : List ErasureTombstone)
      → Keeps P (Transfer.check_written session index records ts)
  unfolding Transfer.check_written
  check_written-Keeps index records ts =
      Keeps-bind _ _ (Keeps-raise_if (any (λ t. is_some (Dict.get index t.memory_id)) ts) _) (λ _.
        Keeps-bind _ _
          (Keeps-for_each _ records (λ item. Keeps-raise_if (Transfer.differs index item) _))
          (λ _. Keeps-bind _ _ (check_tombstones-Keeps ts) (λ _. Keeps-pure records)))

  check_private-Keeps :
      (commands : Option (Commands W)) (a : DecodedArchive)
      → Keeps P (Transfer.check_private commands session a)
  unfolding Transfer.check_private
  check_private-Keeps commands a =
      let ts = a.erasure_tombstones in
      Keeps-bind _ _ (Keeps-raise_if (not (is_empty a.governance_candidates)) _) (λ _.
        Keeps-bind {A = Bool} _ _ (Keeps-gets (λ s. is_some s.erasures)) (λ there.
          Keeps-bind _ _
            (Keeps-raise_if (not (is_empty ts) && not there)
              (runtime_error "Erasure governance is not available"))
            (λ _. Keeps-bind _ _ (ordered_history-Keeps a.memory_items) (λ records.
              Keeps-bind _ _ (validate_private_archive-Keeps records ts) (λ _.
                Keeps-bind _ _ (owned_items-Keeps commands session.actor_id)
                  (λ existing. check_written-Keeps (by_id existing) records ts))))))

  -- An import keeps what its writes keep.
  pub import_private-Keeps :
      (commands : Option (Commands W)) (a : DecodedArchive)
      → ((t : ErasureTombstone)
          → Keeps P (on_erasures (Erasure.import_tombstone session.tenant_id session.actor_id t)))
      → Keeps P (Transfer.import_private commands session a)
  unfolding Transfer.import_private
  import_private-Keeps commands a tombstone =
      Keeps-bind _ _ (check_private-Keeps commands a) (λ records.
        Keeps-bind _ _ (Keeps-count_each _ a.erasure_tombstones tombstone) (λ n.
          Keeps-bind _ _ (Keeps-count_each _ records (import_item-Keeps commands))
            (λ m. Keeps-pure _)))
