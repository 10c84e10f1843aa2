-- ===== src/Memory/Corrected.antt =====
-- memory.py and stores/memory.py: what a correction leaves, and a correction that is sent again.
use coengram.Prelude.{
  ℕ, String, string_eq, pair_eq, ◌≡◌, ap, ◌∙◌, Bool, true, false, none, some, List, [], ◌∷◌, ◌++◌,
  arith, any,
}
use coengram.Dict
use coengram.Dict.Laws.{get-put_self}
use coengram.Exec.{ok}
use coengram.Models.{TenantSession, private, active, superseded}
use coengram.Models.Items.{MemoryItem}
use coengram.Memory.{TenantStore, CorrectMemory}
use coengram.Memory.Store.{correctable, supersede, replace_first, correct_private}
use coengram.Prelude.Text.{or_else}
use coengram.Memory.Module.{correct, owner_of}
use coengram.Memory.World.{World, put_store}
use coengram.Memory.World.Laws.{on_store_lem}

replace_first_lem :
    (p : MemoryItem → Bool) (f : MemoryItem → MemoryItem) (before after : List MemoryItem)
    (x : MemoryItem)
    → any p before ≡ false
    → p x ≡ true
    → replace_first p f (before ++ x ∷ after) ≡ some (x, before ++ f x ∷ after)
unfolding replace_first any
replace_first_lem p f [] after x none_before hit = rw hit
replace_first_lem p f (y ∷ ys) after x none_before hit =
    let ih = replace_first_lem p f ys after x (ground arith) hit in
    let miss : p y ≡ false = ground arith in rw (miss, ih)

module _ {W : Type 0} (i : String) (n : ℕ) (session : TenantSession) (c : CorrectMemory)
    (s : World W) (store : TenantStore) (before after : List MemoryItem)
    (original : MemoryItem) where
  abbrev owner : String
  owner = owner_of session

  abbrev key : String × String
  key = (owner, c.idempotency_key)

  -- the new item
  abbrev pub replacement : MemoryItem
  replacement = record {
    id = i;
    owner_principal_id = some owner;
    scope = private;
    content = c.replacement_content;
    kind = c.kind;
    confidence = c.confidence;
    provenance = record { actor_id = or_else (some session.actor_id) owner; source = "correction" };
    created_at = n;
    state = active;
    supersedes_id = some original.id;
  }

  -- the item that was corrected
  abbrev pub marked : MemoryItem
  marked = record {
    id = original.id;
    owner_principal_id = original.owner_principal_id;
    scope = original.scope;
    content = original.content;
    kind = original.kind;
    confidence = original.confidence;
    provenance = original.provenance;
    created_at = original.created_at;
    state = superseded;
    supersedes_id = original.supersedes_id;
  }

  -- the store that the correction leaves
  abbrev pub after_correction : TenantStore
  after_correction = record store {
    items = (before ++ marked ∷ after) ++ replacement ∷ [];
    correction_keys = Dict.put store.correction_keys key replacement;
  }

  correct_private_lem :
      store.items ≡ before ++ original ∷ after
      → Dict.get store.correction_keys key ≡ none
      → any (correctable owner c.memory_id) before ≡ false
      → correctable owner c.memory_id original ≡ true
      → correct_private i n owner c (some session.actor_id) store
        ≡ (ok replacement, after_correction)
  unfolding correct_private
  correct_private_lem held fresh first hit =
      let found : replace_first (correctable owner c.memory_id) supersede store.items
          ≡ some (original, before ++ supersede original ∷ after) =
        ap (replace_first (correctable owner c.memory_id) supersede) held
        ∙ replace_first_lem (correctable owner c.memory_id) supersede before after original first
            hit in
      rw (fresh, found, correct_private)

  again :
      (i' : String) (n' : ℕ)
      → correct_private i' n' owner c (some session.actor_id) after_correction
        ≡ (ok replacement, after_correction)
  unfolding correct_private
  again i' n' = rw (get-put_self store.correction_keys key replacement, correct_private)

  -- Without durable commands, in a Tenant that has a store, a correction under a new key of an item that
  -- the owner has and that is live gives the first such item the state superseded, in its place, and
  -- appends the new item, which is active, has the command's content and names the first as what it
  -- supersedes; nothing else changes. The same correction sent again returns the same item and leaves
  -- the store.
  pub correct_lem :
      Dict.get s.stores session.tenant_id ≡ some store
      → store.items ≡ before ++ original ∷ after
      → Dict.get store.correction_keys key ≡ none
      → any (correctable owner c.memory_id) before ≡ false
      → correctable owner c.memory_id original ≡ true
      → (correct none i n session c s
          ≡ (ok replacement, put_store s session.tenant_id after_correction))
        × ((i' : String) (n' : ℕ) (s' : World W)
            → Dict.get s'.stores session.tenant_id ≡ some after_correction
            → correct none i' n' session c s'
              ≡ (ok replacement, put_store s' session.tenant_id after_correction))
  unfolding correct
  correct_lem there held fresh first hit = (
    on_store_lem s session.tenant_id store there _
        ∙ ap (λ x. (x.0, put_store s session.tenant_id x.1))
            (correct_private_lem held fresh first hit),
    λ i' n' s' kept.
        on_store_lem s' session.tenant_id after_correction kept _
        ∙ ap (λ x. (x.0, put_store s' session.tenant_id x.1)) (again i' n'),
  )
