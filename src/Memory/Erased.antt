-- ===== src/Memory/Erased.antt =====
-- memory.py and lifecycle.py: carrying out an approved erasure.
use text.Mathlib.TextEquality.{eq_iff}
use coengram.Prelude.{
  ℕ, String, string_eq, ◌≡◌, ◌↔◌, sym, ap, subst, ◌∙◌, inl, inr, true, false, not, none, some, List,
  [], ◌∷◌, arith, keep, ltb, length, Bool-cases, Option-cases,
}
use coengram.Prelude.Members.{◌∈◌, mem-keep, mem_of_keep, length-keep-lt, keep_all}
use coengram.Dict
use coengram.Dict.Laws.{get-put_self}
use coengram.Dict.Members.{get_of_mem-values}
use coengram.Exec.{ok, err, lookup_error}
use coengram.Models.Items.{MemoryItem}
use coengram.Memory.{TenantStore, Erasures, ErasureRequest, ErasureRequestView, ErasureStatus}
use coengram.Memory.Store.{erase_private, erases}
use coengram.Memory.Erasure.{
  next_approved, awaits_erasure, mark_completed, as_completed, get_request, of_tenant, put_request,
  first,
}
use coengram.Memory.Reviews.{erase_next, erase_for}
use coengram.Memory.World.{World, put_store}
use coengram.Memory.World.Laws.{on_store_lem, read_erasures_lem, on_erasures_lem}

-- Every request is kept under its own id.
abbrev pub IsKeyed : Erasures → Type 0
IsKeyed e = (k : String) (r : ErasureRequest) → Dict.get e.requests k ≡ some r → r.id ≡ k

-- the item that an erasure is about
abbrev pub IsTarget : ErasureRequest → MemoryItem → Type 0
IsTarget r item = (item.id ≡ r.memory_id) × (item.owner_principal_id ≡ some r.owner_principal_id)

erases_iff :
    (r : ErasureRequest) (item : MemoryItem)
    → (erases r.owner_principal_id r.memory_id item ≡ true) ↔ IsTarget r item
erases_iff r item = elim (Option-cases item.owner_principal_id) [
  | inl nobody ↦ ground arith
  | inr (o, owner) ↦ ground (arith, eq_iff item.id r.memory_id, eq_iff o r.owner_principal_id)
]

first_mem :
    (t : String) (xs : List ErasureRequest) (r : ErasureRequest)
    → first (keep (awaits_erasure t) xs) ≡ some r
    → (r ∈ xs) × (awaits_erasure t r ≡ true)
first_mem t xs r h = mem_of_keep (awaits_erasure t) r xs (head (keep (awaits_erasure t) xs) h)
  where
    head : (ys : List ErasureRequest) → first ys ≡ some r → r ∈ ys
    head [] e = absurd (cc)
    head (y ∷ ys) e = inl (cc)

-- the next erasure is a request of the Tenant, under its id
pub next_approved-get_request :
    (t : String) (e : Erasures) (r : ErasureRequest)
    → IsKeyed e
    → next_approved t e ≡ some r
    → (Dict.get e.requests r.id ≡ some r)
      × (get_request t r.id e ≡ some r)
      × (awaits_erasure t r ≡ true)
unfolding next_approved get_request
next_approved-get_request t e r keyed h =
    let (m, waits) = first_mem t (Dict.values e.requests) r h in
    let (k, found) = get_of_mem-values e.requests r m in
    let here : Dict.get e.requests r.id ≡ some r =
      subst (λ j. Dict.get e.requests j ≡ some r) (sym (keyed k r found)) found in
    (here, rw here (ground arith), waits)

-- what is left in a store once the target is erased
abbrev pub left_by : ErasureRequest → List MemoryItem → List MemoryItem
left_by r items = keep (λ item. not (erases r.owner_principal_id r.memory_id item)) items

mem-left_by :
    (r : ErasureRequest) (items : List MemoryItem) (b : MemoryItem)
    → (b ∈ left_by r items) ↔ (b ∈ items) × ¬ IsTarget r b
mem-left_by r items b = (
  λ m.
      let (here, kept) = mem_of_keep _ b items m in
      (here, λ target. absurd (ground (arith, (erases_iff r b).1 target))),
  λ (here, spared).
      mem-keep _ b items here (elim (Bool-cases (erases r.owner_principal_id r.memory_id b)) [
        | inl hit ↦ absurd (spared ((erases_iff r b).0 hit))
        | inr miss ↦ rw miss
      ]),
)

module _ {W : Type 0} (now : ℕ) (t : String) (s : World W) (store : TenantStore) (e : Erasures)
    (r : ErasureRequest) (has_store : Dict.get s.stores t ≡ some store)
    (has_erasures : s.erasures ≡ some e) (keyed : IsKeyed e)
    (next : next_approved t e ≡ some r) where
  erase_next-erase_for : erase_next now t s ≡ erase_for now t r s
  unfolding erase_next
  erase_next-erase_for = rw (read_erasures_lem s e has_erasures, next)

  -- the request once it is carried out
  abbrev pub carried_out : ErasureRequest
  carried_out = record {
    id = r.id;
    tenant_id = r.tenant_id;
    memory_id = r.memory_id;
    requester_id = r.requester_id;
    owner_principal_id = r.owner_principal_id;
    reason = none;
    status = ErasureStatus.completed;
    created_at = r.created_at;
    reviewed_by = r.reviewed_by;
    review_rationale = none;
    completed_at = some now;
  }

  -- what the step returns
  abbrev pub returned : ErasureRequestView
  returned = record {
    id = r.id;
    memory_id = r.memory_id;
    requester_id = r.requester_id;
    owner_principal_id = r.owner_principal_id;
    status = ErasureStatus.completed;
    created_at = r.created_at;
    reviewed_by = r.reviewed_by;
    review_rationale = none;
    completed_at = some now;
  }

  -- the requests that an erasure leaves
  abbrev pub requests_after : Erasures
  requests_after = record e { requests = Dict.put e.requests r.id carried_out }

  -- the state that an erasure leaves
  abbrev pub after_erasure : World W
  after_erasure = record s {
    stores = Dict.put s.stores t (record store { items = left_by r store.items });
    erasures = some requests_after;
  }

  mark_completed_lem :
      mark_completed now t r.id e ≡ (ok (as_completed now r), put_request (as_completed now r) e)
  unfolding mark_completed
  mark_completed_lem = rw ((next_approved-get_request t e r keyed next).1, mark_completed)

  after_store : World W
  after_store = put_store s t (record store { items = left_by r store.items })

  erase_for-after_erasure :
      ltb (length (left_by r store.items)) (length store.items) ≡ true
      → erase_for now t r s ≡ (ok (some returned), after_erasure)
  unfolding erase_for erase_private after_store
  erase_for-after_erasure shorter =
      rw (on_store_lem s t store has_store (erase_private r.owner_principal_id r.memory_id)) (
        rw shorter (
          rw (on_erasures_lem after_store e has_erasures (mark_completed now t r.id))
            (rw mark_completed_lem)))

  erase_for-missing :
      ltb (length (left_by r store.items)) (length store.items) ≡ false
      → erase_for now t r s
        ≡ (err (lookup_error "Owned Memory Item not found for approved erasure"), after_store)
  unfolding erase_for erase_private after_store
  erase_for-missing same =
      rw (on_store_lem s t store has_store (erase_private r.owner_principal_id r.memory_id))
        (rw same)

  -- If requests are kept under their own ids, and the Tenant's next approved one names an item that its
  -- store holds, the step carries it out: it returns the request as completed at that time, and the
  -- request is then found so, without its reason and without the rationale of its review; of the Tenant's
  -- items exactly those are left that the request does not name. Nothing else changes.
  pub erase_next_lem :
      (a : MemoryItem)
      → a ∈ store.items
      → IsTarget r a
      → (erase_next now t s ≡ (ok (some returned), after_erasure))
        × ((b : MemoryItem) → (b ∈ left_by r store.items) ↔ (b ∈ store.items) × ¬ IsTarget r b)
        × (get_request t r.id requests_after ≡ some carried_out)
  unfolding get_request
  erase_next_lem a m target =
      let fewer =
        length-keep-lt (λ b. not (erases r.owner_principal_id r.memory_id b)) a store.items m
          (ground (arith, (erases_iff r a).1 target)) in
      let waits = (next_approved-get_request t e r keyed next).2 in
      (
        erase_next-erase_for ∙ erase_for-after_erasure (ground arith),
        mem-left_by r store.items,
        rw (get-put_self, of_tenant) (ground arith),
      )

  erase_next-refused :
      ((b : MemoryItem) → b ∈ store.items → ¬ IsTarget r b)
      → ((erase_next now t s).0
          ≡ err (lookup_error "Owned Memory Item not found for approved erasure"))
        × ((erase_next now t s).1.erasures ≡ some e)
        × (Dict.get (erase_next now t s).1.stores t ≡ some store)
  unfolding after_store
  erase_next-refused gone =
      let same : left_by r store.items ≡ store.items = keep_all _ store.items (λ b m.
        elim (Bool-cases (erases r.owner_principal_id r.memory_id b)) [
          | inl hit ↦ absurd (gone b m ((erases_iff r b).0 hit))
          | inr miss ↦ rw miss
        ]) in
      let run = erase_next-erase_for ∙ erase_for-missing (rw same (ground arith)) in
      (
        ap (λ x. x.0) run,
        ap (λ x. x.1.erasures) run ∙ has_erasures,
        ap (λ x. Dict.get x.1.stores t) run ∙ rw (get-put_self, same),
      )

-- If requests are kept under their own ids, and the Tenant's next approved one names an item that its
-- store does not hold, the step raises a LookupError and leaves the requests, and the Tenant's store, as
-- they are; and the next step, at any time, raises again.
pub erase_next-blocked :
    {W : Type 0} (now : ℕ) (t : String) (s : World W) (store : TenantStore) (e : Erasures)
    (r : ErasureRequest)
    → Dict.get s.stores t ≡ some store
    → s.erasures ≡ some e
    → IsKeyed e
    → next_approved t e ≡ some r
    → ((b : MemoryItem) → b ∈ store.items → ¬ IsTarget r b)
    → ((erase_next now t s).0
        ≡ err (lookup_error "Owned Memory Item not found for approved erasure"))
      × ((erase_next now t s).1.erasures ≡ some e)
      × (Dict.get (erase_next now t s).1.stores t ≡ some store)
      × ((later : ℕ)
          → (erase_next later t (erase_next now t s).1).0
            ≡ err (lookup_error "Owned Memory Item not found for approved erasure"))
erase_next-blocked now t s store e r there has keyed next gone =
    let (raises, requests, items) =
      erase_next-refused now t s store e r there has keyed next gone in
    (
      raises,
      requests,
      items,
      λ later.
          (erase_next-refused later t (erase_next now t s).1 store e r items requests keyed next
            gone).0,
    )
