-- ===== src/Memory/Recall.antt =====
-- memory.py and stores/memory.py: what a recall returns.
use text.Mathlib.TextEquality.{eq_iff}
use coengram.Prelude.{
  ℕ, String, string_eq, ◌≤◌, ◌<◌, ◌≡◌, true, ◌⊎◌, inl, inr, Option, some, List, arith, length, keep,
  take, contains, ◌==◌, Bool-cases, Option-cases,
}
use coengram.Prelude.Members.{
  ◌∈◌, All, mem-keep, mem_of_keep, mem-sort, mem_of_sort, mem_of_take, length-take-le, IsDescending,
  sort-IsDescending, keep-IsDescending, take-IsDescending, take_cases,
}
use coengram.Dict
use coengram.Exec.{ok}
use coengram.Models.{TenantSession, agent, tenant_knowledge, active}
use coengram.Models.Items.{MemoryItem, RecallQuery, is_knowledge}
use coengram.Memory.{TenantStore}
use coengram.Memory.Store as Store
use coengram.Memory.Store.{recallable, score_of, ranked}
use coengram.Memory.Module.{recall, private_owners}
use coengram.Memory.World.{World}
use coengram.Memory.World.Laws.{read_store_lem}

-- An item that the session may see: a live one that all the Tenant shares, that is the actor's own, or
-- that is its Subject User's where the actor is an Agent.
abbrev pub IsVisible : TenantSession → MemoryItem → Type 0
IsVisible session item =
    (item.state ≡ active)
    × ((item.scope ≡ tenant_knowledge)
        ⊎ (item.owner_principal_id ≡ some session.actor_id)
        ⊎ (session.actor_kind ≡ agent)
          × ((u : String) × (session.subject_user_id ≡ some u)
              × (item.owner_principal_id ≡ some u)))

abbrev TheirOwn : TenantSession → Option String → Type 0
TheirOwn session owner =
    (owner ≡ some session.actor_id)
    ⊎ (session.actor_kind ≡ agent)
      × ((u : String) × (session.subject_user_id ≡ some u) × (owner ≡ some u))

owned_cases :
    (session : TenantSession) (o : String)
    → contains o (private_owners session) ≡ true
    → TheirOwn session (some o)
unfolding contains
owned_cases session o h = elim (Bool-cases (session.actor_id == o)) [
  | inl own ↦ inl (ground (arith, eq_iff session.actor_id o))
  | inr other ↦ elim (Option-cases session.subject_user_id) [
    | inl none_bound ↦ absurd (ground arith)
    | inr (u, bound) ↦ inr (ground arith, (u, bound, ground (arith, eq_iff u o)))
  ]
]

IsVisible-of_test :
    (session : TenantSession) (item : MemoryItem)
    → recallable (private_owners session) item ≡ true
    → IsVisible session item
IsVisible-of_test session item h =
    let alive : item.state ≡ active = ground arith in
    elim (Bool-cases (is_knowledge item.scope)) [
      | inl shared ↦ (alive, inl (ground arith))
      | inr other ↦ elim (Option-cases item.owner_principal_id) [
        | inl nobody ↦ absurd (ground arith)
        | inr (o, owner) ↦ (alive, inr (rw owner (owned_cases session o (ground arith))))
      ]
    ]

test_of_visible :
    (session : TenantSession) (item : MemoryItem)
    → IsVisible session item
    → recallable (private_owners session) item ≡ true
unfolding contains
test_of_visible session item (alive, inl shared) = ground arith
test_of_visible session item (alive, inr (inl own)) =
    ground (arith, eq_iff session.actor_id session.actor_id)
test_of_visible session item (alive, inr (inr (by_agent, (u, bound, theirs)))) =
    ground (arith, eq_iff u u)

module _ (casefold : String → String) (session : TenantSession) (query : RecallQuery) where
  abbrev pub relevance : MemoryItem → ℕ
  relevance = score_of casefold query.query

  -- What a recall over these items answers.
  pub record IsAnswer (items answer : List MemoryItem) : Type 0 where
    pub sound :
        (a : MemoryItem) → a ∈ answer → (a ∈ items) × IsVisible session a × (0 < relevance a)
    pub bounded : length answer ≤ query.limit
    pub descending : IsDescending relevance answer
    pub complete :
        (a : MemoryItem)
        → a ∈ items
        → IsVisible session a
        → 0 < relevance a
        → (a ∈ answer) ⊎ (length answer ≡ query.limit) × All (λ b. relevance a ≤ relevance b) answer

  ranked_items : List MemoryItem → List MemoryItem
  ranked_items items = ranked casefold (private_owners session) query.query items

  ranked-IsDescending : (items : List MemoryItem) → IsDescending relevance (ranked_items items)
  unfolding ranked ranked_items
  ranked-IsDescending items =
      keep-IsDescending relevance _ _ (sort-IsDescending relevance (keep _ items))

  mem_of_ranked :
      (a : MemoryItem) (items : List MemoryItem)
      → a ∈ ranked_items items
      → (a ∈ items) × IsVisible session a × (0 < relevance a)
  unfolding ranked ranked_items
  mem_of_ranked a items m =
      let (m1, positive) = mem_of_keep _ a _ m in
      let (m2, passed) = mem_of_keep _ a _ (mem_of_sort _ a _ m1) in
      (m2, IsVisible-of_test session a passed, ground arith)

  mem-ranked :
      (a : MemoryItem) (items : List MemoryItem)
      → a ∈ items
      → IsVisible session a
      → 0 < relevance a
      → a ∈ ranked_items items
  unfolding ranked ranked_items
  mem-ranked a items m v positive =
      mem-keep _ a _ (mem-sort _ a _ (mem-keep _ a _ m (test_of_visible session a v)))
        (ground arith)

  recall-IsAnswer :
      (items : List MemoryItem) → IsAnswer items (take query.limit (ranked_items items))
  recall-IsAnswer items = record {
    sound = λ a m. mem_of_ranked a items (mem_of_take query.limit a _ m);
    bounded = length-take-le query.limit (ranked_items items);
    descending = take-IsDescending relevance query.limit _ (ranked-IsDescending items);
    complete = λ a m v positive.
        take_cases relevance query.limit a _ (ranked-IsDescending items)
          (mem-ranked a items m v positive);
  }

  -- A recall for a session whose Tenant has a store changes nothing and returns items of that store: only
  -- ones that the session may see and that answer the query, at most as many as asked for, the
  -- best first; and an item that it leaves out, though visible and relevant, has no better score than any
  -- that it returns, which are then as many as asked for.
  pub recall_lem :
      {W : Type 0} (s : World W) (store : TenantStore)
      → Dict.get s.stores session.tenant_id ≡ some store
      → (answer : List MemoryItem) × (recall casefold session query s
          ≡ (ok (record { items = answer }), s))
        × IsAnswer store.items answer
  unfolding recall Store.recall ranked_items
  recall_lem s store found = (
    take query.limit (ranked_items store.items),
    rw (read_store_lem s session.tenant_id store found),
    recall-IsAnswer store.items,
  )
