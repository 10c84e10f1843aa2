-- ===== src/Tests/Memory.antt =====
-- Runs of the Memory Module on a small world, and the instances of its theorems.
use text.Mathlib.TextEquality.{eq_iff}
use coengram.Prelude.{
  ℕ, String, string_eq, pair_eq, nat_eq, ◌≡◌, ◌≢◌, ◌↔◌, refl, inl, none, some, List, [], ◌∷◌, arith,
  keep, contains, without,
}
use coengram.Prelude.Text.{strip_chars, lstrip, rstrip}
use coengram.Prelude.Sort.{sort, insert}
use coengram.Prelude.Members.{◌∈◌}
use coengram.Dict
use coengram.Exec.{ok, err, lookup_error, for_each}
use coengram.Models.{TenantSession, user, private, tenant_knowledge, active, superseded, explicit}
use coengram.Models.Items.{MemoryItem, RecallQuery}
use coengram.Memory.{
  TenantStore, Erasures, ErasureRequest, ErasureStatus, ReviewErasure, ErasureDecision,
}
use coengram.Memory
use coengram.Memory.Terms.{pieces, split, elements, terms, score}
use coengram.Memory.Store as Store
use coengram.Memory.Erasure.{next_approved, get_request}
use coengram.Memory.Archive.{order_correction_history, visit_all, visit, put_all}
use coengram.Memory.Archive.Depth.{ids, order_correction_history-total}
use coengram.Memory.Archive.Order.{IsRooted, IsDistinct, order_correction_history-IsRooted}
use coengram.Memory.Recall.{IsAnswer, recall_lem}
use coengram.Memory.Module.{recall}
use coengram.Memory.Reviews.{erase_next}
use coengram.Memory.Erased.{
  IsKeyed, IsTarget, left_by, carried_out, returned, requests_after, after_erasure, erase_next_lem,
  erase_next-blocked,
}
use coengram.Memory.World.{World}
use coengram.Memory.Reachable.{Request, perform}
use coengram.Memory.Isolated.{perform-stores}
use coengram.Memory.Reviewers.{HasReviewers, perform-HasReviewers}

abbrev pub Nothing : Type 0
Nothing = Unit

abbrev pub tea : MemoryItem
tea = record {
  id = "m1";
  owner_principal_id = some "ana";
  scope = private;
  content = "Ana likes green tea.";
  kind = explicit;
  confidence = 1;
  provenance = record { actor_id = "ana"; source = "explicit" };
  created_at = 10;
  state = active;
  supersedes_id = none;
}

abbrev pub noon : MemoryItem
noon = record tea {
  id = "m2";
  owner_principal_id = none;
  scope = tenant_knowledge;
  content = "tea is served at noon";
}

abbrev pub store : TenantStore
store = record Store.init { items = tea ∷ noon ∷ [] }

abbrev pub erasure : ErasureRequest
erasure = record {
  id = "e1";
  tenant_id = "acme";
  memory_id = "m1";
  requester_id = "ana";
  owner_principal_id = "ana";
  reason = some "outdated";
  status = ErasureStatus.approved;
  created_at = 20;
  reviewed_by = some "bob";
  review_rationale = some "agreed";
  completed_at = none;
}

abbrev pub erasures : Erasures
erasures = record {
  requests = record { entries = ("e1", erasure) ∷ [] };
  request_keys = Dict.empty;
  review_keys = Dict.empty;
}

abbrev pub world : World Nothing
world = record {
  stores = record { entries = ("acme", store) ∷ ("globex", Store.init) ∷ [] };
  governance = none;
  erasures = some erasures;
  durable = tt;
}

abbrev pub session : TenantSession
session = record {
  tenant_id = "acme";
  actor_id = "ana";
  actor_kind = user;
  roles = "tenant_member" ∷ [];
  subject_user_id = none;
  delegation_id = none;
  token_id = none;
}

abbrev query : RecallQuery
query = record { query = "green tea!"; limit = 5 }

abbrev folded : String → String
folded s = s

finds-both : recall folded session query world ≡ (ok (record { items = tea ∷ noon ∷ [] }), world)
unfolding recall Memory.World.read_store Dict.get Dict.lookup Store.recall Store.ranked score terms
    split pieces elements strip_chars lstrip rstrip contains keep sort insert
finds-both = refl

has-store : Dict.get world.stores "acme" ≡ some store
unfolding Dict.get Dict.lookup
has-store = refl

recall_lem_example :
    (answer : List MemoryItem) × (recall folded session query world
      ≡ (ok (record { items = answer }), world))
    × IsAnswer folded session query store.items answer
recall_lem_example = recall_lem folded session query world store has-store

-- a correction in front of what it corrects
abbrev corrected : MemoryItem
corrected = record tea { id = "m3"; supersedes_id = some "m4" }

abbrev original : MemoryItem
original = record tea { id = "m4"; state = superseded }

orders-both :
    order_correction_history (corrected ∷ original ∷ []) ≡ some (ok (original ∷ corrected ∷ []))
unfolding order_correction_history visit_all visit put_all contains without Dict.get Dict.lookup
    Dict.put Dict.assign
orders-both = refl

order_correction_history-total_example : order_correction_history (corrected ∷ original ∷ []) ≢ none
order_correction_history-total_example = order_correction_history-total (corrected ∷ original ∷ [])

order_correction_history-IsRooted_example :
    IsRooted (corrected ∷ original ∷ []) [] (original ∷ corrected ∷ [])
    × ((a : MemoryItem) → a ∈ (original ∷ corrected ∷ []) → a ∈ (corrected ∷ original ∷ []))
    × ((a : MemoryItem) → a ∈ (corrected ∷ original ∷ []) → a.id ∈ ids (original ∷ corrected ∷ []))
    × IsDistinct (ids (original ∷ corrected ∷ []))
order_correction_history-IsRooted_example =
    order_correction_history-IsRooted (corrected ∷ original ∷ []) (original ∷ corrected ∷ [])
      orders-both

erasures-IsKeyed : IsKeyed erasures
unfolding Dict.get Dict.lookup
erasures-IsKeyed k r found = ground (arith, eq_iff "e1" k)

approved-next : next_approved "acme" erasures ≡ some erasure
unfolding next_approved Dict.values Dict.items Dict.distinct Dict.erase keep
approved-next = refl

abbrev erased : ErasureRequest
erased =
    carried_out 30 "acme" world store erasures erasure has-store refl erasures-IsKeyed approved-next

erase_next_lem_example :
    (erase_next 30 "acme" world ≡ (
      ok (
          some (
            returned 30 "acme" world store erasures erasure has-store refl erasures-IsKeyed
              approved-next)),
      after_erasure 30 "acme" world store erasures erasure has-store refl erasures-IsKeyed
          approved-next,
    ))
    × ((b : MemoryItem)
        → (b ∈ left_by erasure store.items) ↔ (b ∈ store.items) × ¬ IsTarget erasure b)
    × (get_request "acme" "e1" (
          requests_after 30 "acme" world store erasures erasure has-store refl erasures-IsKeyed
            approved-next)
        ≡ some erased)
erase_next_lem_example =
    erase_next_lem 30 "acme" world store erasures erasure has-store refl erasures-IsKeyed
      approved-next tea (inl refl) (refl, refl)

-- the same, but the store has lost the item
abbrev emptied : World Nothing
emptied = record world { stores = record { entries = ("acme", Store.init) ∷ [] } }

has-emptied : Dict.get emptied.stores "acme" ≡ some Store.init
unfolding Dict.get Dict.lookup
has-emptied = refl

erase_next-blocked_example :
    ((erase_next 30 "acme" emptied).0
      ≡ err (lookup_error "Owned Memory Item not found for approved erasure"))
    × ((erase_next 30 "acme" emptied).1.erasures ≡ some erasures)
    × (Dict.get (erase_next 30 "acme" emptied).1.stores "acme" ≡ some Store.init)
    × ((later : ℕ)
        → (erase_next later "acme" (erase_next 30 "acme" emptied).1).0
          ≡ err (lookup_error "Owned Memory Item not found for approved erasure"))
erase_next-blocked_example =
    erase_next-blocked 30 "acme" emptied Store.init erasures erasure has-emptied refl
      erasures-IsKeyed approved-next (λ b m. absurd m)

perform-stores_example :
    Dict.get (perform none none (Request.erase_next 30 "acme") world).1.stores "globex"
    ≡ Dict.get world.stores "globex"
perform-stores_example =
    perform-stores none none (Request.erase_next 30 "acme") "globex" world
      (λ same. ground (arith, eq_iff "acme" "globex"))

abbrev administrator : TenantSession
administrator = record session { actor_id = "bob"; roles = "tenant_administrator" ∷ [] }

abbrev approval : ReviewErasure
approval = record {
  request_id = "e1";
  decision = ErasureDecision.approve;
  rationale = "agreed";
  idempotency_key = "k1";
}

-- the world before the review
abbrev awaiting : World Nothing
awaiting = record world {
  erasures = some (record erasures {
    requests = record {
      entries =
          ("e1", record erasure { status = ErasureStatus.requested; reviewed_by = none }) ∷ [];
    };
  });
}

awaiting-HasReviewers : HasReviewers awaiting
unfolding Dict.get Dict.lookup
awaiting-HasReviewers e same = record {
  keyed = λ k r found. ground (arith, same, eq_iff "e1" k);
  separated = λ k r found s. absurd (ground (arith, same, eq_iff "e1" k));
}

perform-HasReviewers_example :
    HasReviewers
      (for_each (perform none none) (Request.review_erasure administrator approval ∷ []) awaiting).1
perform-HasReviewers_example =
    perform-HasReviewers none none (Request.review_erasure administrator approval ∷ []) awaiting
      awaiting-HasReviewers
