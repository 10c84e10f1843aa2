-- ===== src/Memory/Erasure.antt =====
-- lifecycle.py, `InMemoryErasureStore`: the requests to erase Private Memory.
use coengram.Prelude.{
  ℕ, String, ◌==◌, string_eq, nat_eq, pair_eq, Bool, true, false, not, ◌&&◌, ◌||◌, Option, none,
  some, List, [], ◌∷◌, keep, ltb, if◌then◌else◌,
}
use coengram.Prelude.Text.{str_leb, found_id}
use coengram.Prelude.Sort.{sort}
use coengram.Dict
use coengram.Dict.{Dict}
use coengram.Exec.{Result, ok, err, Exec, value_error, lookup_error, gets, present, ◌>>=◌}
use coengram.Memory.{
  Key, Erasures, ErasureRequest, ErasureRequestView, ErasureTombstone, ErasureStatus, requested,
  completed, ErasureDecision, RequestErasure, ReviewErasure,
}

-- `__init__`
abbrev pub init : Erasures
init = record { requests = Dict.empty; request_keys = Dict.empty; review_keys = Dict.empty }

abbrev pub is_requested : ErasureStatus → Bool
is_requested requested = true
is_requested _ = false

abbrev pub is_approved : ErasureStatus → Bool
is_approved ErasureStatus.approved = true
is_approved _ = false

abbrev pub is_completed : ErasureStatus → Bool
is_completed completed = true
is_completed _ = false

abbrev pub put_request : ErasureRequest → Erasures → Erasures
put_request r s = record s { requests = Dict.put s.requests r.id r }

-- `return self._requests[request_id]`
abbrev pub existing : String → Exec Erasures ErasureRequest
existing id = do found ← gets (λ s. Dict.get s.requests id); present found (lookup_error id)

abbrev pub new_request : String → ℕ → String → String → String → RequestErasure → ErasureRequest
new_request fresh_id now tenant_id requester_id owner command = record {
  id = fresh_id;
  tenant_id = tenant_id;
  memory_id = command.memory_id;
  requester_id = requester_id;
  owner_principal_id = owner;
  reason = some command.reason;
  status = requested;
  created_at = now;
  reviewed_by = none;
  review_rationale = none;
  completed_at = none;
}

unfoldable pub request :
    String → ℕ → String → String → String → RequestErasure → Exec Erasures ErasureRequest
request fresh_id now tenant_id requester_id owner command s =
    let key : Key = ((tenant_id, requester_id), command.idempotency_key) in
    elim (found_id (Dict.get s.request_keys key)) [
      | some id ↦ existing id s
      | none ↦
          let r = new_request fresh_id now tenant_id requester_id owner command in
          (ok r, record (put_request r s) { request_keys = Dict.put s.request_keys key r.id })
    ]

-- a request that belongs to another Tenant is not seen
abbrev pub of_tenant : String → Option ErasureRequest → Option ErasureRequest
of_tenant tenant_id none = none
of_tenant tenant_id (some r) = if r.tenant_id == tenant_id then some r else none

unfoldable pub get_request : String → String → Erasures → Option ErasureRequest
get_request tenant_id id s = of_tenant tenant_id (Dict.get s.requests id)

abbrev pub decided : ErasureDecision → ErasureStatus
decided ErasureDecision.approve = ErasureStatus.approved
decided ErasureDecision.reject = ErasureStatus.rejected

abbrev pub reviewed : String → ReviewErasure → ErasureRequest → ErasureRequest
reviewed reviewer_id command r = record r {
  status = decided command.decision;
  reviewed_by = some reviewer_id;
  review_rationale = some command.rationale;
}

-- the rest of `review`, for a request that is there
abbrev pub record_review :
    Key → String → ReviewErasure → ErasureRequest → Exec Erasures ErasureRequest
record_review key reviewer_id command r s =
    let r' = reviewed reviewer_id command r in
    (ok r', record (put_request r' s) { review_keys = Dict.put s.review_keys key r.id })

unfoldable pub review : String → String → ReviewErasure → Exec Erasures ErasureRequest
unfolding get_request
review tenant_id reviewer_id command s =
    let key : Key = ((tenant_id, reviewer_id), command.idempotency_key) in
    elim (found_id (Dict.get s.review_keys key)) [
      | some id ↦ existing id s
      | none ↦ elim (get_request tenant_id command.request_id s) [
        | none ↦ (err (lookup_error "Erasure Request not found"), s)
        | some r ↦
            if not (is_requested r.status)
            then (err (value_error "Erasure Request is not awaiting review"), s)
            else record_review key reviewer_id command r s
      ]
    ]

abbrev pub first {ℓ} : {A : Type ℓ} → List A → Option A
first [] = none
first (x ∷ xs) = some x

abbrev pub awaits_erasure : String → ErasureRequest → Bool
awaits_erasure tenant_id r = r.tenant_id == tenant_id && is_approved r.status

unfoldable pub next_approved : String → Erasures → Option ErasureRequest
next_approved tenant_id s = first (keep (awaits_erasure tenant_id) (Dict.values s.requests))

abbrev pub as_completed : ℕ → ErasureRequest → ErasureRequest
as_completed now r = record r {
  reason = none;
  status = completed;
  review_rationale = none;
  completed_at = some now;
}

unfoldable pub mark_completed : ℕ → String → String → Exec Erasures ErasureRequest
unfolding get_request
mark_completed now tenant_id id s = elim (get_request tenant_id id s) [
  | none ↦ (err (lookup_error "Erasure Request not found"), s)
  | some r ↦ (ok (as_completed now r), put_request (as_completed now r) s)
]

abbrev pub erasure_view : ErasureRequest → ErasureRequestView
erasure_view r = record {
  id = r.id;
  memory_id = r.memory_id;
  requester_id = r.requester_id;
  owner_principal_id = r.owner_principal_id;
  status = r.status;
  created_at = r.created_at;
  reviewed_by = r.reviewed_by;
  review_rationale = found_id r.review_rationale;
  completed_at = r.completed_at;
}

abbrev tombstone_of : ErasureRequest → Bool → Option String → Option ℕ → Result ErasureTombstone
tombstone_of r true (some reviewer) (some at) = ok (record {
  id = r.id;
  memory_id = r.memory_id;
  requester_id = r.requester_id;
  owner_principal_id = r.owner_principal_id;
  created_at = r.created_at;
  reviewed_by = reviewer;
  completed_at = at;
})
tombstone_of r _ _ _ = err (value_error "Erasure Request is not a completed approved erasure")

unfoldable pub erasure_tombstone : ErasureRequest → Result ErasureTombstone
erasure_tombstone r = tombstone_of r (is_completed r.status) r.reviewed_by r.completed_at

-- the order of `(created_at, id)`
abbrev pub request_leb : ErasureRequest → ErasureRequest → Bool
request_leb a b = ltb a.created_at b.created_at || a.created_at == b.created_at && str_leb a.id b.id

-- `tuple(erasure_tombstone(r) for r in rs)`, which the first refusal ends
unfoldable pub tombstones : List ErasureRequest → Result (List ErasureTombstone)
unfolding erasure_tombstone
tombstones [] = ok []
tombstones (r ∷ rs) = elim (erasure_tombstone r) [
  | err x ↦ err x
  | ok t ↦ elim (tombstones rs) [ err x ↦ err x | ok ts ↦ ok (t ∷ ts) ]
]

unfoldable pub list_completed : String → String → Erasures → Result (List ErasureTombstone)
unfolding tombstones
list_completed tenant_id owner s = tombstones (
    keep (λ r. r.tenant_id == tenant_id && r.owner_principal_id == owner && is_completed r.status)
      (sort request_leb (Dict.values s.requests)))

abbrev pub tombstone_beq : ErasureTombstone → ErasureTombstone → Bool
tombstone_beq a b =
    a.id == b.id
    && a.memory_id == b.memory_id
    && a.requester_id == b.requester_id
    && a.owner_principal_id == b.owner_principal_id
    && a.created_at == b.created_at
    && a.reviewed_by == b.reviewed_by
    && a.completed_at == b.completed_at

abbrev pub rebind : String → ErasureTombstone → ErasureTombstone
rebind owner t = record t { owner_principal_id = owner }

abbrev pub request_of_tombstone : String → String → ErasureTombstone → ErasureRequest
request_of_tombstone tenant_id owner t = record {
  id = t.id;
  tenant_id = tenant_id;
  memory_id = t.memory_id;
  requester_id = t.requester_id;
  owner_principal_id = owner;
  reason = none;
  status = completed;
  created_at = t.created_at;
  reviewed_by = some t.reviewed_by;
  review_rationale = none;
  completed_at = some t.completed_at;
}

-- the comparison of `import_tombstone` with a request that is there
unfoldable pub compare_tombstone : String → ErasureTombstone → ErasureRequest → Result Bool
compare_tombstone tenant_id rebound r =
    if not (r.tenant_id == tenant_id)
    then err (value_error "Erasure Tombstone identifier already has different data")
    else elim (erasure_tombstone r) [
      | err x ↦ err x
      | ok t ↦
          if tombstone_beq t rebound
          then ok false
          else err (value_error "Erasure Tombstone identifier already has different data")
    ]

unfoldable pub import_tombstone : String → String → ErasureTombstone → Exec Erasures Bool
unfolding compare_tombstone
import_tombstone tenant_id owner t s = elim (Dict.get s.requests t.id) [
  | some r ↦ (compare_tombstone tenant_id (rebind owner t) r, s)
  | none ↦ (ok true, put_request (request_of_tombstone tenant_id owner t) s)
]
