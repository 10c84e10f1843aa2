-- ===== src/Memory/Separated.antt =====
-- lifecycle.py and memory.py: an erasure is approved by someone who neither asked for it nor owns the
-- memory.
use coengram.Prelude.{
  ℕ, String, string_eq, pair_eq, ◌≡◌, ◌≢◌, refl, sym, subst, inl, inr, some, arith, Bool-cases,
  Option-cases,
}
use coengram.Prelude.Text.{found_id}
use coengram.Dict
use coengram.Dict.Laws.{get-put_cases}
use coengram.Memory.{
  Erasures, ErasureRequest, ErasureStatus, RequestErasure, ReviewErasure, ErasureTombstone,
}
use coengram.Memory
use coengram.Memory.Erasure.{
  request, review, mark_completed, import_tombstone, put_request, new_request, reviewed,
  as_completed, request_of_tombstone, get_request, existing, is_requested,
}

-- an approved request has a reviewer who is neither its requester nor the owner of the memory
abbrev pub IsSeparated : ErasureRequest → Type 0
IsSeparated r =
    r.status ≡ ErasureStatus.approved
    → (u : String) × (r.reviewed_by ≡ some u) × (u ≢ r.requester_id) × (u ≢ r.owner_principal_id)

-- Every request is kept under its own id, and is approved only by someone else.
pub record IsSound (e : Erasures) : Type 0 where
  pub keyed : (k : String) (r : ErasureRequest) → Dict.get e.requests k ≡ some r → r.id ≡ k
  pub separated : (k : String) (r : ErasureRequest) → Dict.get e.requests k ≡ some r → IsSeparated r

put_request-IsSound :
    (e : Erasures) (r : ErasureRequest) → IsSound e → IsSeparated r → IsSound (put_request r e)
put_request-IsSound e r h new = record {
  keyed = λ k q found. elim (get-put_cases e.requests r.id k r q found) [
    | inl (same, is) ↦ subst (λ x. x.id ≡ k) is same
    | inr old ↦ h.keyed k q old
  ];
  separated = λ k q found. elim (get-put_cases e.requests r.id k r q found) [
    | inl (same, is) ↦ subst IsSeparated is new
    | inr old ↦ h.separated k q old
  ];
}

-- the keys of requests play no part
keys-IsSound :
    (e : Erasures) {a b : Dict.Dict Memory.Key String}
    → IsSound e
    → IsSound (record e { request_keys = a; review_keys = b })
keys-IsSound e h = record { keyed = h.keyed; separated = h.separated }

existing_same : (id : String) (e : Erasures) → (existing id e).1 ≡ e
existing_same id e = ground arith

pub request-IsSound :
    (i : String) (n : ℕ) (t requester owner : String) (c : RequestErasure) (e : Erasures)
    → IsSound e
    → IsSound (request i n t requester owner c e).1
unfolding request
request-IsSound i n t requester owner c e h =
    elim (Option-cases (found_id (Dict.get e.request_keys ((t, requester), c.idempotency_key)))) [
      | inl new ↦
          rw (new, request)
            (keys-IsSound _
              (put_request-IsSound e (new_request i n t requester owner c) h (λ s. absurd (cc))))
      | inr (id, there) ↦ rw (there, request) (subst IsSound (sym (existing_same id e)) h)
    ]

-- A review keeps it where the reviewer is neither the requester nor the owner.
pub review-IsSound :
    (t reviewer : String) (c : ReviewErasure) (e : Erasures)
    → IsSound e
    → ((r : ErasureRequest)
        → get_request t c.request_id e ≡ some r
        → (reviewer ≢ r.requester_id) × (reviewer ≢ r.owner_principal_id))
    → IsSound (review t reviewer c e).1
unfolding review
review-IsSound t reviewer c e h apart =
    elim (Option-cases (found_id (Dict.get e.review_keys ((t, reviewer), c.idempotency_key)))) [
      | inr (id, there) ↦ rw (there, review) (subst IsSound (sym (existing_same id e)) h)
      | inl new ↦ elim (Option-cases (get_request t c.request_id e)) [
        | inl missing ↦ rw (new, missing, review) h
        | inr (r, found) ↦ elim (Bool-cases (is_requested r.status)) [
          | inl waits ↦
              let (one, two) = apart r found in
              rw (new, found, waits, review)
                (keys-IsSound _ (
                  put_request-IsSound e (reviewed reviewer c r) h
                    (λ s. (reviewer, refl, one, two))))
          | inr other ↦ rw (new, found, other, review) h
        ]
      ]
    ]

pub mark_completed-IsSound :
    (n : ℕ) (t id : String) (e : Erasures) → IsSound e → IsSound (mark_completed n t id e).1
unfolding mark_completed
mark_completed-IsSound n t id e h = elim (Option-cases (get_request t id e)) [
  | inl missing ↦ rw (missing, mark_completed) h
  | inr (r, found) ↦
      rw (found, mark_completed) (put_request-IsSound e (as_completed n r) h (λ s. absurd (cc)))
]

pub import_tombstone-IsSound :
    (t owner : String) (b : ErasureTombstone) (e : Erasures)
    → IsSound e
    → IsSound (import_tombstone t owner b e).1
unfolding import_tombstone
import_tombstone-IsSound t owner b e h = elim (Option-cases (Dict.get e.requests b.id)) [
  | inl missing ↦
      rw (missing, import_tombstone)
        (put_request-IsSound e (request_of_tombstone t owner b) h (λ s. absurd (cc)))
  | inr (r, found) ↦ rw (found, import_tombstone) h
]
