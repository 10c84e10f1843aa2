-- ===== src/Memory/Knowledge.antt =====
-- governance.py, `InMemoryGovernanceStore`: candidates for Tenant Knowledge, their review and the
-- outbox of their publication.
use coengram.Prelude.{
  ℕ, String, ◌==◌, string_eq, nat_eq, pair_eq, Bool, true, false, not, ◌&&◌, ◌||◌, Option, none,
  some, List, [], ◌∷◌, ◌++◌, keep, length, ltb, if◌then◌else◌,
}
use coengram.Prelude.Text.{str_leb, found_id}
use coengram.Prelude.Sort.{sort}
use coengram.Dict
use coengram.Exec.{ok, err, Exec, value_error, lookup_error, gets, present, ◌>>=◌}
use coengram.Models.Items.{Confidence}
use coengram.Memory.{
  Key, Governance, KnowledgeCandidate, KnowledgeCandidateView, PublicationEvent, CandidateStatus,
  submitted, publishing, published, ProposeKnowledge, ReviewKnowledge, ReviewDecision,
}
use coengram.Memory.Erasure.{first}

-- `__init__`
abbrev pub init : Governance
init = record {
  candidates = Dict.empty;
  proposal_keys = Dict.empty;
  review_keys = Dict.empty;
  outbox = [];
}

abbrev pub is_submitted : CandidateStatus → Bool
is_submitted submitted = true
is_submitted _ = false

abbrev pub is_publishing : CandidateStatus → Bool
is_publishing publishing = true
is_publishing _ = false

abbrev pub put_candidate : KnowledgeCandidate → Governance → Governance
put_candidate c s = record s { candidates = Dict.put s.candidates c.id c }

-- `return self._candidates[candidate_id]`
abbrev pub existing : String → Exec Governance KnowledgeCandidate
existing id = do found ← gets (λ s. Dict.get s.candidates id); present found (lookup_error id)

abbrev pub proposed : String → ℕ → String → String → ProposeKnowledge → KnowledgeCandidate
proposed fresh_id now tenant_id proposer_id command = record {
  id = fresh_id;
  tenant_id = tenant_id;
  claim = command.claim;
  confidence = command.confidence;
  proposer_id = proposer_id;
  source_memory_ids = command.source_memory_ids;
  duplicate_memory_ids = command.duplicate_memory_ids;
  conflicting_memory_ids = command.conflicting_memory_ids;
  status = submitted;
  created_at = now;
  reviewed_by = none;
  review_rationale = none;
}

unfoldable pub propose :
    String → ℕ → String → String → ProposeKnowledge → Exec Governance KnowledgeCandidate
propose fresh_id now tenant_id proposer_id command s =
    let key : Key = ((tenant_id, proposer_id), command.idempotency_key) in
    elim (found_id (Dict.get s.proposal_keys key)) [
      | some id ↦ existing id s
      | none ↦
          let c = proposed fresh_id now tenant_id proposer_id command in
          (ok c, record (put_candidate c s) { proposal_keys = Dict.put s.proposal_keys key c.id })
    ]

-- a candidate of another Tenant is not seen
abbrev pub of_tenant : String → Option KnowledgeCandidate → Option KnowledgeCandidate
of_tenant tenant_id none = none
of_tenant tenant_id (some c) = if c.tenant_id == tenant_id then some c else none

unfoldable pub get_candidate : String → String → Governance → Option KnowledgeCandidate
get_candidate tenant_id id s = of_tenant tenant_id (Dict.get s.candidates id)

-- the order of `(created_at, id)`
abbrev pub candidate_leb : KnowledgeCandidate → KnowledgeCandidate → Bool
candidate_leb a b =
    ltb a.created_at b.created_at || a.created_at == b.created_at && str_leb a.id b.id

unfoldable pub list_candidates : String → Governance → List KnowledgeCandidate
list_candidates tenant_id s =
    sort candidate_leb (keep (λ c. c.tenant_id == tenant_id) (Dict.values s.candidates))

abbrev pub decided : ReviewDecision → CandidateStatus
decided ReviewDecision.approve = publishing
decided ReviewDecision.reject = CandidateStatus.rejected

abbrev pub reviewed : String → ReviewKnowledge → KnowledgeCandidate → KnowledgeCandidate
reviewed reviewer_id command c = record c {
  status = decided command.decision;
  reviewed_by = some reviewer_id;
  review_rationale = some command.rationale;
}

-- the event that an approval puts into the outbox
abbrev pub event_for : String → ℕ → String → KnowledgeCandidate → PublicationEvent
event_for fresh_id now tenant_id c = record {
  id = fresh_id;
  tenant_id = tenant_id;
  candidate_id = c.id;
  created_at = now;
}

-- the rest of `review`, for a candidate that is there
abbrev pub record_review :
    String
    → ℕ
    → String
    → String
    → ReviewKnowledge
    → KnowledgeCandidate
    → Exec Governance KnowledgeCandidate
record_review fresh_id now tenant_id reviewer_id command c s =
    let key : Key = ((tenant_id, reviewer_id), command.idempotency_key) in
    let c' = reviewed reviewer_id command c in
    (
      ok c',
      record (put_candidate c' s) {
        review_keys = Dict.put s.review_keys key c.id;
        outbox =
            if is_publishing c'.status
            then s.outbox ++ event_for fresh_id now tenant_id c ∷ []
            else s.outbox;
      },
    )

unfoldable pub review :
    String → ℕ → String → String → ReviewKnowledge → Exec Governance KnowledgeCandidate
unfolding get_candidate
review fresh_id now tenant_id reviewer_id command s =
    let key : Key = ((tenant_id, reviewer_id), command.idempotency_key) in
    elim (found_id (Dict.get s.review_keys key)) [
      | some id ↦ existing id s
      | none ↦ elim (get_candidate tenant_id command.candidate_id s) [
        | none ↦ (err (lookup_error "Knowledge Candidate not found"), s)
        | some c ↦
            if not (is_submitted c.status)
            then (err (value_error "Knowledge Candidate is not awaiting review"), s)
            else record_review fresh_id now tenant_id reviewer_id command c s
      ]
    ]

unfoldable pub next_publication : String → Governance → Option PublicationEvent
next_publication tenant_id s = first (keep (λ e. e.tenant_id == tenant_id) s.outbox)

abbrev pub as_published : KnowledgeCandidate → KnowledgeCandidate
as_published c = record c { status = published }

unfoldable pub mark_published : String → String → Exec Governance KnowledgeCandidate
unfolding get_candidate
mark_published tenant_id id s = elim (get_candidate tenant_id id s) [
  | none ↦ (err (lookup_error "Knowledge Candidate not found"), s)
  | some c ↦ (
    ok (as_published c),
    record s {
      candidates = Dict.put s.candidates id (as_published c);
      outbox = keep (λ e. not (e.candidate_id == id)) s.outbox;
    },
  )
]

-- the candidate that an imported item becomes
abbrev pub imported : ℕ → String → String → String → String → Confidence → KnowledgeCandidate
imported now tenant_id proposer_id id claim confidence = record {
  id = id;
  tenant_id = tenant_id;
  claim = claim;
  confidence = confidence;
  proposer_id = proposer_id;
  source_memory_ids = [];
  duplicate_memory_ids = [];
  conflicting_memory_ids = [];
  status = submitted;
  created_at = now;
  reviewed_by = none;
  review_rationale = none;
}

unfoldable pub import_candidate :
    ℕ → String → String → String → String → Confidence → Exec Governance KnowledgeCandidate
unfolding get_candidate
import_candidate now tenant_id proposer_id id claim confidence s =
    elim (get_candidate tenant_id id s) [
      | some c ↦ (ok c, s)
      | none ↦
          let c = imported now tenant_id proposer_id id claim confidence in
          (ok c, put_candidate c s)
    ]

abbrev pub candidate_view : KnowledgeCandidate → KnowledgeCandidateView
candidate_view c = record {
  id = c.id;
  claim = c.claim;
  confidence = c.confidence;
  proposer_id = c.proposer_id;
  source_count = length c.source_memory_ids;
  duplicate_memory_ids = c.duplicate_memory_ids;
  conflicting_memory_ids = c.conflicting_memory_ids;
  status = c.status;
  created_at = c.created_at;
  reviewed_by = c.reviewed_by;
  review_rationale = c.review_rationale;
}
