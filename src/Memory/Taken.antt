-- ===== src/Memory/Taken.antt =====
-- governance.py and memory.py: an import takes over a candidate of another Tenant.
use text.Mathlib.TextEquality.{eq_iff}
use coengram.Prelude.{ℕ, String, string_eq, ◌≡◌, ◌≢◌, none, some, [], arith, inl, inr, Option-cases}
use coengram.Dict
use coengram.Dict.Laws.{get-put_self}
use coengram.Exec.{err, lookup_error}
use coengram.Models.Items.{Confidence}
use coengram.Memory.{Governance, KnowledgeCandidate, submitted, PublicationEvent}
use coengram.Memory.Knowledge.{
  import_candidate, get_candidate, next_publication, imported, put_candidate,
}
use coengram.Memory.Reviews.{publish_next, publish_event, find_candidate}
use coengram.Memory.World.{World}
use coengram.Memory.World.Laws.{read_governance_lem}

module _ (g : Governance) (n : ℕ) (mine theirs proposer claim : String) (confidence : Confidence)
    (e : PublicationEvent) (c : KnowledgeCandidate) (apart : mine ≢ theirs)
    (held : get_candidate theirs e.candidate_id g ≡ some c)
    (next : next_publication theirs g ≡ some e) where
  -- what the import leaves
  abbrev pub after_import : Governance
  after_import = (import_candidate n mine proposer e.candidate_id claim confidence g).1

  -- the candidate as it is then
  abbrev pub taken_over : KnowledgeCandidate
  taken_over = record {
    id = e.candidate_id;
    tenant_id = mine;
    claim = claim;
    confidence = confidence;
    proposer_id = proposer;
    source_memory_ids = [];
    duplicate_memory_ids = [];
    conflicting_memory_ids = [];
    status = submitted;
    created_at = n;
    reviewed_by = none;
    review_rationale = none;
  }

  not_mine : get_candidate mine e.candidate_id g ≡ none
  unfolding get_candidate
  not_mine = elim (Option-cases (Dict.get g.candidates e.candidate_id)) [
    | inl missing ↦ rw missing
    | inr (d, found) ↦
        rw found (ground (arith, held, found, eq_iff d.tenant_id mine, eq_iff d.tenant_id theirs))
  ]

  after_import_lem :
      after_import ≡ put_candidate (imported n mine proposer e.candidate_id claim confidence) g
  unfolding import_candidate
  after_import_lem = ground (arith, not_mine)

  lost : get_candidate theirs e.candidate_id after_import ≡ none
  unfolding get_candidate
  lost = rw (after_import_lem, get-put_self) (ground (arith, eq_iff mine theirs))

  gained : get_candidate mine e.candidate_id after_import ≡ some taken_over
  unfolding get_candidate
  gained = rw (after_import_lem, get-put_self) (ground (arith, eq_iff mine mine))

  still : next_publication theirs after_import ≡ some e
  unfolding next_publication
  still = rw after_import_lem next

  -- If the next event of a Tenant's outbox is for a candidate that the Tenant has, and another Tenant
  -- imports a candidate under that identifier, the other Tenant then has the candidate, as its own
  -- submission, and the first does not find it any more; the event stays the next one of its outbox, so
  -- that the step to publish for it raises a LookupError and changes nothing.
  pub publish_next-import_candidate :
      {W : Type 0} (s : World W) (i : String) (m : ℕ)
      → s.governance ≡ some after_import
      → (get_candidate mine e.candidate_id after_import ≡ some taken_over)
        × (get_candidate theirs e.candidate_id after_import ≡ none)
        × (next_publication theirs after_import ≡ some e)
        × (publish_next i m theirs s ≡ (err (lookup_error "Knowledge Candidate not found"), s))
  unfolding publish_next publish_event find_candidate
  publish_next-import_candidate s i m has = (
    gained,
    lost,
    still,
    rw (
      read_governance_lem s after_import has (next_publication theirs),
      still,
      read_governance_lem s after_import has (get_candidate theirs e.candidate_id),
      lost,
    ),
  )
