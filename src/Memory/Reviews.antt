-- ===== src/Memory/Reviews.antt =====
-- memory.py, `MemoryModule`: proposals and reviews of Tenant Knowledge and of erasures, and the
-- steps that carry out what was approved.
use Prim.Native.String.{◌++◌ as append_text}
use coengram.Prelude.{
  ℕ, String, ◌==◌, string_eq, Bool, not, ◌&&◌, ◌||◌, Option, none, some, List, [], ◌∷◌, map,
  contains, same_set, holds,
}
use coengram.Exec.{
  Exec, Nothing, permission_error, lookup_error, raise_if, present, pure, ◌>>=◌, ◌>>◌,
}
use coengram.Models.{TenantSession, Roles, is_user}
use coengram.Memory.{
  ErasureRequest, ErasureRequestView, RequestErasure, ReviewErasure, KnowledgeCandidate,
  KnowledgeCandidateView, ProposeKnowledge, ReviewKnowledge, PublicationEvent,
}
use coengram.Memory.Store as Store
use coengram.Memory.Erasure as Erasure
use coengram.Memory.Erasure.{erasure_view}
use coengram.Memory.Knowledge as Knowledge
use coengram.Memory.Knowledge.{candidate_view}
use coengram.Memory.Module.{owner_of, private_owners}
use coengram.Memory.World.{
  World, read_store, on_store, read_governance, on_governance, read_erasures, on_erasures,
  require_governance, require_erasures,
}

abbrev pub is_curator : Roles → Bool
is_curator roles = contains "knowledge_curator" roles || contains "tenant_administrator" roles

-- a human with the role of a curator
abbrev pub may_review : TenantSession → Bool
may_review session = is_user session.actor_kind && is_curator session.roles

abbrev pub is_human_administrator : TenantSession → Bool
is_human_administrator session =
    is_user session.actor_kind && contains "tenant_administrator" session.roles

-- whether the proposer may review, by the policy that the module is given
abbrev pub approves_self : Option (String → String → Bool) → TenantSession → Bool
approves_self self_approval session =
    contains "tenant_administrator" session.roles
    && holds (λ permits. permits session.tenant_id session.actor_id) self_approval

module _ {W : Type 0} where
  unfoldable pub propose_knowledge :
      String → ℕ → TenantSession → ProposeKnowledge → Exec (World W) KnowledgeCandidateView
  propose_knowledge fresh_id now session command = do
    require_governance
    sources ←
        read_store session.tenant_id
          (Store.get_visible_private_items (private_owners session) command.source_memory_ids)
    raise_if (not (same_set (map (λ item. item.id) sources) command.source_memory_ids))
        (permission_error "One or more source Memory Items are not visible")
    c ← on_governance (Knowledge.propose fresh_id now session.tenant_id session.actor_id command)
    pure (candidate_view c)

  -- the candidate that a review names
  unfoldable pub find_candidate : String → String → Exec (World W) KnowledgeCandidate
  find_candidate tenant_id id = do
    found ← read_governance (Knowledge.get_candidate tenant_id id)
    present found (lookup_error "Knowledge Candidate not found")

  -- what `review_knowledge` checks before the review
  unfoldable pub require_reviewer :
      Option (String → String → Bool) → TenantSession → ReviewKnowledge → Exec (World W) Nothing
  unfolding find_candidate
  require_reviewer self_approval session command = do
    require_governance
    raise_if (not (may_review session))
        (permission_error "Knowledge review requires a human Knowledge Curator")
    c ← find_candidate session.tenant_id command.candidate_id
    raise_if (c.proposer_id == session.actor_id && not (approves_self self_approval session))
        (permission_error "Self-approval requires a single-human Tenant Administrator")

  unfoldable pub review_knowledge :
      Option (String → String → Bool)
      → String
      → ℕ
      → TenantSession
      → ReviewKnowledge
      → Exec (World W) KnowledgeCandidateView
  unfolding require_reviewer
  review_knowledge self_approval fresh_id now session command = do
    require_reviewer self_approval session command
    c ← on_governance (Knowledge.review fresh_id now session.tenant_id session.actor_id command)
    pure (candidate_view c)

  unfoldable pub list_operator_knowledge_candidates :
      String → Exec (World W) (List KnowledgeCandidateView)
  list_operator_knowledge_candidates tenant_id = do
    candidates ← read_governance (Knowledge.list_candidates tenant_id)
    pure (map candidate_view candidates)

  unfoldable pub list_knowledge_candidates :
      TenantSession → Exec (World W) (List KnowledgeCandidateView)
  unfolding list_operator_knowledge_candidates
  list_knowledge_candidates session = do
    raise_if (not (may_review session))
        (permission_error "Candidate inspection requires a human Knowledge Curator")
    list_operator_knowledge_candidates session.tenant_id

  unfoldable pub review_operator_knowledge :
      String → ℕ → String → String → ReviewKnowledge → Exec (World W) KnowledgeCandidateView
  unfolding find_candidate
  review_operator_knowledge fresh_id now tenant_id operator_id command = do
    find_candidate tenant_id command.candidate_id
    c ←
        on_governance
          (Knowledge.review fresh_id now tenant_id (append_text "operator:" operator_id) command)
    pure (candidate_view c)

  -- what `publish_next` does for an event
  unfoldable pub publish_event :
      String → ℕ → String → PublicationEvent → Exec (World W) (Option KnowledgeCandidateView)
  unfolding find_candidate
  publish_event fresh_id now tenant_id event = do
    c ← find_candidate tenant_id event.candidate_id
    on_store tenant_id
        (Store.publish_tenant_knowledge fresh_id now c.id c.claim c.confidence c.proposer_id)
    done ← on_governance (Knowledge.mark_published tenant_id c.id)
    pure (some (candidate_view done))

  unfoldable pub publish_next : String → ℕ → String → Exec (World W) (Option KnowledgeCandidateView)
  unfolding publish_event
  publish_next fresh_id now tenant_id = do
    event ← read_governance (Knowledge.next_publication tenant_id)
    elim event [ none ↦ pure none | some e ↦ publish_event fresh_id now tenant_id e ]

  unfoldable pub request_erasure :
      String → ℕ → TenantSession → RequestErasure → Exec (World W) ErasureRequestView
  request_erasure fresh_id now session command = do
    require_erasures
    visible ←
        read_store session.tenant_id
          (Store.get_visible_private_items (owner_of session ∷ []) (command.memory_id ∷ []))
    present (Erasure.first visible) (lookup_error "Owned active Memory Item not found")
    r ←
        on_erasures (
          Erasure.request fresh_id now session.tenant_id session.actor_id (owner_of session)
            command)
    pure (erasure_view r)

  -- what `review_erasure` checks before the review
  unfoldable pub require_separate : TenantSession → ReviewErasure → Exec (World W) Nothing
  require_separate session command = do
    require_erasures
    raise_if (not (is_human_administrator session))
        (permission_error "Erasure review requires a human Tenant Administrator")
    found ← read_erasures (Erasure.get_request session.tenant_id command.request_id)
    r ← present found (lookup_error "Erasure Request not found")
    raise_if (r.requester_id == session.actor_id || r.owner_principal_id == session.actor_id)
        (permission_error "Erasure requires a separate Tenant Administrator")

  unfoldable pub review_erasure : TenantSession → ReviewErasure → Exec (World W) ErasureRequestView
  unfolding require_separate
  review_erasure session command = do
    require_separate session command
    r ← on_erasures (Erasure.review session.tenant_id session.actor_id command)
    pure (erasure_view r)

  -- what `erase_next` does for an approved request
  unfoldable pub erase_for :
      ℕ → String → ErasureRequest → Exec (World W) (Option ErasureRequestView)
  erase_for now tenant_id r = do
    erased ← on_store tenant_id (Store.erase_private r.owner_principal_id r.memory_id)
    raise_if (not erased) (lookup_error "Owned Memory Item not found for approved erasure")
    done ← on_erasures (Erasure.mark_completed now tenant_id r.id)
    pure (some (erasure_view done))

  unfoldable pub erase_next : ℕ → String → Exec (World W) (Option ErasureRequestView)
  unfolding erase_for
  erase_next now tenant_id = do
    next ← read_erasures (Erasure.next_approved tenant_id)
    elim next [ none ↦ pure none | some r ↦ erase_for now tenant_id r ]
