-- ===== src/Memory/Reachable/Reviews.antt =====
-- memory.py: proposals, reviews and the steps after them keep what their writes keep.
use coengram.Prelude.{
  ℕ, String, ◌==◌, string_eq, nat_eq, Bool, not, ◌&&◌, ◌||◌, Option, none, some, map, same_set,
}
use Prim.Native.String.{◌++◌ as append_text}
use coengram.Exec.{pure}
use coengram.Exec.Keeps.{Keeps, Keeps-pure, Keeps-present, Keeps-raise_if, Keeps-bind}
use coengram.Models.{TenantSession}
use coengram.Models.Items.{MemoryItem}
use coengram.Memory.{
  ProposeKnowledge, ReviewKnowledge, RequestErasure, ReviewErasure, PublicationEvent,
  ErasureRequest, KnowledgeCandidate, KnowledgeCandidateView, ErasureRequestView,
}
use coengram.Memory.Store as Store
use coengram.Memory.Erasure as Erasure
use coengram.Memory.Knowledge as Knowledge
use coengram.Memory.Module.{owner_of}
use coengram.Memory.Reviews as Reviews
use coengram.Memory.Reviews.{may_review, is_human_administrator, approves_self}
use coengram.Memory.World.{World, on_store, on_governance, on_erasures}
use coengram.Memory.World.Keeps.{Keeps-read_store, Keeps-read_governance, Keeps-read_erasures}

module _ {W : Type 0} (P : World W → Type 0) where
  pub find_candidate-Keeps : (t id : String) → Keeps P (Reviews.find_candidate t id)
  unfolding Reviews.find_candidate
  find_candidate-Keeps t id =
      Keeps-bind _ _ (Keeps-read_governance _) (λ found. Keeps-present found _)

  pub require_reviewer-Keeps :
      (self_approval : Option (String → String → Bool)) (session : TenantSession)
      (c : ReviewKnowledge)
      → Keeps P (Reviews.require_reviewer self_approval session c)
  unfolding Reviews.require_reviewer
  require_reviewer-Keeps self_approval session c = Keeps-bind _ _ (Keeps-read_governance _) (λ _.
      Keeps-bind _ _ (Keeps-raise_if (not (may_review session)) _) (λ _.
        Keeps-bind _ _ (find_candidate-Keeps session.tenant_id c.candidate_id) (λ k.
          Keeps-raise_if
            (k.proposer_id == session.actor_id && not (approves_self self_approval session)) _)))

  pub require_separate-Keeps :
      (session : TenantSession) (c : ReviewErasure) → Keeps P (Reviews.require_separate session c)
  unfolding Reviews.require_separate
  require_separate-Keeps session c = Keeps-bind _ _ (Keeps-read_erasures _) (λ _.
      Keeps-bind _ _ (Keeps-raise_if (not (is_human_administrator session)) _) (λ _.
        Keeps-bind _ _ (Keeps-read_erasures _) (λ found.
          Keeps-bind _ _ (Keeps-present found _) (λ r.
            Keeps-raise_if
              (r.requester_id == session.actor_id || r.owner_principal_id == session.actor_id) _))))

  module _ (i : String) (n : ℕ) (session : TenantSession) where
    pub propose_knowledge-Keeps :
        (c : ProposeKnowledge)
        → Keeps P (on_governance (Knowledge.propose i n session.tenant_id session.actor_id c))
        → Keeps P (Reviews.propose_knowledge i n session c)
    unfolding Reviews.propose_knowledge
    propose_knowledge-Keeps c k = Keeps-bind _ _ (Keeps-read_governance _) (λ _.
        Keeps-bind _ _ (Keeps-read_store session.tenant_id _) (λ sources.
          Keeps-bind _ _
            (Keeps-raise_if
              (not (same_set (map (λ (item : MemoryItem). item.id) sources) c.source_memory_ids)) _)
            (λ _. Keeps-bind _ _ k (λ done. Keeps-pure _))))

    pub review_knowledge-Keeps :
        (self_approval : Option (String → String → Bool)) (c : ReviewKnowledge)
        → Keeps P (on_governance (Knowledge.review i n session.tenant_id session.actor_id c))
        → Keeps P (Reviews.review_knowledge self_approval i n session c)
    unfolding Reviews.review_knowledge
    review_knowledge-Keeps self_approval c k =
        Keeps-bind _ _ (require_reviewer-Keeps self_approval session c)
          (λ _. Keeps-bind _ _ k (λ done. Keeps-pure _))

    pub request_erasure-Keeps :
        (c : RequestErasure)
        → Keeps P (
            on_erasures
              (Erasure.request i n session.tenant_id session.actor_id (owner_of session) c))
        → Keeps P (Reviews.request_erasure i n session c)
    unfolding Reviews.request_erasure
    request_erasure-Keeps c k = Keeps-bind _ _ (Keeps-read_erasures _) (λ _.
        Keeps-bind _ _ (Keeps-read_store session.tenant_id _) (λ visible.
          Keeps-bind _ _ (Keeps-present (Erasure.first visible) _)
            (λ _. Keeps-bind _ _ k (λ done. Keeps-pure _))))

  pub review_erasure-Keeps :
      (session : TenantSession) (c : ReviewErasure)
      → Keeps P (on_erasures (Erasure.review session.tenant_id session.actor_id c))
      → Keeps P (Reviews.review_erasure session c)
  unfolding Reviews.review_erasure
  review_erasure-Keeps session c k =
      Keeps-bind _ _ (require_separate-Keeps session c)
        (λ _. Keeps-bind _ _ k (λ done. Keeps-pure _))

  pub review_operator_knowledge-Keeps :
      (i : String) (n : ℕ) (t operator_id : String) (c : ReviewKnowledge)
      → Keeps P (on_governance (Knowledge.review i n t (append_text "operator:" operator_id) c))
      → Keeps P (Reviews.review_operator_knowledge i n t operator_id c)
  unfolding Reviews.review_operator_knowledge
  review_operator_knowledge-Keeps i n t operator_id c k =
      Keeps-bind _ _ (find_candidate-Keeps t c.candidate_id)
        (λ _. Keeps-bind _ _ k (λ done. Keeps-pure _))

  publish_found-Keeps :
      (i : String) (n : ℕ) (t : String) (found : Option PublicationEvent)
      → ((c : KnowledgeCandidate)
          → Keeps P (
              on_store t
                (Store.publish_tenant_knowledge i n c.id c.claim c.confidence c.proposer_id)))
      → ((id : String) → Keeps P (on_governance (Knowledge.mark_published t id)))
      → Keeps {A = Option KnowledgeCandidateView} P
          (elim found [ none ↦ pure none | some e ↦ Reviews.publish_event i n t e ])
  unfolding Reviews.publish_event
  publish_found-Keeps i n t none store mark = Keeps-pure none
  publish_found-Keeps i n t (some e) store mark =
      Keeps-bind _ _ (find_candidate-Keeps t e.candidate_id)
        (λ c. Keeps-bind _ _ (store c) (λ _. Keeps-bind _ _ (mark c.id) (λ done. Keeps-pure _)))

  pub publish_next-Keeps :
      (i : String) (n : ℕ) (t : String)
      → ((c : KnowledgeCandidate)
          → Keeps P (
              on_store t
                (Store.publish_tenant_knowledge i n c.id c.claim c.confidence c.proposer_id)))
      → ((id : String) → Keeps P (on_governance (Knowledge.mark_published t id)))
      → Keeps P (Reviews.publish_next i n t)
  unfolding Reviews.publish_next
  publish_next-Keeps i n t store mark =
      Keeps-bind _ _ (Keeps-read_governance _) (λ found. publish_found-Keeps i n t found store mark)

  erase_found-Keeps :
      (n : ℕ) (t : String) (found : Option ErasureRequest)
      → ((r : ErasureRequest)
          → Keeps P (on_store t (Store.erase_private r.owner_principal_id r.memory_id)))
      → ((id : String) → Keeps P (on_erasures (Erasure.mark_completed n t id)))
      → Keeps {A = Option ErasureRequestView} P
          (elim found [ none ↦ pure none | some r ↦ Reviews.erase_for n t r ])
  unfolding Reviews.erase_for
  erase_found-Keeps n t none store mark = Keeps-pure none
  erase_found-Keeps n t (some r) store mark = Keeps-bind _ _ (store r) (λ erased.
      Keeps-bind _ _ (Keeps-raise_if (not erased) _)
        (λ _. Keeps-bind _ _ (mark r.id) (λ done. Keeps-pure _)))

  pub erase_next-Keeps :
      (n : ℕ) (t : String)
      → ((r : ErasureRequest)
          → Keeps P (on_store t (Store.erase_private r.owner_principal_id r.memory_id)))
      → ((id : String) → Keeps P (on_erasures (Erasure.mark_completed n t id)))
      → Keeps P (Reviews.erase_next n t)
  unfolding Reviews.erase_next
  erase_next-Keeps n t store mark =
      Keeps-bind _ _ (Keeps-read_erasures _) (λ found. erase_found-Keeps n t found store mark)
