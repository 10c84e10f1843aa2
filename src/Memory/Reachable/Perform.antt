-- ===== src/Memory/Reachable/Perform.antt =====
-- memory.py: a request keeps what each of its writes keeps.
use coengram.Prelude.{ℕ, String, Bool, Option}
use coengram.Exec.{Exec, pure, ◌>>◌}
use coengram.Exec.Keeps.{Keeps, Keeps-pure, Keeps-bind}
use coengram.Models.{TenantSession}
use coengram.Models.Items.{Confidence}
use coengram.Memory.{
  TenantStore, ProposeKnowledge, ReviewKnowledge, RequestErasure, ReviewErasure, ErasureTombstone,
}
use coengram.Memory.Erasure as Erasure
use coengram.Memory.Knowledge as Knowledge
use coengram.Memory.Module as Module
use coengram.Memory.Module.{owner_of}
use coengram.Memory.Reviews as Methods
use coengram.Memory.World.{World, Commands, on_store, on_governance, on_erasures, on_durable}
use coengram.Memory.Reachable.{Request, tenant_of, perform}
use coengram.Memory.Reachable.Keeps.{
  retain_for-Keeps, retain_agent_private-Keeps, correct-Keeps, import_private-Keeps,
}
use coengram.Memory.Reachable.Reviews.{
  propose_knowledge-Keeps, request_erasure-Keeps, publish_next-Keeps, erase_next-Keeps,
}
use coengram.Memory.Reachable.Imports.{import_tenant-Keeps}

module _ {W : Type 0} (self_approval : Option (String → String → Bool)) where
  -- The writes to the shared stores, and the reviews with their checks, keep `P`.
  pub record Kept (P : World W → Type 0) : Type 1 where
    pub durable : (A : Type 0) (m : Exec W A) → Keeps P (on_durable m)
    pub propose :
        (i : String) (n : ℕ) (t proposer : String) (c : ProposeKnowledge)
        → Keeps P (on_governance (Knowledge.propose i n t proposer c))
    pub review_knowledge :
        (i : String) (n : ℕ) (session : TenantSession) (c : ReviewKnowledge)
        → Keeps P (Methods.review_knowledge self_approval i n session c)
    pub review_operator_knowledge :
        (i : String) (n : ℕ) (t operator_id : String) (c : ReviewKnowledge)
        → Keeps P (Methods.review_operator_knowledge i n t operator_id c)
    pub mark_published : (t id : String) → Keeps P (on_governance (Knowledge.mark_published t id))
    pub import_candidate :
        (n : ℕ) (t proposer id claim : String) (confidence : Confidence)
        → Keeps P (on_governance (Knowledge.import_candidate n t proposer id claim confidence))
    pub request :
        (i : String) (n : ℕ) (t requester owner : String) (c : RequestErasure)
        → Keeps P (on_erasures (Erasure.request i n t requester owner c))
    pub review_erasure :
        (session : TenantSession) (c : ReviewErasure) → Keeps P (Methods.review_erasure session c)
    pub mark_completed :
        (n : ℕ) (t id : String) → Keeps P (on_erasures (Erasure.mark_completed n t id))
    pub import_tombstone :
        (t owner : String) (b : ErasureTombstone)
        → Keeps P (on_erasures (Erasure.import_tombstone t owner b))

module _ {W : Type 0} (commands : Option (Commands W))
    (self_approval : Option (String → String → Bool)) (P : World W → Type 0)
    (k : Kept self_approval P) where
  ended : {A : Type 0} (m : Exec (World W) A) → Keeps P m → Keeps P (m >> pure tt)
  ended m km = Keeps-bind m (λ a. pure tt) km (λ a. Keeps-pure tt)

  pub perform-Keeps :
      (r : Request)
      → ((A : Type 0) (m : Exec TenantStore A) → Keeps P (on_store (tenant_of r) m))
      → Keeps P (perform commands self_approval r)
  unfolding perform Module.retain
  perform-Keeps (Request.retain i n session c) store =
      ended _ (retain_for-Keeps P session store k.durable commands i n (owner_of session) c)
  perform-Keeps (Request.retain_agent_private i n session c) store =
      ended _ (retain_agent_private-Keeps P session store k.durable commands i n c)
  perform-Keeps (Request.correct i n session c) store =
      ended _ (correct-Keeps P session store k.durable commands i n c)
  perform-Keeps (Request.propose_knowledge i n session c) store =
      ended _ (
        propose_knowledge-Keeps P i n session c
          (k.propose i n session.tenant_id session.actor_id c))
  perform-Keeps (Request.review_knowledge i n session c) store =
      ended _ (k.review_knowledge i n session c)
  perform-Keeps (Request.review_operator_knowledge i n t operator_id c) store =
      ended _ (k.review_operator_knowledge i n t operator_id c)
  perform-Keeps (Request.publish_next i n t) store =
      ended _ (publish_next-Keeps P i n t (λ c. store _ _) (k.mark_published t))
  perform-Keeps (Request.request_erasure i n session c) store = ended _ (
      request_erasure-Keeps P i n session c
        (k.request i n session.tenant_id session.actor_id (owner_of session) c))
  perform-Keeps (Request.review_erasure session c) store = ended _ (k.review_erasure session c)
  perform-Keeps (Request.erase_next n t) store =
      ended _ (erase_next-Keeps P n t (λ r. store _ _) (k.mark_completed n t))
  perform-Keeps (Request.import_private session a) store = ended _ (
      import_private-Keeps P session store k.durable commands a
        (k.import_tombstone session.tenant_id session.actor_id))
  perform-Keeps (Request.import_tenant n session a) store = ended _ (
      import_tenant-Keeps P n session a (λ item.
        k.import_candidate n session.tenant_id session.actor_id item.id item.content
          item.confidence))
