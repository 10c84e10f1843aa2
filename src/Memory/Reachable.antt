-- ===== src/Memory/Reachable.antt =====
-- memory.py: the methods of `MemoryModule` that change something, as one type of requests.
pub mod Keeps
pub mod Reviews
pub mod Imports
pub mod Perform
use coengram.Prelude.{ℕ, String, Bool, Option}
use coengram.Exec.{ok, Exec, Nothing, pure, ◌>>=◌, ◌>>◌}
use coengram.Models.{TenantSession}
use coengram.Models.Items.{RetainMemory}
use coengram.Memory.{
  CorrectMemory, RequestErasure, ReviewErasure, ProposeKnowledge, ReviewKnowledge,
}
use coengram.Memory.Archive.{DecodedArchive}
use coengram.Memory.Module as Module
use coengram.Memory.Reviews as Methods
use coengram.Memory.Transfer as Transfer
use coengram.Memory.World.{World, Commands}

-- A call of a method, with what uuid4 and the clock return in it.
pub data Request : Type 0 where
  retain retain_agent_private : String → ℕ → TenantSession → RetainMemory → Request
  correct : String → ℕ → TenantSession → CorrectMemory → Request
  propose_knowledge : String → ℕ → TenantSession → ProposeKnowledge → Request
  review_knowledge : String → ℕ → TenantSession → ReviewKnowledge → Request
  review_operator_knowledge : String → ℕ → String → String → ReviewKnowledge → Request
  publish_next : String → ℕ → String → Request
  request_erasure : String → ℕ → TenantSession → RequestErasure → Request
  review_erasure : TenantSession → ReviewErasure → Request
  erase_next : ℕ → String → Request
  import_private : TenantSession → DecodedArchive → Request
  import_tenant : ℕ → TenantSession → DecodedArchive → Request

-- the Tenant that a request is for
abbrev pub tenant_of : Request → String
tenant_of (retain i n session c) = session.tenant_id
tenant_of (retain_agent_private i n session c) = session.tenant_id
tenant_of (correct i n session c) = session.tenant_id
tenant_of (propose_knowledge i n session c) = session.tenant_id
tenant_of (review_knowledge i n session c) = session.tenant_id
tenant_of (review_operator_knowledge i n tenant_id operator_id c) = tenant_id
tenant_of (publish_next i n tenant_id) = tenant_id
tenant_of (request_erasure i n session c) = session.tenant_id
tenant_of (review_erasure session c) = session.tenant_id
tenant_of (erase_next n tenant_id) = tenant_id
tenant_of (import_private session a) = session.tenant_id
tenant_of (import_tenant n session a) = session.tenant_id

module _ {W : Type 0} (commands : Option (Commands W))
    (self_approval : Option (String → String → Bool)) where
  unfoldable pub perform : Request → Exec (World W) Nothing
  perform (retain i n session c) = Module.retain commands i n session c >> pure tt
  perform (retain_agent_private i n session c) =
      Module.retain_agent_private commands i n session c >> pure tt
  perform (correct i n session c) = Module.correct commands i n session c >> pure tt
  perform (propose_knowledge i n session c) = Methods.propose_knowledge i n session c >> pure tt
  perform (review_knowledge i n session c) =
      Methods.review_knowledge self_approval i n session c >> pure tt
  perform (review_operator_knowledge i n tenant_id operator_id c) =
      Methods.review_operator_knowledge i n tenant_id operator_id c >> pure tt
  perform (publish_next i n tenant_id) = Methods.publish_next i n tenant_id >> pure tt
  perform (request_erasure i n session c) = Methods.request_erasure i n session c >> pure tt
  perform (review_erasure session c) = Methods.review_erasure session c >> pure tt
  perform (erase_next n tenant_id) = Methods.erase_next n tenant_id >> pure tt
  perform (import_private session a) = Transfer.import_private commands session a >> pure tt
  perform (import_tenant n session a) = Transfer.import_tenant n session a >> pure tt
