-- ===== src/Memory.antt =====
-- lifecycle.py, governance.py and stores/memory.py: the commands on a Tenant's memory, the requests to
-- erase from it, the candidates for its shared knowledge, and the state of the in-memory stores.
use coengram.Prelude.{ℕ, String, Bool, true, false, Option, List}
use coengram.Dict.{Dict}
use coengram.Models.{MemoryKind}
use coengram.Models.Items.{MemoryItem, Confidence}
pub mod Terms
pub mod Store
pub mod Erasure
pub mod Knowledge
pub mod World
pub mod Module
pub mod Reviews
pub mod Recall
pub mod Archive
pub mod Transfer
pub mod Exchange
pub mod Erased
pub mod Reachable
pub mod Isolated
pub mod Separated
pub mod Reviewers
pub mod Curated
pub mod Curators
pub mod Taken
pub mod Corrected

pub record CorrectMemory : Type 0 where
  pub memory_id : String
  pub replacement_content : String
  pub kind : MemoryKind
  pub confidence : Confidence
  pub reason : String
  pub idempotency_key : String

pub record RequestErasure : Type 0 where
  pub memory_id : String
  pub reason : String
  pub idempotency_key : String

pub data ErasureDecision : Type 0 where
  approve reject : ErasureDecision

pub data ErasureStatus : Type 0 where
  requested approved rejected completed failed : ErasureStatus

pub record ReviewErasure : Type 0 where
  pub request_id : String
  pub decision : ErasureDecision
  pub rationale : String
  pub idempotency_key : String

pub record ErasureRequest : Type 0 where
  pub id : String
  pub tenant_id : String
  pub memory_id : String
  pub requester_id : String
  pub owner_principal_id : String
  pub reason : Option String
  pub status : ErasureStatus
  pub created_at : ℕ
  pub reviewed_by : Option String
  pub review_rationale : Option String
  pub completed_at : Option ℕ

pub record ErasureRequestView : Type 0 where
  pub id : String
  pub memory_id : String
  pub requester_id : String
  pub owner_principal_id : String
  pub status : ErasureStatus
  pub created_at : ℕ
  pub reviewed_by : Option String
  pub review_rationale : Option String
  pub completed_at : Option ℕ

-- its decision is always to approve, and its status always completed
pub record ErasureTombstone : Type 0 where
  pub id : String
  pub memory_id : String
  pub requester_id : String
  pub owner_principal_id : String
  pub created_at : ℕ
  pub reviewed_by : String
  pub completed_at : ℕ

-- a Tenant, a Principal and an idempotency key
abbrev pub Key : Type 0
Key = (String × String) × String

-- `InMemoryErasureStore`
pub record Erasures : Type 0 where
  pub requests : Dict String ErasureRequest
  pub request_keys : Dict Key String
  pub review_keys : Dict Key String

-- `InMemoryTenantMemoryStore`
pub record TenantStore : Type 0 where
  pub items : List MemoryItem
  pub idempotency : Dict (String × String) MemoryItem
  pub published_candidates : Dict String MemoryItem
  pub correction_keys : Dict (String × String) MemoryItem

pub data CandidateStatus : Type 0 where
  submitted approved rejected publishing published failed : CandidateStatus

pub data ReviewDecision : Type 0 where
  approve reject : ReviewDecision

pub record ProposeKnowledge : Type 0 where
  pub claim : String
  pub source_memory_ids : List String
  pub duplicate_memory_ids : List String
  pub conflicting_memory_ids : List String
  pub confidence : Confidence
  pub idempotency_key : String

pub record ReviewKnowledge : Type 0 where
  pub candidate_id : String
  pub decision : ReviewDecision
  pub rationale : String
  pub idempotency_key : String

pub record KnowledgeCandidate : Type 0 where
  pub id : String
  pub tenant_id : String
  pub claim : String
  pub confidence : Confidence
  pub proposer_id : String
  pub source_memory_ids : List String
  pub duplicate_memory_ids : List String
  pub conflicting_memory_ids : List String
  pub status : CandidateStatus
  pub created_at : ℕ
  pub reviewed_by : Option String
  pub review_rationale : Option String

pub record KnowledgeCandidateView : Type 0 where
  pub id : String
  pub claim : String
  pub confidence : Confidence
  pub proposer_id : String
  pub source_count : ℕ
  pub duplicate_memory_ids : List String
  pub conflicting_memory_ids : List String
  pub status : CandidateStatus
  pub created_at : ℕ
  pub reviewed_by : Option String
  pub review_rationale : Option String

pub record PublicationEvent : Type 0 where
  pub id : String
  pub tenant_id : String
  pub candidate_id : String
  pub created_at : ℕ

-- `InMemoryGovernanceStore`
pub record Governance : Type 0 where
  pub candidates : Dict String KnowledgeCandidate
  pub proposal_keys : Dict Key String
  pub review_keys : Dict Key String
  pub outbox : List PublicationEvent
