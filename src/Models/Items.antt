-- ===== src/Models/Items.antt =====
-- models.py: the items of a Tenant's memory, and what callers send and receive about them. A value of
-- these types has passed the checks of Pydantic.
use coengram.Prelude.{ℕ, String, Bool, true, false, Option, List, ◌≡◌, ◌↔◌, arith, Eq, nat_beq}
use coengram.Models.{MemoryScope, private, tenant_knowledge}
use coengram.Models.{MemoryState, active, superseded, erasure_pending, erased}
use coengram.Models.{MemoryKind, explicit, preference, constraint, outcome}
use coengram.Models.{MutationState, Provenance}

-- A float between 0 and 1, in units of 2 ^ -1074, of which it is a whole number.
abbrev pub Confidence : Type 0
Confidence = ℕ

pub record RetainMemory : Type 0 where
  pub content : String
  pub kind : MemoryKind
  pub confidence : Confidence
  pub idempotency_key : String

pub record RecallQuery : Type 0 where
  pub query : String
  pub limit : ℕ

pub record MemoryItem : Type 0 where
  pub id : String
  pub owner_principal_id : Option String
  pub scope : MemoryScope
  pub content : String
  pub kind : MemoryKind
  pub confidence : Confidence
  pub provenance : Provenance
  pub created_at : ℕ
  pub state : MemoryState
  pub supersedes_id : Option String

-- the constant `version` is left out
pub record MemoryMutationReceipt : Type 0 where
  pub code : String
  pub operation_id : String
  pub state : MutationState
  pub item : MemoryItem
  pub id : String

pub record PrivateMemoryInspection : Type 0 where
  pub id : String
  pub owner_principal_id : String
  pub state : MemoryState
  pub operation_id : Option String
  pub mutation_state : MutationState
  pub content : Option String
  pub kind : Option MemoryKind
  pub confidence : Option Confidence
  pub created_at : ℕ
  pub supersedes_id : Option String

pub record RecallResult : Type 0 where
  pub items : List MemoryItem

abbrev pub is_private : MemoryScope → Bool
is_private private = true
is_private tenant_knowledge = false

abbrev pub is_knowledge : MemoryScope → Bool
is_knowledge private = false
is_knowledge tenant_knowledge = true

abbrev pub is_active : MemoryState → Bool
is_active active = true
is_active _ = false

abbrev pub is_superseded : MemoryState → Bool
is_superseded superseded = true
is_superseded _ = false

abbrev state_number : MemoryState → ℕ
state_number active = 0
state_number superseded = 1
state_number erasure_pending = 2
state_number erased = 3

abbrev pub state_beq : MemoryState → MemoryState → Bool
state_beq a b = nat_beq (state_number a) (state_number b)

pub state_beq_iff : (a b : MemoryState) → (state_beq a b ≡ true) ↔ (a ≡ b)
state_beq_iff active b = ground arith
state_beq_iff superseded b = ground arith
state_beq_iff erasure_pending b = ground arith
state_beq_iff erased b = ground arith

instance abbrev pub state_eq : Eq MemoryState
state_eq = record { beq = state_beq; beq_iff = state_beq_iff }

abbrev kind_number : MemoryKind → ℕ
kind_number explicit = 0
kind_number preference = 1
kind_number constraint = 2
kind_number outcome = 3

abbrev pub memory_kind_beq : MemoryKind → MemoryKind → Bool
memory_kind_beq a b = nat_beq (kind_number a) (kind_number b)

pub memory_kind_beq_iff : (a b : MemoryKind) → (memory_kind_beq a b ≡ true) ↔ (a ≡ b)
memory_kind_beq_iff explicit b = ground arith
memory_kind_beq_iff preference b = ground arith
memory_kind_beq_iff constraint b = ground arith
memory_kind_beq_iff outcome b = ground arith

instance abbrev pub memory_kind_eq : Eq MemoryKind
memory_kind_eq = record { beq = memory_kind_beq; beq_iff = memory_kind_beq_iff }
