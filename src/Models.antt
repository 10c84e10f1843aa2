-- ===== src/Models.antt =====
-- models.py: the identities, sessions and memory items that the other parts exchange.
pub mod Items
use coengram.Prelude.{
  String, ◌≡◌, ◌↔◌, Bool, true, false, not, ◌&&◌, ◌||◌, Option, List, arith, Eq, if◌then◌else◌,
  is_some,
}
use coengram.Exec.{Result, ok, err, value_error}

pub data PrincipalKind : Type 0 where
  user agent : PrincipalKind

pub data MemoryScope : Type 0 where
  private tenant_knowledge : MemoryScope

pub data MemoryState : Type 0 where
  active superseded erasure_pending erased : MemoryState

pub data MutationState : Type 0 where
  accepted applied failed : MutationState

pub data MemoryKind : Type 0 where
  explicit preference constraint outcome : MemoryKind

abbrev pub is_agent : PrincipalKind → Bool
is_agent agent = true
is_agent user = false

abbrev pub is_user : PrincipalKind → Bool
is_user user = true
is_user agent = false

abbrev pub kind_beq : PrincipalKind → PrincipalKind → Bool
kind_beq user user = true
kind_beq agent agent = true
kind_beq _ _ = false

pub kind_beq_iff : (a b : PrincipalKind) → (kind_beq a b ≡ true) ↔ (a ≡ b)
kind_beq_iff a b = ground arith

instance abbrev pub kind_eq : Eq PrincipalKind
kind_eq = record { beq = kind_beq; beq_iff = kind_beq_iff }

-- A `frozenset[str]` of roles, as the list of its elements.
abbrev pub Roles : Type 0
Roles = List String

pub record TenantSession : Type 0 where
  pub tenant_id : String
  pub actor_id : String
  pub actor_kind : PrincipalKind
  pub roles : Roles
  pub subject_user_id : Option String
  pub delegation_id : Option String
  pub token_id : Option String

-- `__post_init__`: a session is built only if its Subject User and its Delegation go together, and
-- belong to an Agent.
unfoldable pub post_init : TenantSession → Result TenantSession
post_init s =
    if is_some s.subject_user_id && not (is_agent s.actor_kind)
    then err (value_error "Only an Agent session can have a Subject User")
    else if is_some s.subject_user_id && not (is_some s.delegation_id)
        || not (is_some s.subject_user_id) && is_some s.delegation_id
    then err (value_error "Subject User and Delegation must be bound together")
    else ok s

pub record Provenance : Type 0 where
  pub actor_id : String
  pub source : String
