-- ===== src/Control/Soundness.antt =====
-- control.py: the invariant of the Control Store's identities. Whatever is active or unrevoked is
-- backed by records that are active.
pub mod Kept
pub mod CutPrincipal
pub mod CutMembership
pub mod Put
pub mod Disable
pub mod Update
pub mod Accounts
pub mod Delegations
pub mod Access
pub mod Rotation
use coengram.Prelude.{
  String, ◌==◌, string_eq, option_eq, pair_eq, ◌≡◌, Bool, true, false, not, ◌&&◌, ◌||◌, Option,
  none, some, is_some, holds, subset, if◌then◌else◌,
}
use coengram.Dict
use coengram.Models.{PrincipalKind, kind_eq, is_agent, is_user, TenantSession}
use coengram.Auth.{TokenRecord}
use coengram.Control.Identities.{
  Identities, PrincipalRecord, MembershipRecord, DelegationRecord, ChannelBindingRecord,
  get_principal, get_membership, get_delegation, membership_key,
}

-- the actor is an active Principal of the session's kind
unfoldable pub has_actor : Identities → TenantSession → Bool
has_actor s x = holds (λ p. p.active && p.kind == x.actor_kind) (get_principal s x.actor_id)

-- the actor's Membership is active and has every role of the session
unfoldable pub has_roles : Identities → TenantSession → Bool
has_roles s x =
    holds (λ m. m.active && subset x.roles m.roles) (get_membership s x.tenant_id x.actor_id)

-- the Delegation is active and is the session's
unfoldable pub grants : TenantSession → DelegationRecord → Bool
grants x d =
    d.active
    && d.tenant_id == x.tenant_id
    && d.agent_id == x.actor_id
    && x.subject_user_id == some d.subject_user_id

-- a session for a Subject User has a Delegation that grants it, and no other session has one
unfoldable pub has_delegation : Identities → TenantSession → Bool
unfolding grants
has_delegation s x =
    if is_some x.delegation_id
    then holds (λ id. holds (grants x) (get_delegation s id)) x.delegation_id
    else not (is_some x.subject_user_id)

-- Agent and Subject User are active, and are active Members of the Tenant
unfoldable pub is_backed : Identities → DelegationRecord → Bool
is_backed s d =
    holds (λ p. is_agent p.kind && p.active) (get_principal s d.agent_id)
    && holds (λ p. is_user p.kind && p.active) (get_principal s d.subject_user_id)
    && holds (λ m. m.active) (get_membership s d.tenant_id d.agent_id)
    && holds (λ m. m.active) (get_membership s d.tenant_id d.subject_user_id)

-- the binding's Delegation is active and is what it was bound to
unfoldable pub is_bound : Identities → ChannelBindingRecord → Bool
is_bound s b =
    holds
      (λ d.
        d.active
        && d.tenant_id == b.tenant_id
        && d.agent_id == b.agent_id
        && d.subject_user_id == b.user_id)
      (get_delegation s b.delegation_id)

pub record IsSound (s : Identities) : Type 0 where
  pub tokens_actor :
      (k : String) (r : TokenRecord)
      → Dict.get s.tokens k ≡ some r
      → is_some r.revoked_at ≡ false
      → has_actor s r.session ≡ true
  pub tokens_roles :
      (k : String) (r : TokenRecord)
      → Dict.get s.tokens k ≡ some r
      → is_some r.revoked_at ≡ false
      → has_roles s r.session ≡ true
  pub tokens_delegation :
      (k : String) (r : TokenRecord)
      → Dict.get s.tokens k ≡ some r
      → is_some r.revoked_at ≡ false
      → has_delegation s r.session ≡ true
  pub delegations_backed :
      (k : String) (d : DelegationRecord)
      → Dict.get s.delegations k ≡ some d
      → d.active ≡ true
      → is_backed s d ≡ true
  pub bindings_bound :
      (k : String × String) (b : ChannelBindingRecord)
      → Dict.get s.channel_bindings k ≡ some b
      → b.active ≡ true
      → is_bound s b ≡ true
  pub memberships_keyed :
      (k : String × String) (m : MembershipRecord)
      → Dict.get s.memberships k ≡ some m
      → membership_key m ≡ k
  pub delegations_keyed :
      (k : String) (d : DelegationRecord) → Dict.get s.delegations k ≡ some d → d.delegation_id ≡ k
