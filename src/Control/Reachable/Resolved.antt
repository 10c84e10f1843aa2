-- ===== src/Control/Reachable/Resolved.antt =====
-- control.py: what a session stands for that a Channel Binding of a reachable Control Store resolves
-- to.
use text.Mathlib.TextEquality.{eq_iff}
use coengram.Prelude.{
  String, string_eq, option_eq, pair_eq, ◌≡◌, refl, Bool, true, none, some, arith, holds,
  subset_refl,
}
use coengram.Exec.{ok}
use coengram.Models.{kind_eq, agent, TenantSession}
use coengram.Auth.{Bytes}
use coengram.Control.Identities.{
  Identities, MembershipRecord, DelegationRecord, ChannelBindingRecord, get_tenant, get_membership,
  get_delegation,
}
use coengram.Control.Access.{reauthorize_session}
use coengram.Control.Delegations.{resolve_channel_session}
use coengram.Control.Soundness.{IsSound, has_actor, has_roles, has_delegation, grants, is_backed}
use coengram.Control.Reachable.{IsReachable}
use coengram.Control.Reachable.Sound.{IsReachable-IsSound}
use coengram.Control.Reachable.Authorised.{reauthorize-authorised}

abbrev pub session_of : ChannelBindingRecord → MembershipRecord → TenantSession
session_of b m = record {
  tenant_id = b.tenant_id;
  actor_id = b.agent_id;
  actor_kind = agent;
  roles = m.roles;
  subject_user_id = some b.user_id;
  delegation_id = some b.delegation_id;
  token_id = none;
}

pub resolved :
    (channel external_id : String) (s : Identities) (x : TenantSession)
    → (resolve_channel_session channel external_id s).0 ≡ ok x
    → (b : ChannelBindingRecord) × (d : DelegationRecord) × (m : MembershipRecord) × (get_delegation
          s b.delegation_id
        ≡ some d)
      × (d.active ≡ true)
      × (d.tenant_id ≡ b.tenant_id)
      × (d.agent_id ≡ b.agent_id)
      × (d.subject_user_id ≡ b.user_id)
      × (get_membership s b.tenant_id b.agent_id ≡ some m)
      × (m.active ≡ true)
      × (x ≡ session_of b m)
unfolding resolve_channel_session
resolved channel external_id s x h = grind (arith, eq_iff)

session_of-authorised :
    (s : Identities) (b : ChannelBindingRecord) (d : DelegationRecord) (m : MembershipRecord)
    → IsSound s
    → get_delegation s b.delegation_id ≡ some d
    → d.active ≡ true
    → d.tenant_id ≡ b.tenant_id
    → d.agent_id ≡ b.agent_id
    → d.subject_user_id ≡ b.user_id
    → get_membership s b.tenant_id b.agent_id ≡ some m
    → m.active ≡ true
    → (has_actor s (session_of b m) ≡ true)
      × (has_roles s (session_of b m) ≡ true)
      × (has_delegation s (session_of b m) ≡ true)
unfolding has_actor has_roles has_delegation grants is_backed
session_of-authorised s b d m h found on t a u member joined = (
  ground (arith, h.delegations_backed b.delegation_id d found on, a),
  ground (arith, member, joined, subset_refl m.roles),
  ground (
    arith,
    found,
    on,
    eq_iff d.tenant_id b.tenant_id,
    eq_iff d.agent_id b.agent_id,
    eq_iff b.user_id d.subject_user_id,
  ),
)

same_session :
    (s : Identities) (b : ChannelBindingRecord) (m n : MembershipRecord) (x : TenantSession)
    → x ≡ session_of b m
    → get_membership s b.tenant_id b.agent_id ≡ some m
    → get_membership s x.tenant_id x.actor_id ≡ some n
    → record x { roles = n.roles } ≡ x
same_session s b m n x same at found = grind arith

module _ (digest : String → Bytes) (is_decimal : String → Bool) where
  -- In every reachable store, a session that a Channel Binding resolves to passes reauthorization
  -- unchanged, if its Tenant is active.
  pub resolve_channel_session-reauthorize_session :
      (channel external_id : String) (s : Identities) (x : TenantSession)
      → IsReachable digest is_decimal s
      → (resolve_channel_session channel external_id s).0 ≡ ok x
      → holds (λ t. t.active) (get_tenant s x.tenant_id) ≡ true
      → reauthorize_session x s ≡ (ok x, s)
  resolve_channel_session-reauthorize_session channel external_id s x reach res tenant =
      let h = IsReachable-IsSound digest is_decimal reach in
      let (b, d, m, found, on, t, a, u, member, joined, same) =
        resolved channel external_id s x res in
      let (actor, roles, delegation) =
        session_of-authorised s b d m h found on t a u member joined in
      let (n, at, _, done) =
        reauthorize-authorised s x h tenant (rw same actor) (rw same roles) (rw same delegation) in
      rw (done, same_session s b m n x same member at) refl
