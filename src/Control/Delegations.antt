-- ===== src/Control/Delegations.antt =====
-- control.py, `ControlModule`: Delegations and Channel Bindings.
use coengram.Prelude.{
  ℕ, String, ◌==◌, string_eq, Bool, true, false, not, ◌&&◌, ◌||◌, none, some, if◌then◌else◌,
}
use coengram.Exec.{
  Exec, control_not_found, value_error, raise_if, gets, present, require, pure, ◌>>=◌, ◌>>◌,
  Nothing,
}
use coengram.Models.{agent, is_agent, is_user, TenantSession, post_init}
use coengram.Auth.{lift_result}
use coengram.Control.Identities.{
  Identities, DelegationRecord, ChannelBindingRecord, get_tenant, get_principal, get_membership,
  get_delegation, get_channel_binding, save_delegation, save_channel_binding,
  update_channel_binding, delete_channel_binding,
}
use coengram.Control.Identities.Revoke as Store

-- `_require_active_delegation_bindings`
unfoldable pub require_active_delegation_bindings :
    String → String → String → Exec Identities Nothing
require_active_delegation_bindings tenant_id agent_id subject_user_id = do
  tenant ← gets (λ s. get_tenant s tenant_id)
  agent_user ← gets (λ s. get_principal s agent_id)
  subject ← gets (λ s. get_principal s subject_user_id)
  agent_membership ← gets (λ s. get_membership s tenant_id agent_id)
  subject_membership ← gets (λ s. get_membership s tenant_id subject_user_id)
  require (λ t. t.active) tenant (control_not_found "Active Tenant not found")
  require (λ p. is_agent p.kind && p.active) agent_user (control_not_found "Active Agent not found")
  require (λ p. is_user p.kind && p.active) subject
      (control_not_found "Active Subject User not found")
  require (λ m. m.active) agent_membership
      (control_not_found "Active Agent Tenant Membership not found")
  require (λ m. m.active) subject_membership
      (control_not_found "Active Subject User Tenant Membership not found")
  pure tt

unfoldable pub create_delegation :
    String → String → String → String → Exec Identities DelegationRecord
unfolding save_delegation
create_delegation delegation_id tenant_id agent_id subject_user_id = do
  require_active_delegation_bindings tenant_id agent_id subject_user_id
  let r : DelegationRecord = record {
    delegation_id = delegation_id;
    tenant_id = tenant_id;
    agent_id = agent_id;
    subject_user_id = subject_user_id;
    active = true;
  }
  save_delegation r
  pure r

abbrev pub inspect_delegation : String → Exec Identities DelegationRecord
inspect_delegation id = do
  found ← gets (λ s. get_delegation s id)
  present found (control_not_found "Delegation not found")

unfoldable pub update_delegation : String → Bool → ℕ → Exec Identities DelegationRecord
update_delegation id active now = do
  current ← inspect_delegation id
  (if active
      then require_active_delegation_bindings current.tenant_id current.agent_id
          current.subject_user_id
      else pure tt)
  Store.update_delegation_active id active now

abbrev pub revoke_delegation : String → ℕ → Exec Identities DelegationRecord
revoke_delegation = Store.revoke_delegation

-- `str.isdecimal`, which reads the Unicode tables, is a parameter.
unfoldable pub create_channel_binding :
    (String → Bool) → String → String → String → String → Exec Identities ChannelBindingRecord
unfolding save_channel_binding
create_channel_binding is_decimal binding_id channel external_id delegation_id = do
  raise_if (not (channel == "telegram"))
      (value_error "Iteration 1 supports only Telegram Channel Bindings")
  raise_if (not (is_decimal external_id))
      (value_error "Telegram Channel Binding requires a numeric external identity")
  found ← gets (λ s. get_delegation s delegation_id)
  delegation ← require (λ d. d.active) found (control_not_found "Active Delegation not found")
  let r : ChannelBindingRecord = record {
    binding_id = binding_id;
    channel = channel;
    external_id = external_id;
    tenant_id = delegation.tenant_id;
    user_id = delegation.subject_user_id;
    agent_id = delegation.agent_id;
    delegation_id = delegation.delegation_id;
    active = true;
  }
  save_channel_binding r
  pure r

unfoldable pub resolve_channel_session : String → String → Exec Identities TenantSession
unfolding post_init
resolve_channel_session channel external_id = do
  bound ← gets (λ s. get_channel_binding s channel external_id)
  binding ← require (λ b. b.active) bound (control_not_found "Active Channel Binding not found")
  delegated ← gets (λ s. get_delegation s binding.delegation_id)
  member ← gets (λ s. get_membership s binding.tenant_id binding.agent_id)
  delegation ← require (λ d. d.active) delegated (control_not_found "Active Delegation not found")
  raise_if
      (not (delegation.tenant_id == binding.tenant_id)
        || not (delegation.agent_id == binding.agent_id)
        || not (delegation.subject_user_id == binding.user_id))
      (control_not_found "Channel Binding no longer matches its Delegation")
  membership ←
      require (λ m. m.active) member (control_not_found "Active Agent Tenant Membership not found")
  lift_result (
      post_init (record {
        tenant_id = binding.tenant_id;
        actor_id = binding.agent_id;
        actor_kind = agent;
        roles = membership.roles;
        subject_user_id = some binding.user_id;
        delegation_id = some binding.delegation_id;
        token_id = none;
      }))

abbrev pub inspect_channel_binding : String → String → Exec Identities ChannelBindingRecord
inspect_channel_binding channel external_id = do
  found ← gets (λ s. get_channel_binding s channel external_id)
  present found (control_not_found "Channel Binding not found")

unfoldable pub disable_channel_binding : String → String → Exec Identities ChannelBindingRecord
unfolding update_channel_binding
disable_channel_binding channel external_id = do
  binding ← inspect_channel_binding channel external_id
  let disabled = record binding { active = false }
  update_channel_binding disabled
  pure disabled

abbrev pub remove_channel_binding : String → String → Exec Identities Bool
remove_channel_binding = delete_channel_binding
