-- ===== src/Control/Identities.antt =====
-- control.py, `InMemoryControlStore`: Tenants, Principals, Memberships, Delegations, Channel
-- Bindings, routes and access tokens. `Identities` is the part of the store's state that these
-- methods read and write; the methods of the children are those that disable and revoke.
pub mod Revoke
pub mod Tokens
use coengram.Prelude.{
  ℕ, String, Eq, ◌==◌, string_eq, bool_eq, pair_eq, Bool, true, false, Option, none, some, List,
  if◌then◌else◌, is_some,
}
use coengram.Exec.{
  Error, Result, ok, err, Exec, control_conflict, control_not_found, Nothing, raise_if, modify,
  gets, present, pure, raise, ◌>>=◌, ◌>>◌,
}
use coengram.Dict
use coengram.Dict.{Dict}
use coengram.Models.{PrincipalKind, kind_eq, Roles}
use coengram.Auth.{TokenRecord}

pub record TenantRecord : Type 0 where
  pub tenant_id : String
  pub name : String
  pub active : Bool

pub record PrincipalRecord : Type 0 where
  pub principal_id : String
  pub name : String
  pub kind : PrincipalKind
  pub active : Bool

pub record MembershipRecord : Type 0 where
  pub tenant_id : String
  pub principal_id : String
  pub roles : Roles
  pub active : Bool

-- `(record.tenant_id, record.principal_id)`
abbrev pub membership_key : MembershipRecord → String × String
membership_key m = (m.tenant_id, m.principal_id)

pub record DelegationRecord : Type 0 where
  pub delegation_id : String
  pub tenant_id : String
  pub agent_id : String
  pub subject_user_id : String
  pub active : Bool

pub record ChannelBindingRecord : Type 0 where
  pub binding_id : String
  pub channel : String
  pub external_id : String
  pub tenant_id : String
  pub user_id : String
  pub agent_id : String
  pub delegation_id : String
  pub active : Bool

pub record TenantRouteRecord : Type 0 where
  pub tenant_id : String
  pub neo4j_service_address : String
  pub neo4j_secret_name : String
  pub tenant_database_name : String
  pub tenant_database_role : String
  pub healthy : Bool

pub record Identities : Type 0 where
  pub tenants : Dict String TenantRecord
  pub principals : Dict String PrincipalRecord
  pub memberships : Dict (String × String) MembershipRecord
  pub delegations : Dict String DelegationRecord
  pub channel_bindings : Dict (String × String) ChannelBindingRecord
  pub routes : Dict String TenantRouteRecord
  pub tokens : Dict String TokenRecord
  pub token_lifetime_days : Dict (String × (PrincipalKind × Bool)) ℕ

abbrev pub init : Identities
init = record {
  tenants = Dict.empty;
  principals = Dict.empty;
  memberships = Dict.empty;
  delegations = Dict.empty;
  channel_bindings = Dict.empty;
  routes = Dict.empty;
  tokens = Dict.empty;
  token_lifetime_days = Dict.empty;
}

abbrev pub get_tenant : Identities → String → Option TenantRecord
get_tenant s id = Dict.get s.tenants id

abbrev pub get_principal : Identities → String → Option PrincipalRecord
get_principal s id = Dict.get s.principals id

abbrev pub get_membership : Identities → String → String → Option MembershipRecord
get_membership s tenant_id principal_id = Dict.get s.memberships (tenant_id, principal_id)

abbrev pub get_delegation : Identities → String → Option DelegationRecord
get_delegation s id = Dict.get s.delegations id

abbrev pub get_channel_binding : Identities → String → String → Option ChannelBindingRecord
get_channel_binding s channel external_id = Dict.get s.channel_bindings (channel, external_id)

abbrev pub get_tenant_route : Identities → String → Option TenantRouteRecord
get_tenant_route s id = Dict.get s.routes id

abbrev pub token_lifetime_days : Identities → String → PrincipalKind → Bool → Option ℕ
token_lifetime_days s tenant_id kind delegated =
    Dict.get s.token_lifetime_days (tenant_id, (kind, delegated))

abbrev pub configure_token_lifetime_days :
    String → PrincipalKind → ℕ → Bool → Exec Identities Nothing
configure_token_lifetime_days tenant_id kind days delegated = modify λ s. record s {
  token_lifetime_days = Dict.put s.token_lifetime_days (tenant_id, (kind, delegated)) days;
}

unfoldable pub add_tenant : TenantRecord → Exec Identities Nothing
add_tenant r = do
  old ← gets (λ s. get_tenant s r.tenant_id)
  raise_if (is_some old) (control_conflict "Tenant already exists")
  modify (λ s. record s { tenants = Dict.put s.tenants r.tenant_id r })

unfoldable pub add_principal : PrincipalRecord → Exec Identities Nothing
add_principal r = do
  old ← gets (λ s. get_principal s r.principal_id)
  raise_if (is_some old) (control_conflict "Principal already exists")
  modify (λ s. record s { principals = Dict.put s.principals r.principal_id r })

abbrev pub save_membership : MembershipRecord → Exec Identities Nothing
save_membership r =
    modify λ s. record s { memberships = Dict.put s.memberships (membership_key r) r }

unfoldable pub save_delegation : DelegationRecord → Exec Identities Nothing
save_delegation r = do
  old ← gets (λ s. get_delegation s r.delegation_id)
  raise_if (is_some old) (control_conflict "Delegation already exists")
  modify (λ s. record s { delegations = Dict.put s.delegations r.delegation_id r })

unfoldable pub save_channel_binding : ChannelBindingRecord → Exec Identities Nothing
save_channel_binding r = do
  old ← gets (λ s. get_channel_binding s r.channel r.external_id)
  raise_if (is_some old) (control_conflict "Channel Binding already exists")
  modify (λ s. record s {
    channel_bindings = Dict.put s.channel_bindings (r.channel, r.external_id) r;
  })

unfoldable pub update_channel_binding : ChannelBindingRecord → Exec Identities Nothing
update_channel_binding r = do
  old ← gets (λ s. get_channel_binding s r.channel r.external_id)
  present old (control_not_found "Channel Binding not found")
  modify (λ s. record s {
    channel_bindings = Dict.put s.channel_bindings (r.channel, r.external_id) r;
  })

unfoldable pub delete_channel_binding : String → String → Exec Identities Bool
delete_channel_binding channel external_id = do
  old ← gets (λ s. get_channel_binding s channel external_id)
  modify (λ s. record s { channel_bindings = Dict.pop s.channel_bindings (channel, external_id) })
  pure (is_some old)

abbrev pub save_tenant_route : TenantRouteRecord → Exec Identities Nothing
save_tenant_route r = modify λ s. record s { routes = Dict.put s.routes r.tenant_id r }
