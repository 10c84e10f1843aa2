-- ===== src/Control/Accounts.antt =====
-- control.py, `ControlModule`: Tenants, Principals and Memberships.
use coengram.Prelude.{
  ℕ, String, ◌==◌, string_eq, list_eq, pair_eq, Bool, true, not, ◌&&◌, Option, none, some, List, [],
  ◌∷◌, map, if◌then◌else◌, is_some, holds, default, contains, subset, same_set, with_element, keep,
}
use coengram.Prelude.Text.{strip, str_leb}
use coengram.Prelude.Sort.{sort}
use coengram.Exec.{
  Result, ok, err, Exec, control_not_found, value_error, raise_if, gets, present, require, pure,
  ◌>>=◌, ◌>>◌,
}
use coengram.Dict
use coengram.Dict.Laws.{map_some}
use coengram.Models.{PrincipalKind, user, agent, is_agent, is_user, Roles}
use coengram.Auth.{lift_result}
use coengram.Control.Identities.{
  Identities, TenantRecord, PrincipalRecord, MembershipRecord, get_tenant, get_principal,
  get_membership, add_tenant, add_principal, save_membership,
}
use coengram.Control.Identities.Revoke as Store

-- roles.py
abbrev pub valid_roles : Roles
valid_roles = "tenant_administrator" ∷ "knowledge_curator" ∷ "tenant_member" ∷ []

abbrev pub is_active_tenant : Option TenantRecord → Bool
is_active_tenant = holds (λ t. t.active)

-- `PrincipalKind(kind)`
abbrev pub parse_kind : String → Result PrincipalKind
parse_kind kind =
    if kind == "user"
    then ok user
    else if kind == "agent"
    then ok agent
    else err (value_error "not a valid PrincipalKind")

unfoldable pub create_tenant : String → String → Exec Identities TenantRecord
unfolding add_tenant
create_tenant tenant_id name = do
  let r : TenantRecord = record { tenant_id = tenant_id; name = name; active = true }
  add_tenant r
  pure r

unfoldable pub create_principal : String → String → String → Exec Identities PrincipalRecord
unfolding add_principal
create_principal principal_id name kind = do
  k ← lift_result (parse_kind kind)
  let r : PrincipalRecord = record {
    principal_id = principal_id;
    name = name;
    kind = k;
    active = true;
  }
  add_principal r
  pure r

abbrev pub inspect_principal : String → Exec Identities PrincipalRecord
inspect_principal id = do
  found ← gets (λ s. get_principal s id)
  present found (control_not_found "Principal not found")

-- The checks of `update_principal`, with the name and the activity that they select.
unfoldable pub select_principal :
    String → Option String → Option Bool → Exec Identities (String × Bool)
select_principal id name active = do
  current ← inspect_principal id
  raise_if (not (is_some name) && not (is_some active))
      (value_error "Principal update requires a name or active state")
  let normalized_name = default current.name (map_some strip name)
  raise_if (normalized_name == "") (value_error "Principal name cannot be empty")
  pure (normalized_name, default current.active active)

unfoldable pub update_principal :
    String → Option String → Option Bool → ℕ → Exec Identities PrincipalRecord
update_principal id name active now = do
  selected ← select_principal id name active
  Store.update_principal id selected.0 selected.1 now

abbrev pub disable_principal : String → ℕ → Exec Identities PrincipalRecord
disable_principal = Store.disable_principal

-- `frozenset({role}) if existing is None else existing.roles | {role}`
abbrev pub granted_roles : String → Option MembershipRecord → Roles
granted_roles role none = role ∷ []
granted_roles role (some m) = with_element role m.roles

unfoldable pub grant_membership : String → String → String → Exec Identities MembershipRecord
grant_membership tenant_id principal_id role = do
  raise_if (not (contains role valid_roles)) (value_error "Unknown role")
  tenant ← gets (λ s. get_tenant s tenant_id)
  principal ← gets (λ s. get_principal s principal_id)
  require (λ t. t.active) tenant (control_not_found "Active Tenant not found")
  p ← require (λ p. p.active) principal (control_not_found "Active Principal not found")
  raise_if (is_agent p.kind && not (role == "tenant_member"))
      (value_error "Administrative and Curator roles require a human User")
  existing ← gets (λ s. get_membership s tenant_id principal_id)
  let membership : MembershipRecord = record {
    tenant_id = tenant_id;
    principal_id = principal_id;
    roles = granted_roles role existing;
    active = true;
  }
  save_membership membership
  pure membership

abbrev pub inspect_membership : String → String → Exec Identities MembershipRecord
inspect_membership tenant_id principal_id = do
  found ← gets (λ s. get_membership s tenant_id principal_id)
  present found (control_not_found "Tenant Membership not found")

-- The checks of `update_membership`, with the record that they select.
unfoldable pub select_membership :
    String → String → Option Roles → Option Bool → Exec Identities MembershipRecord
select_membership tenant_id principal_id roles active = do
  current ← inspect_membership tenant_id principal_id
  raise_if (not (is_some roles) && not (is_some active))
      (value_error "Tenant Membership update requires roles or active state")
  let selected_roles = default current.roles roles
  raise_if (same_set selected_roles [])
      (value_error "Tenant Membership must retain at least one role")
  raise_if (not (subset selected_roles valid_roles)) (value_error "Unknown roles")
  let selected_active = default current.active active
  principal ← gets (λ s. get_principal s principal_id)
  tenant ← gets (λ s. get_tenant s tenant_id)
  p ← present principal (control_not_found "Principal not found")
  raise_if (is_agent p.kind && not (same_set selected_roles ("tenant_member" ∷ [])))
      (value_error "Agents may only have the tenant_member role")
  raise_if (selected_active && not (is_active_tenant tenant))
      (control_not_found "Active Tenant not found")
  raise_if (selected_active && not p.active) (control_not_found "Active Principal not found")
  pure (record current { roles = selected_roles; active = selected_active })

unfoldable pub update_membership :
    String → String → Option Roles → Option Bool → ℕ → Exec Identities MembershipRecord
update_membership tenant_id principal_id roles active now = do
  selected ← select_membership tenant_id principal_id roles active
  Store.update_membership selected now

abbrev pub disable_membership : String → String → ℕ → Exec Identities MembershipRecord
disable_membership = Store.disable_membership

unfoldable pub revoke_membership_role :
    String → String → String → ℕ → Exec Identities MembershipRecord
revoke_membership_role tenant_id principal_id role now = do
  raise_if (not (contains role valid_roles)) (value_error "Unknown role")
  Store.revoke_membership_role tenant_id principal_id role now

-- `principal is not None and principal.active and principal.kind is PrincipalKind.USER`
abbrev pub is_active_user : Option PrincipalRecord → Bool
is_active_user = holds (λ p. p.active && is_user p.kind)

abbrev pub is_human_member : Identities → String → MembershipRecord → Bool
is_human_member s tenant_id m =
    m.tenant_id == tenant_id && m.active && is_active_user (get_principal s m.principal_id)

-- `InMemoryControlStore.list_active_human_member_ids`
unfoldable pub list_active_human_member_ids : Identities → String → List String
list_active_human_member_ids s tenant_id =
    if is_active_tenant (get_tenant s tenant_id)
    then sort str_leb
        (map (λ m. m.principal_id) (keep (is_human_member s tenant_id) (Dict.values s.memberships)))
    else []

unfoldable pub permits_self_approval : Identities → String → String → Bool
permits_self_approval s tenant_id principal_id =
    holds (λ m. contains "tenant_administrator" m.roles) (get_membership s tenant_id principal_id)
    && list_active_human_member_ids s tenant_id == principal_id ∷ []
