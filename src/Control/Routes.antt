-- ===== src/Control/Routes.antt =====
-- control.py, `ControlModule`: the routes to the Tenants' databases, and the lists of records.
use Prim.Native.Char.{Char}
use Prim.Native.String.{String, ◌++◌}
use coengram.Prelude.{◌==◌, string_eq, pair_eq, Bool, not, ◌&&◌, List, keep, holds}
use coengram.Prelude.Text.{str_leb, replace_char}
use coengram.Prelude.Sort.{sort}
use coengram.Exec.{
  Exec, control_not_found, value_error, raise_if, gets, present, require, pure, ◌>>=◌, ◌>>◌,
}
use coengram.Dict
use coengram.Auth.{TokenRecord}
use coengram.Control.Identities.{
  Identities, TenantRecord, PrincipalRecord, MembershipRecord, DelegationRecord, TenantRouteRecord,
  get_tenant, get_tenant_route, save_tenant_route,
}

abbrev dash : Char
dash = "-"

-- the four values of a route that follow from the Tenant's id
abbrev pub RouteValues : Type 0
RouteValues = String × (String × (String × String))

unfoldable pub expected_route : String → RouteValues
unfolding replace_char
expected_route tenant_id =
    let normalized = replace_char dash "_" tenant_id in
    (
      "neo4j-" ++ (tenant_id ++ ":7687"),
      (
        tenant_id ++ "/neo4j_password",
        ("tenant_" ++ normalized, "tenant_" ++ (normalized ++ "_rw")),
      ),
    )

unfoldable pub register_tenant_route :
    String → RouteValues → Bool → Exec Identities TenantRouteRecord
register_tenant_route tenant_id supplied healthy = do
  tenant ← gets (λ s. get_tenant s tenant_id)
  require (λ t. t.active) tenant (control_not_found "Active Tenant not found")
  raise_if (not (supplied == expected_route tenant_id))
      (value_error "Tenant route values must derive from the immutable Tenant ID")
  let route : TenantRouteRecord = record {
    tenant_id = tenant_id;
    neo4j_service_address = supplied.0;
    neo4j_secret_name = supplied.1.0;
    tenant_database_name = supplied.1.1.0;
    tenant_database_role = supplied.1.1.1;
    healthy = healthy;
  }
  save_tenant_route route
  pure route

unfoldable pub resolve_tenant_route : String → Exec Identities TenantRouteRecord
resolve_tenant_route tenant_id = do
  tenant ← gets (λ s. get_tenant s tenant_id)
  route ← gets (λ s. get_tenant_route s tenant_id)
  require (λ t. t.active) tenant (control_not_found "Healthy Tenant route not found")
  require (λ r. r.healthy) route (control_not_found "Healthy Tenant route not found")

abbrev pub serves : Identities → TenantRouteRecord → Bool
serves s r = r.healthy && holds (λ t. t.active) (get_tenant s r.tenant_id)

unfoldable pub list_tenant_routes : Identities → List TenantRouteRecord
list_tenant_routes s = keep (serves s) (Dict.sorted_values str_leb s.routes)

unfoldable pub list_tenants : Identities → List TenantRecord
list_tenants s = Dict.sorted_values str_leb s.tenants

unfoldable pub list_principals : Identities → List PrincipalRecord
list_principals s = Dict.sorted_values str_leb s.principals

unfoldable pub list_memberships : String → Exec Identities (List MembershipRecord)
list_memberships tenant_id = do
  tenant ← gets (λ s. get_tenant s tenant_id)
  present tenant (control_not_found "Tenant not found")
  gets (λ s.
      sort (λ a b. str_leb a.principal_id b.principal_id)
        (keep (λ m. m.tenant_id == tenant_id) (Dict.values s.memberships)))

unfoldable pub list_delegations : String → Exec Identities (List DelegationRecord)
list_delegations tenant_id = do
  tenant ← gets (λ s. get_tenant s tenant_id)
  present tenant (control_not_found "Tenant not found")
  gets (λ s.
      sort (λ a b. str_leb a.delegation_id b.delegation_id)
        (keep (λ d. d.tenant_id == tenant_id) (Dict.values s.delegations)))

unfoldable pub list_tokens : Identities → String → String → List TokenRecord
list_tokens s tenant_id principal_id =
    keep (λ r. r.session.tenant_id == tenant_id && r.session.actor_id == principal_id)
      (Dict.values s.tokens)
