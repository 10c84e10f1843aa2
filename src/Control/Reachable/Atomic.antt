-- ===== src/Control/Reachable/Atomic.antt =====
-- control.py: a method that raises leaves the identities as they were.
use coengram.Prelude.{ℕ, String, string_eq, pair_eq, ◌≡◌, Bool, Option, arith}
use coengram.Prelude.Int.{ℤ}
use coengram.Exec.{Error, Result, err, Exec}
use coengram.Models.{PrincipalKind, Roles, TenantSession}
use coengram.Auth
use coengram.Auth.{Bytes, Fresh, TokenRecord}
use coengram.Control.Identities as Records
use coengram.Control.Identities.{Identities, PrincipalRecord, MembershipRecord}
use coengram.Control.Identities.Tokens
use coengram.Control.Identities.Revoke as Store
use coengram.Control.Accounts
use coengram.Control.Delegations
use coengram.Control.Access
use coengram.Control.Routes
use coengram.Control.Routes.{RouteValues}
use coengram.Control.Reachable
use coengram.Control.Reachable.{Request, perform, discard, forget}

forget_err : {A : Type 0} (r : Result A) {x : Error} → forget r ≡ err x → r ≡ err x
forget_err r h = ground arith

module _ {S A : Type 0} where
  -- The state is as it was if the result is an exception.
  abbrev Undoes : Result A × S → S → Type 0
  Undoes (r, s') s = (x : Error) → r ≡ err x → s' ≡ s

  discard-Undoes :
      (m : Exec S A) (s : S) (x : Error)
      → Undoes (m s) s
      → (discard m s).0 ≡ err x
      → (discard m s).1 ≡ s
  discard-Undoes m s x u h = u x (forget_err (m s).0 h)

module _ (digest : String → Bytes) (is_decimal : String → Bool) where
  create_tenant_error :
      (id name : String) (s : Identities) → Undoes (Accounts.create_tenant id name s) s
  unfolding Accounts.create_tenant
  create_tenant_error id name s x h = ground arith

  create_principal_error :
      (id name kind : String) (s : Identities) → Undoes (Accounts.create_principal id name kind s) s
  unfolding Accounts.create_principal
  create_principal_error id name kind s x h = ground arith

  update_principal_error :
      (id : String) (name : Option String) (active : Option Bool) (now : ℕ) (s : Identities)
      → Undoes (Accounts.update_principal id name active now s) s
  unfolding Accounts.update_principal Accounts.select_principal Store.update_principal
      Store.disable_principal
  update_principal_error id name active now s x h = ground arith

  disable_principal_error :
      (id : String) (now : ℕ) (s : Identities) → Undoes (Accounts.disable_principal id now s) s
  unfolding Store.disable_principal
  disable_principal_error id now s x h = ground arith

  grant_membership_error :
      (t p role : String) (s : Identities) → Undoes (Accounts.grant_membership t p role s) s
  unfolding Accounts.grant_membership
  grant_membership_error t p role s x h = ground arith

  update_membership_error :
      (t p : String) (roles : Option Roles) (active : Option Bool) (now : ℕ) (s : Identities)
      → Undoes (Accounts.update_membership t p roles active now s) s
  unfolding Accounts.update_membership Accounts.select_membership Store.update_membership
      Store.disable_membership
  update_membership_error t p roles active now s x h = ground arith

  disable_membership_error :
      (t p : String) (now : ℕ) (s : Identities) → Undoes (Accounts.disable_membership t p now s) s
  unfolding Store.disable_membership
  disable_membership_error t p now s x h = ground arith

  revoke_membership_role_error :
      (t p role : String) (now : ℕ) (s : Identities)
      → Undoes (Accounts.revoke_membership_role t p role now s) s
  unfolding Accounts.revoke_membership_role Store.revoke_membership_role Store.disable_membership
  revoke_membership_role_error t p role now s x h = ground arith

  create_delegation_error :
      (id t a u : String) (s : Identities) → Undoes (Delegations.create_delegation id t a u s) s
  unfolding Delegations.create_delegation Delegations.require_active_delegation_bindings
  create_delegation_error id t a u s x h = ground arith

  update_delegation_error :
      (id : String) (active : Bool) (now : ℕ) (s : Identities)
      → Undoes (Delegations.update_delegation id active now s) s
  unfolding Delegations.update_delegation Delegations.require_active_delegation_bindings
      Store.update_delegation_active
  update_delegation_error id active now s x h = ground arith

  revoke_delegation_error :
      (id : String) (now : ℕ) (s : Identities) → Undoes (Delegations.revoke_delegation id now s) s
  unfolding Store.revoke_delegation
  revoke_delegation_error id now s x h = ground arith

  create_channel_binding_error :
      (id ch ext d : String) (s : Identities)
      → Undoes (Delegations.create_channel_binding is_decimal id ch ext d s) s
  unfolding Delegations.create_channel_binding
  create_channel_binding_error id ch ext d s x h = ground arith

  disable_channel_binding_error :
      (ch ext : String) (s : Identities) → Undoes (Delegations.disable_channel_binding ch ext s) s
  unfolding Delegations.disable_channel_binding
  disable_channel_binding_error ch ext s x h = ground arith

  remove_channel_binding_error :
      (ch ext : String) (s : Identities) → Undoes (Delegations.remove_channel_binding ch ext s) s
  unfolding Records.delete_channel_binding
  remove_channel_binding_error ch ext s x h = ground arith

  register_tenant_route_error :
      (t : String) (v : RouteValues) (b : Bool) (s : Identities)
      → Undoes (Routes.register_tenant_route t v b s) s
  unfolding Routes.register_tenant_route
  register_tenant_route_error t v b s x h = ground arith

  configure_token_lifetime_days_error :
      (t : String) (kind : PrincipalKind) (days : ℕ) (delegated : Bool) (s : Identities)
      → Undoes (Records.configure_token_lifetime_days t kind days delegated s) s
  configure_token_lifetime_days_error t kind days delegated s x h = ground arith

  issue_access_token_error :
      (fresh : Fresh) (t p : String) (l : Option ℤ) (now : ℕ) (s : Identities)
      → Undoes (Access.issue_access_token digest fresh t p l now s) s
  unfolding Access.issue_access_token Auth.issue
  issue_access_token_error fresh t p l now s x h = ground arith

  issue_delegated_access_token_error :
      (fresh : Fresh) (d : String) (l : Option ℤ) (now : ℕ) (s : Identities)
      → Undoes (Access.issue_delegated_access_token digest fresh d l now s) s
  unfolding Access.issue_delegated_access_token Auth.issue
  issue_delegated_access_token_error fresh d l now s x h = ground arith

  revoke_access_token_error :
      (id : String) (now : ℕ) (s : Identities)
      → Undoes (Access.revoke_access_token digest id now s) s
  unfolding Access.revoke_access_token
  revoke_access_token_error id now s x h = ground arith

  authenticate_error :
      (text : String) (now : ℕ) (s : Identities) → Undoes (Access.authenticate digest text now s) s
  unfolding Access.authenticate Auth.authenticate
  authenticate_error text now s x h = ground arith

  require_delegated_reads :
      (x : TenantSession) (s : Identities) → (Access.require_delegated digest x s).1 ≡ s
  unfolding Access.require_delegated
  require_delegated_reads x s = ground arith

  require_renewable_reads :
      (id : String) (o : ℤ) (now : ℕ) (s : Identities)
      → (Access.require_renewable digest id o now s).1 ≡ s
  unfolding Access.require_renewable
  require_renewable_reads id o now s = grind (arith, require_delegated_reads)

  service_rotate_error :
      (fresh : Fresh) (id : String) (y : TenantSession) (l o : ℤ) (now : ℕ) (s : Identities)
      → Undoes (Auth.rotate Tokens.store digest fresh id y l o now s) s
  unfolding Auth.rotate
  service_rotate_error fresh id y l o now s x h =
      grind (arith, Tokens.store-IsTokenStore.rotate_refused)

  renew_error :
      (fresh : Fresh) (id : String) (o : ℤ) (l : Option ℤ) (now : ℕ) (r : TokenRecord)
      → (p : PrincipalRecord) (m : MembershipRecord) (b : Bool) (s : Identities)
      → Undoes (Access.renew digest fresh id o l now r p m b s) s
  unfolding Access.renew
  renew_error fresh id o l now r p m b s x h = grind (arith, service_rotate_error)

  rotate_access_token_error :
      (fresh : Fresh) (id : String) (o : ℤ) (l : Option ℤ) (now : ℕ) (s : Identities)
      → Undoes (Access.rotate_access_token digest fresh id o l now s) s
  unfolding Access.rotate_access_token
  rotate_access_token_error fresh id o l now s x h =
      grind (arith, require_renewable_reads, renew_error)

  -- A method that raises leaves the identities as they were: none is half done.
  pub perform_error :
      (c : Request) (s : Identities) (x : Error)
      → (perform digest is_decimal c s).0 ≡ err x
      → (perform digest is_decimal c s).1 ≡ s
  unfolding perform
  perform_error (Reachable.create_tenant id name) s x h =
      discard-Undoes (Accounts.create_tenant id name) s x (create_tenant_error id name s) h
  perform_error (Reachable.create_principal id name kind) s x h =
      discard-Undoes (Accounts.create_principal id name kind) s x
        (create_principal_error id name kind s) h
  perform_error (Reachable.update_principal id name active now) s x h =
      discard-Undoes (Accounts.update_principal id name active now) s x
        (update_principal_error id name active now s) h
  perform_error (Reachable.disable_principal id now) s x h =
      discard-Undoes (Accounts.disable_principal id now) s x (disable_principal_error id now s) h
  perform_error (Reachable.grant_membership t p role) s x h =
      discard-Undoes (Accounts.grant_membership t p role) s x (grant_membership_error t p role s) h
  perform_error (Reachable.update_membership t p roles active now) s x h =
      discard-Undoes (Accounts.update_membership t p roles active now) s x
        (update_membership_error t p roles active now s) h
  perform_error (Reachable.disable_membership t p now) s x h =
      discard-Undoes (Accounts.disable_membership t p now) s x (disable_membership_error t p now s)
        h
  perform_error (Reachable.revoke_membership_role t p role now) s x h =
      discard-Undoes (Accounts.revoke_membership_role t p role now) s x
        (revoke_membership_role_error t p role now s) h
  perform_error (Reachable.create_delegation id t a u) s x h =
      discard-Undoes (Delegations.create_delegation id t a u) s x
        (create_delegation_error id t a u s) h
  perform_error (Reachable.update_delegation id active now) s x h =
      discard-Undoes (Delegations.update_delegation id active now) s x
        (update_delegation_error id active now s) h
  perform_error (Reachable.revoke_delegation id now) s x h =
      discard-Undoes (Delegations.revoke_delegation id now) s x (revoke_delegation_error id now s) h
  perform_error (Reachable.create_channel_binding id channel external_id d) s x h =
      discard-Undoes (Delegations.create_channel_binding is_decimal id channel external_id d) s x
        (create_channel_binding_error id channel external_id d s) h
  perform_error (Reachable.disable_channel_binding channel external_id) s x h =
      discard-Undoes (Delegations.disable_channel_binding channel external_id) s x
        (disable_channel_binding_error channel external_id s) h
  perform_error (Reachable.remove_channel_binding channel external_id) s x h =
      discard-Undoes (Delegations.remove_channel_binding channel external_id) s x
        (remove_channel_binding_error channel external_id s) h
  perform_error (Reachable.register_tenant_route t values healthy) s x h =
      discard-Undoes (Routes.register_tenant_route t values healthy) s x
        (register_tenant_route_error t values healthy s) h
  perform_error (Reachable.configure_token_lifetime_days t kind days delegated) s x h =
      discard-Undoes (Records.configure_token_lifetime_days t kind days delegated) s x
        (configure_token_lifetime_days_error t kind days delegated s) h
  perform_error (Reachable.issue_access_token fresh t p lifetime now) s x h =
      discard-Undoes (Access.issue_access_token digest fresh t p lifetime now) s x
        (issue_access_token_error fresh t p lifetime now s) h
  perform_error (Reachable.issue_delegated_access_token fresh d lifetime now) s x h =
      discard-Undoes (Access.issue_delegated_access_token digest fresh d lifetime now) s x
        (issue_delegated_access_token_error fresh d lifetime now s) h
  perform_error (Reachable.rotate_access_token fresh id overlap lifetime now) s x h =
      discard-Undoes (Access.rotate_access_token digest fresh id overlap lifetime now) s x
        (rotate_access_token_error fresh id overlap lifetime now s) h
  perform_error (Reachable.revoke_access_token id now) s x h =
      discard-Undoes (Access.revoke_access_token digest id now) s x
        (revoke_access_token_error id now s) h
  perform_error (Reachable.authenticate text now) s x h =
      discard-Undoes (Access.authenticate digest text now) s x (authenticate_error text now s) h
