-- ===== src/Control/Reachable.antt =====
-- control.py: the Control Stores that calls of `ControlModule`'s methods reach, in any order and
-- number. The digest of a secret and `str.isdecimal` are parameters.
pub mod Sound
pub mod Atomic
pub mod Authorised
pub mod Resolved
pub mod Revoked
use coengram.Prelude.{
  ℕ, String, ◌≡◌, Bool, Option, none, some, List, [], ◌∷◌, inl, inr, arith, refl,
}
use coengram.Prelude.Int.{ℤ}
use coengram.Exec.{Result, ok, err, Exec, Nothing}
use coengram.Models.{PrincipalKind, Roles}
use coengram.Auth.{Bytes, Fresh}
use coengram.Control.Identities as Records
use coengram.Control.Identities.{Identities, init}
use coengram.Control.Accounts
use coengram.Control.Delegations
use coengram.Control.Access
use coengram.Control.Routes
use coengram.Control.Routes.{RouteValues}

-- One call of a method that may change the identities, with the clock's reading where it takes one.
pub data Request : Type 0 where
  create_tenant : String → String → Request
  create_principal : String → String → String → Request
  update_principal : String → Option String → Option Bool → ℕ → Request
  disable_principal : String → ℕ → Request
  grant_membership : String → String → String → Request
  update_membership : String → String → Option Roles → Option Bool → ℕ → Request
  disable_membership : String → String → ℕ → Request
  revoke_membership_role : String → String → String → ℕ → Request
  create_delegation : String → String → String → String → Request
  update_delegation : String → Bool → ℕ → Request
  revoke_delegation : String → ℕ → Request
  create_channel_binding : String → String → String → String → Request
  disable_channel_binding : String → String → Request
  remove_channel_binding : String → String → Request
  register_tenant_route : String → RouteValues → Bool → Request
  configure_token_lifetime_days : String → PrincipalKind → ℕ → Bool → Request
  issue_access_token : Fresh → String → String → Option ℤ → ℕ → Request
  issue_delegated_access_token : Fresh → String → Option ℤ → ℕ → Request
  rotate_access_token : Fresh → String → ℤ → Option ℤ → ℕ → Request
  revoke_access_token : String → ℕ → Request
  authenticate : String → ℕ → Request

abbrev pub forget : {A : Type 0} → Result A → Result Nothing
forget (ok a) = ok tt
forget (err x) = err x

abbrev pub discard : {S A : Type 0} → Exec S A → Exec S Nothing
discard m s = let (r, s') = m s in (forget r, s')

module _ (digest : String → Bytes) (is_decimal : String → Bool) where
  -- the call, with nothing for its result
  unfoldable pub perform : Request → Exec Identities Nothing
  perform (create_tenant id name) = discard (Accounts.create_tenant id name)
  perform (create_principal id name kind) = discard (Accounts.create_principal id name kind)
  perform (update_principal id name active now) =
      discard (Accounts.update_principal id name active now)
  perform (disable_principal id now) = discard (Accounts.disable_principal id now)
  perform (grant_membership t p role) = discard (Accounts.grant_membership t p role)
  perform (update_membership t p roles active now) =
      discard (Accounts.update_membership t p roles active now)
  perform (disable_membership t p now) = discard (Accounts.disable_membership t p now)
  perform (revoke_membership_role t p role now) =
      discard (Accounts.revoke_membership_role t p role now)
  perform (create_delegation id t a u) = discard (Delegations.create_delegation id t a u)
  perform (update_delegation id active now) = discard (Delegations.update_delegation id active now)
  perform (revoke_delegation id now) = discard (Delegations.revoke_delegation id now)
  perform (create_channel_binding id channel external_id d) =
      discard (Delegations.create_channel_binding is_decimal id channel external_id d)
  perform (disable_channel_binding channel external_id) =
      discard (Delegations.disable_channel_binding channel external_id)
  perform (remove_channel_binding channel external_id) =
      discard (Delegations.remove_channel_binding channel external_id)
  perform (register_tenant_route t values healthy) =
      discard (Routes.register_tenant_route t values healthy)
  perform (configure_token_lifetime_days t kind days delegated) =
      discard (Records.configure_token_lifetime_days t kind days delegated)
  perform (issue_access_token fresh t p lifetime now) =
      discard (Access.issue_access_token digest fresh t p lifetime now)
  perform (issue_delegated_access_token fresh d lifetime now) =
      discard (Access.issue_delegated_access_token digest fresh d lifetime now)
  perform (rotate_access_token fresh id overlap lifetime now) =
      discard (Access.rotate_access_token digest fresh id overlap lifetime now)
  perform (revoke_access_token id now) = discard (Access.revoke_access_token digest id now)
  perform (authenticate text now) = discard (Access.authenticate digest text now)

  -- from an empty store, by any sequence of calls
  pub data IsReachable : Identities → Type 0 where
    start : IsReachable init
    then_call : {s : Identities} (c : Request) → IsReachable s → IsReachable (perform c s).1
