-- ===== src/Control/Reachable/Sound.antt =====
-- control.py: every reachable Control Store is sound, so that whatever it authenticates is authorised.
use coengram.Prelude.{ℕ, String, string_eq, pair_eq, bool_eq, ◌≡◌, Bool, inl, inr, ◌⊎◌, arith}
use coengram.Dict
use coengram.Dict.{Dict}
use coengram.Models.{PrincipalKind, kind_eq}
use coengram.Auth.{Bytes}
use coengram.Control.Identities.{Identities, TenantRouteRecord, init}
use coengram.Control.Routes.{RouteValues, register_tenant_route}
use coengram.Control.Reachable.{
  Request, IsReachable, start, then_call, perform, create_tenant, create_principal,
  update_principal, disable_principal, grant_membership, update_membership, disable_membership,
  revoke_membership_role, create_delegation, update_delegation, revoke_delegation,
  create_channel_binding, disable_channel_binding, remove_channel_binding, issue_access_token,
  issue_delegated_access_token, rotate_access_token, revoke_access_token, authenticate,
  configure_token_lifetime_days,
}
use coengram.Control.Reachable as Calls
use coengram.Control.Soundness.{IsSound, has_actor, has_roles, has_delegation, is_backed, is_bound}
use coengram.Control.Soundness.Accounts as Keeps
use coengram.Control.Soundness.Disable as Disables
use coengram.Control.Soundness.Delegations as Delegates
use coengram.Control.Soundness.Access as Accesses
use coengram.Control.Soundness.Rotation as Rotates

init-IsSound : IsSound init
unfolding Dict.get Dict.lookup
init-IsSound = record {
  tokens_actor = λ k r g l. absurd (ground (arith, g));
  tokens_roles = λ k r g l. absurd (ground (arith, g));
  tokens_delegation = λ k r g l. absurd (ground (arith, g));
  delegations_backed = λ k r g l. absurd (ground (arith, g));
  bindings_bound = λ k r g l. absurd (ground (arith, g));
  memberships_keyed = λ k r g. absurd (ground (arith, g));
  delegations_keyed = λ k r g. absurd (ground (arith, g));
}

-- The routes and the lifetimes are not part of the invariant.
settings-IsSound :
    (s : Identities) (rs : Dict String TenantRouteRecord)
    → (ds : Dict (String × (PrincipalKind × Bool)) ℕ) → IsSound s
    → IsSound (record s { routes = rs; token_lifetime_days = ds })
unfolding has_actor has_roles has_delegation is_backed is_bound
settings-IsSound s rs ds h = record {
  tokens_actor = h.tokens_actor;
  tokens_roles = h.tokens_roles;
  tokens_delegation = h.tokens_delegation;
  delegations_backed = h.delegations_backed;
  bindings_bound = h.bindings_bound;
  memberships_keyed = h.memberships_keyed;
  delegations_keyed = h.delegations_keyed;
}

register_tenant_route_cases :
    (t : String) (v : RouteValues) (b : Bool) (s : Identities)
    → ((register_tenant_route t v b s).1 ≡ s)
      ⊎ ((r : TenantRouteRecord) × ((register_tenant_route t v b s).1
            ≡ record s { routes = Dict.put s.routes t r }))
unfolding register_tenant_route
register_tenant_route_cases t v b s = grind arith

register_tenant_route-IsSound :
    (t : String) (v : RouteValues) (b : Bool) (s : Identities)
    → IsSound s
    → IsSound (register_tenant_route t v b s).1
register_tenant_route-IsSound t v b s h = elim (register_tenant_route_cases t v b s) [
  | inl same ↦ rw same h
  | inr (r, made) ↦ rw made (settings-IsSound s _ s.token_lifetime_days h)
]

module _ (digest : String → Bytes) (is_decimal : String → Bool) where
  -- Whatever a method does, and whether it returns or raises, it leaves a sound store sound.
  pub perform-IsSound :
      (c : Request) (s : Identities) → IsSound s → IsSound (perform digest is_decimal c s).1
  unfolding perform
  perform-IsSound (create_tenant id name) s h = Keeps.create_tenant-IsSound id name s h
  perform-IsSound (create_principal id name kind) s h =
      Keeps.create_principal-IsSound id name kind s h
  perform-IsSound (update_principal id name active now) s h =
      Keeps.update_principal-IsSound id name active now s h
  perform-IsSound (disable_principal id now) s h = Disables.disable_principal-IsSound id now s h
  perform-IsSound (grant_membership t p role) s h = Keeps.grant_membership-IsSound t p role s h
  perform-IsSound (update_membership t p roles active now) s h =
      Keeps.update_membership-IsSound t p roles active now s h
  perform-IsSound (disable_membership t p now) s h = Disables.disable_membership-IsSound t p now s h
  perform-IsSound (revoke_membership_role t p role now) s h =
      Keeps.revoke_membership_role-IsSound t p role now s h
  perform-IsSound (create_delegation id t a u) s h =
      Delegates.create_delegation-IsSound id t a u s h
  perform-IsSound (update_delegation id active now) s h =
      Delegates.update_delegation-IsSound id active now s h
  perform-IsSound (revoke_delegation id now) s h = Disables.revoke_delegation-IsSound id now s h
  perform-IsSound (create_channel_binding id ch ext d) s h =
      Delegates.create_channel_binding-IsSound is_decimal id ch ext d s h
  perform-IsSound (disable_channel_binding ch ext) s h =
      Delegates.disable_channel_binding-IsSound ch ext s h
  perform-IsSound (remove_channel_binding ch ext) s h =
      Delegates.delete_channel_binding-IsSound ch ext s h
  perform-IsSound (Calls.register_tenant_route t v b) s h = register_tenant_route-IsSound t v b s h
  perform-IsSound (configure_token_lifetime_days t kind days delegated) s h =
      settings-IsSound s s.routes _ h
  perform-IsSound (issue_access_token fresh t p lifetime now) s h =
      Accesses.issue_access_token-IsSound digest fresh t p lifetime now s h
  perform-IsSound (issue_delegated_access_token fresh d lifetime now) s h =
      Accesses.issue_delegated_access_token-IsSound digest fresh d lifetime now s h
  perform-IsSound (rotate_access_token fresh id overlap lifetime now) s h =
      Rotates.rotate_access_token-IsSound digest fresh id overlap lifetime now s h
  perform-IsSound (revoke_access_token id now) s h =
      Accesses.revoke_access_token-IsSound digest id now s h
  perform-IsSound (authenticate text now) s h = Accesses.authenticate-IsSound digest text now s h

  -- In every store that calls reach from the empty one, the actor of an unrevoked token is active, of the
  -- session's kind, and an active Member with the session's roles, and the session's Delegation grants it;
  -- an active Delegation has an active Agent and an active User, both active Members; an active Channel
  -- Binding is its active Delegation's; and Memberships and Delegations are stored under their own keys.
  pub IsReachable-IsSound : {s : Identities} → IsReachable digest is_decimal s → IsSound s
  IsReachable-IsSound start = init-IsSound
  IsReachable-IsSound (then_call {s} c r) = perform-IsSound c s (IsReachable-IsSound r)
