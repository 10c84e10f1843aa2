-- ===== src/Control/Soundness/Accounts.antt =====
-- control.py: every method on Tenants, Principals and Memberships keeps the identities sound.
use text.Mathlib.TextEquality.{eq_iff}
use coengram.Prelude.{
  ℕ, String, string_eq, option_eq, pair_eq, ◌≡◌, refl, Bool, true, not, Option, none, some, inl,
  inr, subset, arith, contains, subset_iff, subset_trans, Option-cases, with_element, ◌⊎◌,
  contains-with_element,
}
use coengram.Dict
use coengram.Dict.{Dict}
use coengram.Exec.{value_error, raise_if}
use coengram.Exec.Reads.{reads_then}
use coengram.Models.{PrincipalKind, Roles, TenantSession}
use coengram.Control.Identities.{
  Identities, TenantRecord, MembershipRecord, get_principal, get_membership, membership_key,
}
use coengram.Control.Accounts.{
  create_tenant, create_principal, update_principal, grant_membership, granted_roles,
  update_membership, revoke_membership_role, select_principal, select_membership, valid_roles,
}
use coengram.Control.Identities.Revoke as Store
use coengram.Control.Soundness.Update
use coengram.Control.Soundness.Put.{put_membership-IsSound, put_principal-IsSound}
use coengram.Control.Soundness.{IsSound, has_actor, has_roles, has_delegation, is_backed, is_bound}

-- Granting a role takes none away.
granted_roles-subset :
    (role : String) (m : MembershipRecord) → subset m.roles (granted_roles role (some m)) ≡ true
granted_roles-subset role m =
    (subset_iff m.roles (granted_roles role (some m))).1
      (λ a c. ground (arith, contains-with_element a role m.roles))

-- The record that `grant_membership` writes.
abbrev granted : String → String → String → Identities → MembershipRecord
granted t p role s = record {
  tenant_id = t;
  principal_id = p;
  roles = granted_roles role (get_membership s t p);
  active = true;
}

abbrev with_membership : Identities → MembershipRecord → Identities
with_membership s m = record s { memberships = Dict.put s.memberships (membership_key m) m }

grant_membership_cases :
    (t p role : String) (s : Identities)
    → ((grant_membership t p role s).1 ≡ s)
      ⊎ ((grant_membership t p role s).1 ≡ with_membership s (granted t p role s))
unfolding grant_membership
grant_membership_cases t p role s = ground arith

granted-subset :
    (t p role : String) (s : Identities) (x : TenantSession)
    → has_roles s x ≡ true
    → x.tenant_id ≡ t
    → x.actor_id ≡ p
    → subset x.roles (granted t p role s).roles ≡ true
unfolding has_roles
granted-subset t p role s x h et ep = elim (Option-cases (get_membership s t p)) [
  | inl none' ↦ ground (arith, et, ep)
  | inr (m, found) ↦ rw found (
      subset_trans x.roles m.roles (with_element role m.roles) (ground (arith, et, ep))
        (granted_roles-subset role m))
]

pub grant_membership-IsSound :
    (t p role : String) (s : Identities) → IsSound s → IsSound (grant_membership t p role s).1
grant_membership-IsSound t p role s h = elim (grant_membership_cases t p role s) [
  | inl same ↦ rw same h
  | inr written ↦ rw written (
      put_membership-IsSound s h (granted t p role s)
        (λ j r g l on. (
          refl,
          granted-subset t p role s r.session (h.tokens_roles j r g l)
              (ground (arith, eq_iff r.session.tenant_id t))
              (ground (arith, eq_iff r.session.actor_id p)),
        ))
        (λ j d g l on. refl))
]

-- The Tenants are not part of the invariant: authentication reads them anew.
tenants-IsSound :
    (s : Identities) (ts : Dict String TenantRecord)
    → IsSound s
    → IsSound (record s { tenants = ts })
unfolding has_actor has_roles has_delegation is_backed is_bound
tenants-IsSound s ts h = record {
  tokens_actor = h.tokens_actor;
  tokens_roles = h.tokens_roles;
  tokens_delegation = h.tokens_delegation;
  delegations_backed = h.delegations_backed;
  bindings_bound = h.bindings_bound;
  memberships_keyed = h.memberships_keyed;
  delegations_keyed = h.delegations_keyed;
}

create_tenant_cases :
    (id name : String) (s : Identities)
    → let t : TenantRecord = record { tenant_id = id; name = name; active = true } in
      ((create_tenant id name s).1 ≡ s)
      ⊎ ((create_tenant id name s).1 ≡ record s { tenants = Dict.put s.tenants id t })
unfolding create_tenant
create_tenant_cases id name s = ground arith

pub create_tenant-IsSound :
    (id name : String) (s : Identities) → IsSound s → IsSound (create_tenant id name s).1
create_tenant-IsSound id name s h = elim (create_tenant_cases id name s) [
  | inl same ↦ rw same h
  | inr made ↦ rw made (tenants-IsSound s _ h)
]

create_principal_cases :
    (id name kind : String) (s : Identities)
    → ((create_principal id name kind s).1 ≡ s)
      ⊎ ((k : PrincipalKind) × (get_principal s id ≡ none)
          × ((create_principal id name kind s).1 ≡ record s {
            principals =
                Dict.put s.principals id
                  (record { principal_id = id; name = name; kind = k; active = true });
          }))
unfolding create_principal
create_principal_cases id name kind s = grind arith

pub create_principal-IsSound :
    (id name kind : String) (s : Identities)
    → IsSound s
    → IsSound (create_principal id name kind s).1
create_principal-IsSound id name kind s h = elim (create_principal_cases id name kind s) [
  | inl same ↦ rw same h
  | inr (k, absent, made) ↦
      rw made (put_principal-IsSound s h id _ (λ q found. absurd (ground (arith, absent, found))))
]

select_principal_reads :
    (id : String) (name : Option String) (active : Option Bool) (s : Identities)
    → (select_principal id name active s).1 ≡ s
unfolding select_principal
select_principal_reads id name active s = ground arith

pub update_principal-IsSound :
    (id : String) (name : Option String) (active : Option Bool) (now : ℕ) (s : Identities)
    → IsSound s
    → IsSound (update_principal id name active now s).1
unfolding update_principal
update_principal-IsSound id name active now s h =
    reads_then IsSound (select_principal id name active)
      (λ x. Store.update_principal id x.0 x.1 now) s (select_principal_reads id name active s) h
      (λ x _. Update.update_principal-IsSound id x.0 x.1 now s h)

select_membership_reads :
    (t id : String) (roles : Option Roles) (active : Option Bool) (s : Identities)
    → (select_membership t id roles active s).1 ≡ s
unfolding select_membership
select_membership_reads t id roles active s = ground arith

pub update_membership-IsSound :
    (t id : String) (roles : Option Roles) (active : Option Bool) (now : ℕ) (s : Identities)
    → IsSound s
    → IsSound (update_membership t id roles active now s).1
unfolding update_membership
update_membership-IsSound t id roles active now s h =
    reads_then IsSound (select_membership t id roles active) (λ m. Store.update_membership m now) s
      (select_membership_reads t id roles active s) h
      (λ m _. Update.update_membership-IsSound m now s h)

pub revoke_membership_role-IsSound :
    (t id role : String) (now : ℕ) (s : Identities)
    → IsSound s
    → IsSound (revoke_membership_role t id role now s).1
unfolding revoke_membership_role
revoke_membership_role-IsSound t id role now s h =
    reads_then IsSound (raise_if (not (contains role valid_roles)) (value_error "Unknown role"))
      (λ _. Store.revoke_membership_role t id role now) s (ground arith) h
      (λ _ _. Update.revoke_membership_role-IsSound t id role now s h)
