-- ===== src/Control/Soundness/Update.antt =====
-- control.py: the store's updates of Principals, Memberships and Delegations keep the identities
-- sound.
use text.Mathlib.TextEquality.{eq_iff}
use coengram.Prelude.{
  ℕ, String, ◌==◌, string_eq, option_eq, pair_eq, bool_eq, ◌≡◌, refl, ap, subst, Bool, true, false,
  not, ◌||◌, some, inl, inr, is_some, subset, same_set, arith, if◌then◌else◌, ◌⊎◌, subset_trans,
  Bool-cases, without, same_set-subset,
}
use coengram.Dict
use coengram.Dict.Laws.{get-put_self}
use coengram.Auth.{TokenRecord}
use coengram.Models.{Roles}
use coengram.Control.Identities.{
  Identities, PrincipalRecord, MembershipRecord, DelegationRecord, get_principal, get_membership,
  membership_key,
}
use coengram.Control.Identities.Revoke.{
  cut_principal, cut_membership, update_principal, disable_membership, update_membership,
  revoke_membership_role, revoke_matching_tokens, token_of_actor, involves_in,
}
use coengram.Control.Soundness.Kept.{kept_token}
use coengram.Control.Soundness.CutPrincipal.{cut_principal-IsSound}
use coengram.Control.Soundness.CutMembership.{cut_membership-IsSound}
use coengram.Control.Soundness.CutMembership as CutMembership
use coengram.Control.Soundness.Put.{
  put_membership-IsSound, put_principal-IsSound, revoke_matching_tokens-IsSound,
}
use coengram.Control.Soundness.Disable.{off_principal, off_membership, disable_membership-IsSound}
use coengram.Control.Soundness.{IsSound, has_roles, is_backed}

abbrev with_principal : String → PrincipalRecord → Identities → Identities
with_principal id p s = record s { principals = Dict.put s.principals id p }

abbrev with_membership : MembershipRecord → Identities → Identities
with_membership m s = record s { memberships = Dict.put s.memberships (membership_key m) m }

abbrev renamed : PrincipalRecord → String → Bool → PrincipalRecord
renamed c name active = record c { name = name; active = active }

update_principal_cases :
    (id name : String) (active : Bool) (now : ℕ) (s : Identities)
    → ((update_principal id name active now s).1 ≡ s)
      ⊎ ((c : PrincipalRecord) × (get_principal s id ≡ some c)
          × ((update_principal id name active now s).1
              ≡ with_principal id
                  (renamed c name active)
                  (if active then s else cut_principal id (off_principal c) now s)))
unfolding update_principal
update_principal_cases id name active now s = grind arith

cut_self :
    (id : String) (p : PrincipalRecord) (now : ℕ) (s : Identities)
    → get_principal (cut_principal id p now s) id ≡ some p
unfolding cut_principal
cut_self id p now s = get-put_self s.principals id p

pub update_principal-IsSound :
    (id name : String) (active : Bool) (now : ℕ) (s : Identities)
    → IsSound s
    → IsSound (update_principal id name active now s).1
update_principal-IsSound id name true now s h = elim (update_principal_cases id name true now s) [
  | inl same ↦ rw same h
  | inr (c, found, made) ↦
      rw made
        (put_principal-IsSound s h id (renamed c name true) (λ q g. (ground arith, λ _. refl)))
]
update_principal-IsSound id name false now s h = elim (update_principal_cases id name false now s) [
  | inl same ↦ rw same h
  | inr (c, found, made) ↦
      let off = off_principal c in
      rw made (
        put_principal-IsSound (cut_principal id off now s) (cut_principal-IsSound id off now s h) id
          (renamed c name false)
          (λ q g. (
            ground (arith, cut_self id off now s, g),
            λ on. ground (arith, cut_self id off now s, g),
          )))
]

-- The last step of `update_membership`: the tokens go if the roles or the activity change.
abbrev changed : MembershipRecord → MembershipRecord → Bool
changed updated current =
    not (same_set updated.roles current.roles) || not (updated.active == current.active)

abbrev settle : String → String → MembershipRecord → MembershipRecord → ℕ → Identities → Identities
settle t id updated current now s =
    if changed updated current then revoke_matching_tokens (token_of_actor t id) now s else s

abbrev with_roles : MembershipRecord → Roles → MembershipRecord
with_roles m roles = record m { roles = roles }

abbrev write_membership : String → String → MembershipRecord → Identities → Identities
write_membership t id m s = record s { memberships = Dict.put s.memberships (t, id) m }

update_membership_cases :
    (m : MembershipRecord) (now : ℕ) (s : Identities)
    → let t = m.tenant_id in
      let id = m.principal_id in
      ((update_membership m now s).1 ≡ s)
      ⊎ ((c : MembershipRecord) × (get_membership s t id ≡ some c)
          × (m.active ≡ true)
          × ((update_membership m now s).1 ≡ settle t id m c now (write_membership t id m s)))
      ⊎ ((c : MembershipRecord) × (get_membership s t id ≡ some c)
          × ((update_membership m now s).1
              ≡ settle t id (with_roles (off_membership c) m.roles) c now (
                  write_membership t id
                    (with_roles (off_membership c) m.roles)
                    (cut_membership t id (off_membership c) now s))))
unfolding update_membership
update_membership_cases m now s = ground arith

-- The roles of an unrevoked token are among those of its Membership.
token-roles :
    (s : Identities) (h : IsSound s) (t id : String) (c : MembershipRecord)
    → get_membership s t id ≡ some c
    → (j : String) (r : TokenRecord) → Dict.get s.tokens j ≡ some r
    → is_some r.revoked_at ≡ false
    → token_of_actor t id r ≡ true
    → (c.active ≡ true) × (subset r.session.roles c.roles ≡ true)
unfolding has_roles
token-roles s h t id c found j r g l on = ground (
  arith,
  h.tokens_roles j r g l,
  found,
  eq_iff r.session.tenant_id t,
  eq_iff r.session.actor_id id,
)

-- An active Membership may replace the one that is there if the tokens go where the roles change.
settle_active :
    (m c : MembershipRecord) (now : ℕ) (s : Identities)
    → IsSound s
    → get_membership s m.tenant_id m.principal_id ≡ some c
    → m.active ≡ true
    → IsSound (
        settle m.tenant_id m.principal_id m c now (write_membership m.tenant_id m.principal_id m s))
settle_active m c now s h found on = elim (Bool-cases (changed m c)) [
  | inl yes' ↦
      let p = token_of_actor m.tenant_id m.principal_id in
      rw yes' (
        put_membership-IsSound (revoke_matching_tokens p now s)
          (revoke_matching_tokens-IsSound s h p now) m
          (λ j r g l act. absurd (ground (arith, kept_token p now s.tokens j r g l)))
          (λ j d g l act. on))
  | inr no' ↦ rw no' (
      put_membership-IsSound s h m
        (λ j r g l act.
          let (_, sub) = token-roles s h m.tenant_id m.principal_id c found j r g l act in
          (
            on,
            subset_trans r.session.roles c.roles m.roles sub
                (same_set-subset m.roles c.roles (ground arith)),
          ))
        (λ j d g l act. on))
]

settle-IsSound :
    (t id : String) (m c : MembershipRecord) (now : ℕ) (s : Identities)
    → IsSound s
    → IsSound (settle t id m c now s)
settle-IsSound t id m c now s h = elim (Bool-cases (changed m c)) [
  | inl yes' ↦ rw yes' (revoke_matching_tokens-IsSound s h (token_of_actor t id) now)
  | inr no' ↦ rw no' h
]

-- After a Membership is cut, any inactive record may replace it.
write_cut :
    (t id : String) (c : MembershipRecord) (roles : Roles) (now : ℕ) (s : Identities)
    → IsSound s
    → membership_key c ≡ (t, id)
    → IsSound (
        write_membership t id
          (with_roles (off_membership c) roles)
          (cut_membership t id (off_membership c) now s))
write_cut t id c roles now s h key =
    let off = off_membership c in
    let cut = cut_membership t id off now s in
    subst
      (λ k.
        IsSound (record cut { memberships = Dict.put cut.memberships k (with_roles off roles) }))
      key
      (put_membership-IsSound cut (cut_membership-IsSound t id off now s h key)
        (with_roles off roles)
        (λ j r g l act. absurd (
          ground (
            arith,
            CutMembership.kept t id off now s h key j r g l,
            ap (λ x. x.0) key,
            ap (λ x. x.1) key,
          )))
        (λ j d g l act. absurd (
          ground (
            arith,
            CutMembership.kept_delegation t id off now s h key j d g l,
            ap (λ x. x.0) key,
            ap (λ x. x.1) key,
          ))))

pub update_membership-IsSound :
    (m : MembershipRecord) (now : ℕ) (s : Identities)
    → IsSound s
    → IsSound (update_membership m now s).1
update_membership-IsSound m now s h = elim (update_membership_cases m now s) [
  | inl same ↦ rw same h
  | inr (inl (c, found, on, made)) ↦ rw made (settle_active m c now s h found on)
  | inr (inr (c, found, made)) ↦ rw made (
      settle-IsSound m.tenant_id m.principal_id (with_roles (off_membership c) m.roles) c now _ (
        write_cut m.tenant_id m.principal_id c m.roles now s h
          (h.memberships_keyed (m.tenant_id, m.principal_id) c found)))
]

revoke_role_cases :
    (t id role : String) (now : ℕ) (s : Identities)
    → ((revoke_membership_role t id role now s).1 ≡ s)
      ⊎ ((revoke_membership_role t id role now s).1 ≡ (disable_membership t id now s).1)
      ⊎ ((c : MembershipRecord) × (get_membership s t id ≡ some c)
          × ((revoke_membership_role t id role now s).1
              ≡ revoke_matching_tokens
                  (token_of_actor t id)
                  now
                  (write_membership t id (with_roles c (without role c.roles)) s)))
unfolding revoke_membership_role
revoke_role_cases t id role now s = ground arith

-- A Membership on which an active Delegation rests is active.
delegation-active :
    (s : Identities) (h : IsSound s) (t id : String) (c : MembershipRecord)
    → get_membership s t id ≡ some c
    → (j : String) (d : DelegationRecord) → Dict.get s.delegations j ≡ some d
    → d.active ≡ true
    → involves_in t id d ≡ true
    → c.active ≡ true
unfolding is_backed
delegation-active s h t id c found j d g l on = ground (
  arith,
  h.delegations_backed j d g l,
  found,
  eq_iff d.tenant_id t,
  eq_iff d.agent_id id,
  eq_iff d.subject_user_id id,
)

-- The roles of a Membership may be changed once its tokens are revoked.
write_revoked :
    (t id : String) (c : MembershipRecord) (roles : Roles) (now : ℕ) (s : Identities)
    → IsSound s
    → get_membership s t id ≡ some c
    → IsSound (
        revoke_matching_tokens
          (token_of_actor t id)
          now
          (write_membership t id (with_roles c roles) s))
write_revoked t id c roles now s h found =
    let p = token_of_actor t id in
    let key = h.memberships_keyed (t, id) c found in
    let cut = revoke_matching_tokens p now s in
    subst
      (λ k. IsSound (record cut { memberships = Dict.put cut.memberships k (with_roles c roles) }))
      key
      (put_membership-IsSound cut (revoke_matching_tokens-IsSound s h p now) (with_roles c roles)
        (λ j r g l act.
          absurd (
            ground
              (arith, kept_token p now s.tokens j r g l, ap (λ x. x.0) key, ap (λ x. x.1) key)))
        (λ j d g l act.
          delegation-active s h t id c found j d g l
            (ground (arith, ap (λ x. x.0) key, ap (λ x. x.1) key))))

pub revoke_membership_role-IsSound :
    (t id role : String) (now : ℕ) (s : Identities)
    → IsSound s
    → IsSound (revoke_membership_role t id role now s).1
revoke_membership_role-IsSound t id role now s h = elim (revoke_role_cases t id role now s) [
  | inl same ↦ rw same h
  | inr (inl cut) ↦ rw cut (disable_membership-IsSound t id now s h)
  | inr (inr (c, found, made)) ↦ rw made (write_revoked t id c (without role c.roles) now s h found)
]
