-- ===== src/Control/Soundness/CutMembership.antt =====
-- control.py: disabling a Membership and revoking a Delegation keep the identities sound.
use text.Mathlib.TextEquality.{eq_iff}
use coengram.Prelude.{
  ℕ, String, ◌==◌, string_eq, option_eq, pair_eq, ◌≡◌, refl, true, false, ◌&&◌, some, is_some,
  arith,
}
use coengram.Dict
use coengram.Dict.Laws.{dict_laws}
use coengram.Auth.{TokenRecord}
use coengram.Control.Identities.{
  Identities, MembershipRecord, DelegationRecord, ChannelBindingRecord, get_principal,
  get_membership, membership_key,
}
use coengram.Control.Identities.Revoke.{
  cut_membership, cut_delegation, token_in_tenant, token_of_delegation, involves_in,
}
use coengram.Control.Soundness.Kept.{kept_token}
use coengram.Control.Soundness.{IsSound, has_actor, has_roles, has_delegation, is_backed, is_bound}

module _ (t id : String) (m : MembershipRecord) (now : ℕ) (s : Identities) (h : IsSound s)
    (keyed : membership_key m ≡ (t, id)) where
  pub kept :
      (k : String) (r : TokenRecord)
      → Dict.get (cut_membership t id m now s).tokens k ≡ some r
      → is_some r.revoked_at ≡ false
      → (Dict.get s.tokens k ≡ some r) × (token_in_tenant t id r ≡ false)
  unfolding cut_membership
  kept = kept_token (token_in_tenant t id) now s.tokens

  pub kept_delegation :
      (k : String) (d : DelegationRecord)
      → Dict.get (cut_membership t id m now s).delegations k ≡ some d
      → d.active ≡ true
      → (Dict.get s.delegations k ≡ some d) × (involves_in t id d ≡ false)
  unfolding cut_membership
  kept_delegation k d g l = grind (arith, dict_laws)

  other_membership :
      (u x : String)
      → (u == t && x == id) ≡ false
      → get_membership (cut_membership t id m now s) u x ≡ get_membership s u x
  unfolding cut_membership
  other_membership u x ne =
      simp dict_laws (ground (arith, eq_iff x id, eq_iff id x, eq_iff u t, eq_iff t u))

  same_principal : (x : String) → get_principal (cut_membership t id m now s) x ≡ get_principal s x
  unfolding cut_membership
  same_principal x = refl

  tokens_roles :
      (k : String) (r : TokenRecord)
      → Dict.get (cut_membership t id m now s).tokens k ≡ some r
      → is_some r.revoked_at ≡ false
      → has_roles (cut_membership t id m now s) r.session ≡ true
  unfolding has_roles
  tokens_roles k r g l =
      let (old, other) = kept k r g l in
      ground
        (arith, h.tokens_roles k r old l, other_membership r.session.tenant_id r.session.actor_id)

  tokens_delegation :
      (k : String) (r : TokenRecord)
      → Dict.get (cut_membership t id m now s).tokens k ≡ some r
      → is_some r.revoked_at ≡ false
      → has_delegation (cut_membership t id m now s) r.session ≡ true
  unfolding cut_membership has_delegation
  tokens_delegation k r g l =
      let (old, other) = kept k r g l in
      simp dict_laws (grind (arith, dict_laws, h.tokens_delegation k r old l, eq_iff))

  delegations_backed :
      (k : String) (d : DelegationRecord)
      → Dict.get (cut_membership t id m now s).delegations k ≡ some d
      → d.active ≡ true
      → is_backed (cut_membership t id m now s) d ≡ true
  unfolding is_backed
  delegations_backed k d g l =
      let (old, other) = kept_delegation k d g l in
      ground (
        arith,
        h.delegations_backed k d old l,
        same_principal d.agent_id,
        same_principal d.subject_user_id,
        other_membership d.tenant_id d.agent_id,
        other_membership d.tenant_id d.subject_user_id,
      )

  bindings_bound :
      (k : String × String) (b : ChannelBindingRecord)
      → Dict.get (cut_membership t id m now s).channel_bindings k ≡ some b
      → b.active ≡ true
      → is_bound (cut_membership t id m now s) b ≡ true
  unfolding cut_membership is_bound
  bindings_bound k b g l = grind (arith, dict_laws, h.bindings_bound, eq_iff)

  memberships_keyed :
      (k : String × String) (n : MembershipRecord)
      → Dict.get (cut_membership t id m now s).memberships k ≡ some n
      → membership_key n ≡ k
  unfolding cut_membership
  memberships_keyed k n g = grind (arith, dict_laws, h.memberships_keyed, eq_iff)

  delegations_keyed :
      (k : String) (d : DelegationRecord)
      → Dict.get (cut_membership t id m now s).delegations k ≡ some d
      → d.delegation_id ≡ k
  unfolding cut_membership
  delegations_keyed k d g = grind (arith, dict_laws, h.delegations_keyed)

  pub cut_membership-IsSound : IsSound (cut_membership t id m now s)
  unfolding cut_membership has_actor
  cut_membership-IsSound = record {
    tokens_actor = λ k r g l. h.tokens_actor k r (kept k r g l).0 l;
    tokens_roles = tokens_roles;
    tokens_delegation = tokens_delegation;
    delegations_backed = delegations_backed;
    bindings_bound = bindings_bound;
    memberships_keyed = memberships_keyed;
    delegations_keyed = delegations_keyed;
  }

module _ (id : String) (c : DelegationRecord) (now : ℕ) (s : Identities) (h : IsSound s) where
  kept_by_delegation :
      (k : String) (r : TokenRecord)
      → Dict.get (cut_delegation id c now s).tokens k ≡ some r
      → is_some r.revoked_at ≡ false
      → (Dict.get s.tokens k ≡ some r) × (token_of_delegation id r ≡ false)
  unfolding cut_delegation
  kept_by_delegation = kept_token (token_of_delegation id) now s.tokens

  pub cut_delegation-IsSound :
      c.delegation_id ≡ id → c.active ≡ false → IsSound (cut_delegation id c now s)
  unfolding cut_delegation has_actor has_roles has_delegation is_backed is_bound
  cut_delegation-IsSound keyed off = record {
    tokens_actor = λ k r g l. h.tokens_actor k r (kept_by_delegation k r g l).0 l;
    tokens_roles = λ k r g l. h.tokens_roles k r (kept_by_delegation k r g l).0 l;
    tokens_delegation = λ k r g l.
        grind (arith, dict_laws, h.tokens_delegation k r, kept_by_delegation k r g l, eq_iff);
    delegations_backed = λ k d g l. grind (arith, dict_laws, h.delegations_backed k d);
    bindings_bound = λ k b g l. grind (arith, dict_laws, h.bindings_bound, eq_iff);
    memberships_keyed = h.memberships_keyed;
    delegations_keyed = λ k d g. grind (arith, dict_laws, h.delegations_keyed, eq_iff);
  }
