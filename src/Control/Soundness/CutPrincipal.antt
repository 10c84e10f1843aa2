-- ===== src/Control/Soundness/CutPrincipal.antt =====
-- control.py: disabling a Principal keeps the identities sound.
use text.Mathlib.TextEquality.{eq_iff}
use coengram.Prelude.{
  ℕ, String, ◌==◌, string_eq, option_eq, pair_eq, ◌≡◌, true, false, some, is_some, arith,
}
use coengram.Dict
use coengram.Dict.{Dict}
use coengram.Dict.Laws.{dict_laws}
use coengram.Auth.{TokenRecord}
use coengram.Control.Identities.{
  Identities, PrincipalRecord, MembershipRecord, DelegationRecord, ChannelBindingRecord,
  get_principal, get_membership, membership_key,
}
use coengram.Control.Identities.Revoke.{cut_principal, token_of_principal, involves}
use coengram.Control.Soundness.Kept.{kept_token}
use coengram.Control.Soundness.{IsSound, has_actor, has_roles, has_delegation, is_backed, is_bound}

module _ (id : String) (p : PrincipalRecord) (now : ℕ) (s : Identities) (h : IsSound s) where
  kept :
      (k : String) (r : TokenRecord)
      → Dict.get (cut_principal id p now s).tokens k ≡ some r
      → is_some r.revoked_at ≡ false
      → (Dict.get s.tokens k ≡ some r) × (token_of_principal id r ≡ false)
  unfolding cut_principal
  kept = kept_token (token_of_principal id) now s.tokens

  tokens_actor :
      (k : String) (r : TokenRecord)
      → Dict.get (cut_principal id p now s).tokens k ≡ some r
      → is_some r.revoked_at ≡ false
      → has_actor (cut_principal id p now s) r.session ≡ true
  unfolding cut_principal has_actor
  tokens_actor k r g l =
      let (old, other) = kept k r g l in
      simp dict_laws (
        ground (
          arith,
          h.tokens_actor k r old l,
          eq_iff r.session.actor_id id,
          eq_iff id r.session.actor_id,
        ))

  tokens_roles :
      (k : String) (r : TokenRecord)
      → Dict.get (cut_principal id p now s).tokens k ≡ some r
      → is_some r.revoked_at ≡ false
      → has_roles (cut_principal id p now s) r.session ≡ true
  unfolding cut_principal has_roles
  tokens_roles k r g l =
      let (old, other) = kept k r g l in
      simp dict_laws (grind (arith, h.tokens_roles k r old l, h.memberships_keyed, eq_iff))

  tokens_delegation :
      (k : String) (r : TokenRecord)
      → Dict.get (cut_principal id p now s).tokens k ≡ some r
      → is_some r.revoked_at ≡ false
      → has_delegation (cut_principal id p now s) r.session ≡ true
  unfolding cut_principal has_delegation
  tokens_delegation k r g l =
      let (old, other) = kept k r g l in
      simp dict_laws (grind (arith, dict_laws, h.tokens_delegation k r old l, eq_iff))

  kept_delegation :
      (k : String) (d : DelegationRecord)
      → Dict.get (cut_principal id p now s).delegations k ≡ some d
      → d.active ≡ true
      → (Dict.get s.delegations k ≡ some d) × (involves id d ≡ false)
  unfolding cut_principal
  kept_delegation k d g l = grind (arith, dict_laws)

  other_principal :
      (x : String)
      → (x == id) ≡ false
      → get_principal (cut_principal id p now s) x ≡ get_principal s x
  unfolding cut_principal
  other_principal x ne = simp dict_laws (ground (arith, eq_iff x id, eq_iff id x))

  other_membership :
      (t x : String)
      → (x == id) ≡ false
      → get_membership (cut_principal id p now s) t x ≡ get_membership s t x
  unfolding cut_principal
  other_membership t x ne = simp dict_laws (grind (arith, h.memberships_keyed, eq_iff))

  delegations_backed :
      (k : String) (d : DelegationRecord)
      → Dict.get (cut_principal id p now s).delegations k ≡ some d
      → d.active ≡ true
      → is_backed (cut_principal id p now s) d ≡ true
  unfolding is_backed
  delegations_backed k d g l =
      let (old, other) = kept_delegation k d g l in
      ground (
        arith,
        h.delegations_backed k d old l,
        other_principal d.agent_id,
        other_principal d.subject_user_id,
        other_membership d.tenant_id d.agent_id,
        other_membership d.tenant_id d.subject_user_id,
      )

  bindings_bound :
      (k : String × String) (b : ChannelBindingRecord)
      → Dict.get (cut_principal id p now s).channel_bindings k ≡ some b
      → b.active ≡ true
      → is_bound (cut_principal id p now s) b ≡ true
  unfolding cut_principal is_bound
  bindings_bound k b g l = grind (arith, dict_laws, h.bindings_bound, eq_iff)

  memberships_keyed :
      (k : String × String) (m : MembershipRecord)
      → Dict.get (cut_principal id p now s).memberships k ≡ some m
      → membership_key m ≡ k
  unfolding cut_principal
  memberships_keyed k m g = grind (arith, dict_laws, h.memberships_keyed)

  delegations_keyed :
      (k : String) (d : DelegationRecord)
      → Dict.get (cut_principal id p now s).delegations k ≡ some d
      → d.delegation_id ≡ k
  unfolding cut_principal
  delegations_keyed k d g = grind (arith, dict_laws, h.delegations_keyed)

  pub cut_principal-IsSound : IsSound (cut_principal id p now s)
  cut_principal-IsSound = record {
    tokens_actor = tokens_actor;
    tokens_roles = tokens_roles;
    tokens_delegation = tokens_delegation;
    delegations_backed = delegations_backed;
    bindings_bound = bindings_bound;
    memberships_keyed = memberships_keyed;
    delegations_keyed = delegations_keyed;
  }
