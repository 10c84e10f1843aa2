-- ===== src/Control/Soundness/Put.antt =====
-- control.py: the writes of single records, and the conditions under which they keep the identities
-- sound.
use text.Mathlib.TextEquality.{eq_iff}
use coengram.Prelude.{
  ℕ, String, string_eq, option_eq, pair_eq, ◌≡◌, Bool, true, false, some, inl, inr, is_some, subset,
  arith,
}
use coengram.Dict
use coengram.Dict.Laws.{dict_laws, get-put_cases}
use coengram.Auth.{TokenRecord}
use coengram.Models.{kind_eq}
use coengram.Control.Identities.{
  Identities, PrincipalRecord, MembershipRecord, DelegationRecord, ChannelBindingRecord,
  get_principal, get_delegation, membership_key,
}
use coengram.Control.Identities.Revoke.{revoke_matching_tokens, involves_in, token_of_actor}
use coengram.Control.Soundness.Kept.{kept_token}
use coengram.Control.Soundness.{IsSound, has_actor, has_roles, has_delegation, is_backed, is_bound}

module _ (s : Identities) (h : IsSound s) where
  -- Revoking tokens is always sound.
  pub revoke_matching_tokens-IsSound :
      (p : TokenRecord → Bool) (now : ℕ) → IsSound (revoke_matching_tokens p now s)
  unfolding has_actor has_roles has_delegation is_backed is_bound
  revoke_matching_tokens-IsSound p now = record {
    tokens_actor = λ k r g l. h.tokens_actor k r (kept_token p now s.tokens k r g l).0 l;
    tokens_roles = λ k r g l. h.tokens_roles k r (kept_token p now s.tokens k r g l).0 l;
    tokens_delegation = λ k r g l. h.tokens_delegation k r (kept_token p now s.tokens k r g l).0 l;
    delegations_backed = h.delegations_backed;
    bindings_bound = h.bindings_bound;
    memberships_keyed = h.memberships_keyed;
    delegations_keyed = h.delegations_keyed;
  }

  -- A token may be written if it is revoked, or if its session is authorised.
  pub put_token-IsSound :
      (k : String) (r : TokenRecord)
      → (is_some r.revoked_at ≡ false
          → (has_actor s r.session ≡ true)
            × (has_roles s r.session ≡ true)
            × (has_delegation s r.session ≡ true))
      → IsSound (record s { tokens = Dict.put s.tokens k r })
  unfolding has_actor has_roles has_delegation is_backed is_bound
  put_token-IsSound k r ok = record {
    tokens_actor = λ j q g l. elim (get-put_cases s.tokens k j r q g) [
      | inl (_, same) ↦ rw (← same) (ok (rw same l)).0
      | inr old ↦ h.tokens_actor j q old l
    ];
    tokens_roles = λ j q g l. elim (get-put_cases s.tokens k j r q g) [
      | inl (_, same) ↦ rw (← same) (ok (rw same l)).1
      | inr old ↦ h.tokens_roles j q old l
    ];
    tokens_delegation = λ j q g l. elim (get-put_cases s.tokens k j r q g) [
      | inl (_, same) ↦ rw (← same) (ok (rw same l)).2
      | inr old ↦ h.tokens_delegation j q old l
    ];
    delegations_backed = h.delegations_backed;
    bindings_bound = h.bindings_bound;
    memberships_keyed = h.memberships_keyed;
    delegations_keyed = h.delegations_keyed;
  }

  -- A Principal may be written if it keeps its kind and is not deactivated.
  pub put_principal-IsSound :
      (k : String) (p : PrincipalRecord)
      → ((q : PrincipalRecord)
          → get_principal s k ≡ some q
          → (p.kind ≡ q.kind) × (q.active ≡ true → p.active ≡ true))
      → IsSound (record s { principals = Dict.put s.principals k p })
  unfolding has_actor has_roles has_delegation is_backed is_bound
  put_principal-IsSound k p ok = record {
    tokens_actor = λ j q g l. grind (arith, dict_laws, h.tokens_actor j q g l, ok, eq_iff);
    tokens_roles = h.tokens_roles;
    tokens_delegation = h.tokens_delegation;
    delegations_backed =
        λ j d g l. grind (arith, dict_laws, h.delegations_backed j d g l, ok, eq_iff);
    bindings_bound = h.bindings_bound;
    memberships_keyed = h.memberships_keyed;
    delegations_keyed = h.delegations_keyed;
  }

  -- A Membership may be written if the unrevoked tokens of its Principal have no other roles, and if
  -- it is active wherever an active Delegation rests on it.
  pub put_membership-IsSound :
      (m : MembershipRecord)
      → ((j : String) (r : TokenRecord)
          → Dict.get s.tokens j ≡ some r
          → is_some r.revoked_at ≡ false
          → token_of_actor m.tenant_id m.principal_id r ≡ true
          → (m.active ≡ true) × (subset r.session.roles m.roles ≡ true))
      → ((j : String) (d : DelegationRecord)
          → Dict.get s.delegations j ≡ some d
          → d.active ≡ true
          → involves_in m.tenant_id m.principal_id d ≡ true
          → m.active ≡ true)
      → IsSound (record s { memberships = Dict.put s.memberships (membership_key m) m })
  unfolding has_actor has_roles has_delegation is_backed is_bound
  put_membership-IsSound m tok del = record {
    tokens_actor = h.tokens_actor;
    tokens_roles = λ j r g l. simp dict_laws (
        ground (
          arith,
          h.tokens_roles j r g l,
          tok j r g l,
          eq_iff m.tenant_id r.session.tenant_id,
          eq_iff r.session.tenant_id m.tenant_id,
          eq_iff m.principal_id r.session.actor_id,
          eq_iff r.session.actor_id m.principal_id,
        ));
    tokens_delegation = h.tokens_delegation;
    delegations_backed = λ j d g l. simp dict_laws (
        ground (
          arith,
          h.delegations_backed j d g l,
          del j d g l,
          eq_iff m.tenant_id d.tenant_id,
          eq_iff d.tenant_id m.tenant_id,
          eq_iff m.principal_id d.agent_id,
          eq_iff d.agent_id m.principal_id,
          eq_iff m.principal_id d.subject_user_id,
          eq_iff d.subject_user_id m.principal_id,
        ));
    bindings_bound = h.bindings_bound;
    memberships_keyed = λ j n g. elim (get-put_cases s.memberships (membership_key m) j m n g) [
      | inl (at, same) ↦ rw (← same) at
      | inr old ↦ h.memberships_keyed j n old
    ];
    delegations_keyed = h.delegations_keyed;
  }

  -- A Delegation may be written under its identifier if it is backed and replaces none but itself.
  pub put_delegation-IsSound :
      (d : DelegationRecord)
      → is_backed s d ≡ true
      → ((c : DelegationRecord)
          → get_delegation s d.delegation_id ≡ some c
          → d ≡ record c { active = true })
      → d.active ≡ true
      → IsSound (record s { delegations = Dict.put s.delegations d.delegation_id d })
  unfolding has_actor has_roles has_delegation is_backed is_bound
  put_delegation-IsSound d backed same on = record {
    tokens_actor = h.tokens_actor;
    tokens_roles = h.tokens_roles;
    tokens_delegation =
        λ j r g l. grind (arith, dict_laws, h.tokens_delegation j r g l, same, eq_iff);
    delegations_backed = λ j c g l. elim (get-put_cases s.delegations d.delegation_id j d c g) [
      | inl (_, same) ↦ rw (← same) backed
      | inr old ↦ h.delegations_backed j c old l
    ];
    bindings_bound = λ j b g l. grind (arith, dict_laws, h.bindings_bound j b g l, same, eq_iff);
    memberships_keyed = h.memberships_keyed;
    delegations_keyed = λ j c g. elim (get-put_cases s.delegations d.delegation_id j d c g) [
      | inl (at, same) ↦ rw (← same) at
      | inr old ↦ h.delegations_keyed j c old
    ];
  }

  -- A Channel Binding may be written if it is bound, or is not active.
  pub put_binding-IsSound :
      (k : String × String) (b : ChannelBindingRecord)
      → (b.active ≡ true → is_bound s b ≡ true)
      → IsSound (record s { channel_bindings = Dict.put s.channel_bindings k b })
  unfolding has_actor has_roles has_delegation is_backed is_bound
  put_binding-IsSound k b ok = record {
    tokens_actor = h.tokens_actor;
    tokens_roles = h.tokens_roles;
    tokens_delegation = h.tokens_delegation;
    delegations_backed = h.delegations_backed;
    bindings_bound = λ j c g l. elim (get-put_cases s.channel_bindings k j b c g) [
      | inl (_, same) ↦ rw (← same) (ok (rw same l))
      | inr old ↦ h.bindings_bound j c old l
    ];
    memberships_keyed = h.memberships_keyed;
    delegations_keyed = h.delegations_keyed;
  }

  pub pop_binding-IsSound :
      (k : String × String)
      → IsSound (record s { channel_bindings = Dict.pop s.channel_bindings k })
  unfolding has_actor has_roles has_delegation is_backed is_bound
  pop_binding-IsSound k = record {
    tokens_actor = h.tokens_actor;
    tokens_roles = h.tokens_roles;
    tokens_delegation = h.tokens_delegation;
    delegations_backed = h.delegations_backed;
    bindings_bound = λ j c g l. grind (arith, dict_laws, h.bindings_bound);
    memberships_keyed = h.memberships_keyed;
    delegations_keyed = h.delegations_keyed;
  }
