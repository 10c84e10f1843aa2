-- ===== src/Control/Reachable/Revoked.antt =====
-- control.py: no session is given out any more for what was disabled or revoked.
use text.Mathlib.TextEquality.{eq_iff}
use coengram.Prelude.{
  ℕ, String, string_eq, option_eq, pair_eq, ◌≡◌, ◌≢◌, refl, Bool, true, false, some, inl, inr, ◌⊎◌,
  arith, ==_refl, ◌∙◌,
}
use coengram.Dict
use coengram.Dict.Laws.{dict_laws}
use coengram.Exec.{ok}
use coengram.Models.{TenantSession}
use coengram.Auth.{Bytes, TokenRecord}
use coengram.Control.Identities.{
  Identities, PrincipalRecord, MembershipRecord, DelegationRecord, get_delegation,
}
use coengram.Control.Identities.Revoke.{
  disable_principal, disable_membership, revoke_delegation, cut_principal, cut_membership,
  cut_delegation, revoke_record, token_of_principal, token_in_tenant, token_of_delegation,
}
use coengram.Control.Access.{authenticate}
use coengram.Control.Delegations.{resolve_channel_session}
use coengram.Control.Soundness.Kept.{kept_token}
use coengram.Control.Reachable.Authorised.{accepted, live}
use coengram.Control.Reachable.Resolved.{resolved}

module _ (digest : String → Bytes) where
  -- The store gives the session out, for an access token or for a channel's identity.
  abbrev pub Gives : Identities → TenantSession → Type 0
  Gives s x =
      ((text : String) × (now : ℕ) × ((authenticate digest text now s).0 ≡ ok x))
      ⊎ ((channel : String) × (external_id : String) × ((resolve_channel_session channel external_id
              s).0
            ≡ ok x))

  -- An accepted token was not among the ones revoked.
  spared :
      (p : TokenRecord → Bool) (at now : ℕ) (text : String) (s s' : Identities) (x : TenantSession)
      → s'.tokens ≡ Dict.map_items (λ k r. revoke_record p at r) s.tokens
      → (authenticate digest text now s').0 ≡ ok x
      → (r : TokenRecord) × (r.session ≡ x) × (p r ≡ false)
  spared p at now text s s' x cut accept =
      let (id, r, found, session, unrevoked) = accepted digest text now s' x accept in
      let (stored, _) = live digest id s' r found in
      (
        r,
        session,
        (kept_token p at s.tokens id r (rw (← cut) stored) (ground (arith, unrevoked))).1,
      )

disabled :
    (id : String) (now : ℕ) (s : Identities) (p : PrincipalRecord)
    → (disable_principal id now s).0 ≡ ok p
    → (disable_principal id now s).1 ≡ cut_principal id p now s
unfolding disable_principal
disabled id now s p h = ground arith

involved :
    (id : String) (s : Identities) (c : PrincipalRecord) (now : ℕ) (k : String)
    (d : DelegationRecord)
    → get_delegation (cut_principal id c now s) k ≡ some d
    → d.active ≡ true
    → (d.agent_id ≢ id) × (d.subject_user_id ≢ id)
unfolding cut_principal
involved id s c now k d found on = (
  λ same. grind (arith, dict_laws, eq_iff, ==_refl, same),
  λ same. grind (arith, dict_laws, eq_iff, ==_refl, same),
)

involved_in :
    (t id : String) (s : Identities) (c : MembershipRecord) (now : ℕ) (k : String)
    → (d : DelegationRecord) → get_delegation (cut_membership t id c now s) k ≡ some d
    → d.active ≡ true
    → d.tenant_id ≡ t
    → (d.agent_id ≢ id) × (d.subject_user_id ≢ id)
unfolding cut_membership
involved_in t id s c now k d found on at = (
  λ same. grind (arith, dict_laws, eq_iff, ==_refl, same),
  λ same. grind (arith, dict_laws, eq_iff, ==_refl, same),
)

module _ (digest : String → Bytes) where
  disabled_principal_session :
      (id : String) (now : ℕ) (s : Identities) (p : PrincipalRecord) (x : TenantSession)
      → Gives digest (cut_principal id p now s) x
      → (x.actor_id ≢ id) × (x.subject_user_id ≢ some id)
  unfolding cut_principal
  disabled_principal_session id now s p x (inl (text, later, accept)) =
      let s' = cut_principal id p now s in
      let (r, session, passed) =
        spared digest (token_of_principal id) now later text s s' x refl accept in
      rw (← session) (
        (λ same. grind (arith, eq_iff, ==_refl, same)),
        (λ same. grind (arith, eq_iff, ==_refl, same)),
      )
  disabled_principal_session id now s p x (inr (channel, external_id, res)) =
      let s' = cut_principal id p now s in
      let (b, d, m, found, on, _, a, u, _, _, same) = resolved channel external_id s' x res in
      let (not_agent, not_subject) = involved id s p now b.delegation_id d found on in
      rw same ((λ e. not_agent (a ∙ e)), (λ e. not_subject (grind (arith, u, e))))

  -- Once `disable_principal` has returned, the store gives out no session that acts as the Principal or
  -- for it, neither for an access token nor for a channel's identity.
  pub disable_principal-Gives :
      (id : String) (now : ℕ) (s : Identities) (p : PrincipalRecord) (x : TenantSession)
      → (disable_principal id now s).0 ≡ ok p
      → Gives digest (disable_principal id now s).1 x
      → (x.actor_id ≢ id) × (x.subject_user_id ≢ some id)
  disable_principal-Gives id now s p x done gives =
      disabled_principal_session id now s p x (rw (← disabled id now s p done) gives)

  disabled_membership :
      (t id : String) (now : ℕ) (s : Identities) (m : MembershipRecord)
      → (disable_membership t id now s).0 ≡ ok m
      → (disable_membership t id now s).1 ≡ cut_membership t id m now s
  unfolding disable_membership
  disabled_membership t id now s m h = ground arith

  disabled_membership_session :
      (t id : String) (now : ℕ) (s : Identities) (m : MembershipRecord) (x : TenantSession)
      → Gives digest (cut_membership t id m now s) x
      → x.tenant_id ≡ t
      → (x.actor_id ≢ id) × (x.subject_user_id ≢ some id)
  unfolding cut_membership
  disabled_membership_session t id now s m x (inl (text, later, accept)) at =
      let s' = cut_membership t id m now s in
      let (r, session, passed) =
        spared digest (token_in_tenant t id) now later text s s' x refl accept in
      (
        (λ same. grind (arith, eq_iff, ==_refl, same, session)),
        (λ same. grind (arith, eq_iff, ==_refl, same, session)),
      )
  disabled_membership_session t id now s m x (inr (channel, external_id, res)) at =
      let s' = cut_membership t id m now s in
      let (b, d, _, found, on, in_tenant, a, u, _, _, same) =
        resolved channel external_id s' x res in
      let (not_agent, not_subject) =
        involved_in t id s m now b.delegation_id d found on (grind (arith, in_tenant, same, at)) in
      ((λ e. not_agent (grind (arith, a, e, same))), (λ e. not_subject (grind (arith, u, e, same))))

  -- Once `disable_membership` has returned, the store gives out no session in the Tenant that acts as
  -- the Principal or for it.
  pub disable_membership-Gives :
      (t id : String) (now : ℕ) (s : Identities) (m : MembershipRecord) (x : TenantSession)
      → (disable_membership t id now s).0 ≡ ok m
      → Gives digest (disable_membership t id now s).1 x
      → x.tenant_id ≡ t
      → (x.actor_id ≢ id) × (x.subject_user_id ≢ some id)
  disable_membership-Gives t id now s m x done gives =
      disabled_membership_session t id now s m x
        (rw (← disabled_membership t id now s m done) gives)

  revoked_delegation :
      (id : String) (now : ℕ) (s : Identities) (d : DelegationRecord)
      → (revoke_delegation id now s).0 ≡ ok d
      → ((revoke_delegation id now s).1 ≡ cut_delegation id d now s) × (d.active ≡ false)
  unfolding revoke_delegation
  revoked_delegation id now s d h = ground arith

  revoked_delegation_session :
      (id : String) (now : ℕ) (s : Identities) (c : DelegationRecord) (x : TenantSession)
      → c.active ≡ false
      → Gives digest (cut_delegation id c now s) x
      → x.delegation_id ≢ some id
  unfolding cut_delegation
  revoked_delegation_session id now s c x off (inl (text, later, accept)) same =
      let s' = cut_delegation id c now s in
      let (r, session, passed) =
        spared digest (token_of_delegation id) now later text s s' x refl accept in
      grind (arith, eq_iff, ==_refl, same, session)
  revoked_delegation_session id now s c x off (inr (channel, external_id, res)) same =
      let s' = cut_delegation id c now s in
      let (b, d, _, found, on, _, _, _, _, _, made) = resolved channel external_id s' x res in
      grind (arith, dict_laws, eq_iff, ==_refl, same, made)

  -- Once `revoke_delegation` has returned, the store gives out no session under the Delegation.
  pub revoke_delegation-Gives :
      (id : String) (now : ℕ) (s : Identities) (d : DelegationRecord) (x : TenantSession)
      → (revoke_delegation id now s).0 ≡ ok d
      → Gives digest (revoke_delegation id now s).1 x
      → x.delegation_id ≢ some id
  revoke_delegation-Gives id now s d x done gives =
      let (cut, off) = revoked_delegation id now s d done in
      revoked_delegation_session id now s d x off (rw (← cut) gives)
