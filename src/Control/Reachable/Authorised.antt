-- ===== src/Control/Reachable/Authorised.antt =====
-- control.py: what an accepted access token of a reachable Control Store stands for.
use text.Mathlib.TextEquality.{eq_iff}
use coengram.Prelude.{
  ℕ, String, string_eq, option_eq, pair_eq, ◌≡◌, Bool, true, false, none, some, inl, inr, ◌⊎◌,
  arith, is_some, holds, subset, list_eq,
}
use coengram.Dict
use coengram.Exec.{ok}
use coengram.Models.{kind_eq, TenantSession, post_init}
use coengram.Auth.{Bytes, TokenRecord}
use coengram.Control.Identities.{
  Identities, MembershipRecord, DelegationRecord, get_tenant, get_membership, get_delegation,
}
use coengram.Control.Identities.Tokens
use coengram.Control.Access.{authenticate, reauthorize_session, reauthorize_delegation}
use coengram.Control.Soundness.{IsSound, has_actor, has_roles, has_delegation, grants, is_backed}
use coengram.Control.Soundness.Access.{mark_used_cases, authenticate-IsSound}
use coengram.Control.Reachable.{IsReachable}
use coengram.Control.Reachable.Sound.{IsReachable-IsSound}

module _ (digest : String → Bytes) where
  pub accepted :
      (text : String) (now : ℕ) (s : Identities) (x : TenantSession)
      → (authenticate digest text now s).0 ≡ ok x
      → (id : String) × (r : TokenRecord) × (Tokens.get s id ≡ some r)
        × (r.session ≡ x)
        × (r.revoked_at ≡ none)
  unfolding authenticate
  accepted text now s x h = grind arith

  pub live :
      (id : String) (s : Identities) (r : TokenRecord)
      → Tokens.get s id ≡ some r
      → (Dict.get s.tokens id ≡ some r) × (Tokens.is_live s r ≡ true)
  unfolding Tokens.get
  live id s r h = ground arith

-- The session of an accepted token is delegated by its Delegation, or has none.
delegation_cases :
    (s : Identities) (x : TenantSession)
    → IsSound s
    → has_delegation s x ≡ true
    → ((x.delegation_id ≡ none) × (x.subject_user_id ≡ none))
      ⊎ ((id : String) × (d : DelegationRecord) × (x.delegation_id ≡ some id)
          × (x.subject_user_id ≡ some d.subject_user_id)
          × (x.tenant_id ≡ d.tenant_id)
          × (x.actor_id ≡ d.agent_id)
          × (get_delegation s id ≡ some d)
          × (d.active ≡ true)
          × (is_backed s d ≡ true))
unfolding has_delegation grants
delegation_cases s x h g = grind (arith, eq_iff, h.delegations_backed)

pub reauthorize-authorised :
    (s : Identities) (x : TenantSession)
    → IsSound s
    → holds (λ t. t.active) (get_tenant s x.tenant_id) ≡ true
    → has_actor s x ≡ true
    → has_roles s x ≡ true
    → has_delegation s x ≡ true
    → (m : MembershipRecord) × (get_membership s x.tenant_id x.actor_id ≡ some m)
      × (subset x.roles m.roles ≡ true)
      × (reauthorize_session x s ≡ (ok (record x { roles = m.roles }), s))
unfolding reauthorize_session reauthorize_delegation post_init has_actor has_roles is_backed
reauthorize-authorised s x h tenant actor roles delegation =
    elim (delegation_cases s x h delegation) [
      | inl (none', alone) ↦ grind arith
      | inr (id, d, named, subject, same_tenant, same_actor, found, on, backed) ↦
          grind (arith, eq_iff)
    ]

tokens-authorised :
    (s s' : Identities) (x : TenantSession)
    → ((s' ≡ s) ⊎ ((ts : _) × (s' ≡ record s { tokens = ts })))
    → IsSound s'
    → holds (λ t. t.active) (get_tenant s x.tenant_id) ≡ true
    → has_actor s x ≡ true
    → has_roles s x ≡ true
    → has_delegation s x ≡ true
    → (m : MembershipRecord) × (get_membership s x.tenant_id x.actor_id ≡ some m)
      × (subset x.roles m.roles ≡ true)
      × (reauthorize_session x s' ≡ (ok (record x { roles = m.roles }), s'))
unfolding has_actor has_roles has_delegation is_backed
tokens-authorised s s' x (inl same) h t a r d =
    rw same (reauthorize-authorised s x (rw (← same) h) t a r d)
tokens-authorised s s' x (inr (ts, same)) h t a r d =
    rw same (reauthorize-authorised (record s { tokens = ts }) x (rw (← same) h) t a r d)

module _ (digest : String → Bytes) (is_decimal : String → Bool) where
  -- In every reachable store, an accepted access token stands for an active Membership that still has
  -- every role of the token's session, and the session passes reauthorization in the store that the
  -- authentication leaves, with the Membership's roles.
  pub authenticate-reauthorize_session :
      (text : String) (now : ℕ) (s : Identities) (x : TenantSession)
      → IsReachable digest is_decimal s
      → (authenticate digest text now s).0 ≡ ok x
      → (m : MembershipRecord) × (get_membership s x.tenant_id x.actor_id ≡ some m)
        × (subset x.roles m.roles ≡ true)
        × (reauthorize_session x (authenticate digest text now s).1
            ≡ (ok (record x { roles = m.roles }), (authenticate digest text now s).1))
  unfolding Tokens.is_live
  authenticate-reauthorize_session text now s x reach accept =
      let h = IsReachable-IsSound digest is_decimal reach in
      let (id, r, found, session, unrevoked) = accepted digest text now s x accept in
      let (stored, on) = live digest id s r found in
      let l : is_some r.revoked_at ≡ false = ground (arith, unrevoked) in
      let after : ((authenticate digest text now s).1 ≡ s)
          ⊎ ((ts : _) × ((authenticate digest text now s).1 ≡ record s { tokens = ts })) =
        elim (mark_used_cases digest text now s) [
          | inl same ↦ inl same
          | inr (_, _, _, made) ↦ inr (_, made)
        ] in
      tokens-authorised s (authenticate digest text now s).1 x after
        (authenticate-IsSound digest text now s h) (rw (← session) (ground (arith, on)))
        (rw (← session) (h.tokens_actor id r stored l))
        (rw (← session) (h.tokens_roles id r stored l))
        (rw (← session) (h.tokens_delegation id r stored l))
