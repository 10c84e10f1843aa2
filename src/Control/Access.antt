-- ===== src/Control/Access.antt =====
-- control.py, `ControlModule`: access tokens and sessions. The token service runs over the Control
-- Store's own tokens.
use coengram.Prelude.{
  ℕ, String, ◌==◌, string_eq, option_eq, nat_eq, Bool, true, false, not, ◌&&◌, ◌||◌, ◌*◌, ◌-◌,
  Option, none, some, if◌then◌else◌, is_some, holds, default, leb,
}
use coengram.Prelude.Int.{ℤ, pos, leb_ℤ, ltb_ℤ, min_ℤ}
use coengram.Exec.{Exec, control_not_found, value_error, raise_if, gets, require, pure, ◌>>=◌, ◌>>◌}
use coengram.Models.{PrincipalKind, user, agent, is_user, kind_eq, TenantSession, post_init}
use coengram.Auth
use coengram.Auth.{Bytes, Fresh, IssuedCredential, RotatedCredential, TokenRecord, lift_result}
use coengram.Control.Identities.{
  Identities, PrincipalRecord, MembershipRecord, get_tenant, get_principal, get_membership,
  get_delegation, token_lifetime_days,
}
use coengram.Control.Identities.Tokens

-- a day, in microseconds
abbrev pub day : ℕ
day = 86400000000

abbrev pub maximum_overlap : ℤ
maximum_overlap = pos 86400000000

-- `timedelta(days=configured_days or platform_days)`: 0 counts as not configured
abbrev pub maximum_lifetime : Option ℕ → ℕ → ℤ
maximum_lifetime none platform = pos (platform * day)
maximum_lifetime (some d) platform = pos ((if d == 0 then platform else d) * day)

abbrev pub platform_days : PrincipalKind → ℕ
platform_days user = 90
platform_days agent = 30

-- `requested_lifetime <= timedelta(0) or requested_lifetime > maximum_lifetime`
abbrev pub bad_lifetime : ℤ → ℤ → Bool
bad_lifetime requested maximum = leb_ℤ requested (pos 0) || ltb_ℤ maximum requested

abbrev pub is_active_principal : Option PrincipalRecord → Bool
is_active_principal = holds (λ p. p.active)

abbrev pub is_active_member : Option MembershipRecord → Bool
is_active_member = holds (λ m. m.active)

-- `None if id is None else self._store.get_principal(id)`
abbrev pub subject_principal : Identities → Option String → Option PrincipalRecord
subject_principal s none = none
subject_principal s (some id) = get_principal s id

abbrev pub subject_membership : Identities → String → Option String → Option MembershipRecord
subject_membership s tenant_id none = none
subject_membership s tenant_id (some id) = get_membership s tenant_id id

module _ (digest : String → Bytes) where
  unfoldable pub issue_access_token :
      Fresh → String → String → Option ℤ → ℕ → Exec Identities IssuedCredential
  issue_access_token fresh tenant_id principal_id lifetime now = do
    tenant ← gets (λ s. get_tenant s tenant_id)
    principal ← gets (λ s. get_principal s principal_id)
    membership ← gets (λ s. get_membership s tenant_id principal_id)
    require (λ t. t.active) tenant (control_not_found "Active Tenant not found")
    p ← require (λ p. p.active) principal (control_not_found "Active Principal not found")
    m ← require (λ m. m.active) membership (control_not_found "Active Tenant Membership not found")
    configured_days ← gets (λ s. token_lifetime_days s tenant_id p.kind false)
    let maximum = maximum_lifetime configured_days (platform_days p.kind)
    let requested = default maximum lifetime
    raise_if (bad_lifetime requested maximum)
        (value_error "Access Token lifetime exceeds the Principal policy maximum")
    session ← lift_result (
        post_init (record {
          tenant_id = tenant_id;
          actor_id = principal_id;
          actor_kind = p.kind;
          roles = m.roles;
          subject_user_id = none;
          delegation_id = none;
          token_id = none;
        }))
    Auth.issue Tokens.store digest fresh session requested now

  unfoldable pub issue_delegated_access_token :
      Fresh → String → Option ℤ → ℕ → Exec Identities IssuedCredential
  issue_delegated_access_token fresh delegation_id lifetime now = do
    found ← gets (λ s. get_delegation s delegation_id)
    configured_days ←
        gets
          (λ s. elim found [ none ↦ none | some d ↦ token_lifetime_days s d.tenant_id agent true ])
    let maximum = maximum_lifetime configured_days 90
    let requested = default maximum lifetime
    raise_if (bad_lifetime requested maximum)
        (value_error "Delegated Access Token lifetime exceeds the Tenant policy maximum")
    delegation ← require (λ d. d.active) found (control_not_found "Active Delegation not found")
    member ← gets (λ s. get_membership s delegation.tenant_id delegation.agent_id)
    m ←
        require (λ m. m.active) member
          (control_not_found "Active Agent Tenant Membership not found")
    session ← lift_result (
        post_init (record {
          tenant_id = delegation.tenant_id;
          actor_id = delegation.agent_id;
          actor_kind = agent;
          roles = m.roles;
          subject_user_id = some delegation.subject_user_id;
          delegation_id = some delegation.delegation_id;
          token_id = none;
        }))
    Auth.issue Tokens.store digest fresh session requested now

  unfoldable pub authenticate : String → ℕ → Exec Identities TenantSession
  unfolding Auth.authenticate
  authenticate access_token now = Auth.authenticate Tokens.store digest access_token now

  unfoldable pub revoke_access_token : String → ℕ → Exec Identities Bool
  unfolding Auth.revoke
  revoke_access_token token_id now = Auth.revoke Tokens.store digest token_id now

  -- the checks of `rotate_access_token` on a delegated session
  unfoldable pub require_delegated : TenantSession → Exec Identities Bool
  require_delegated session s = elim session.delegation_id [
    | none ↦ (pure false) s
    | some id ↦
        (do
          require (λ d. d.active) (get_delegation s id)
              (control_not_found "Active Delegation not found")
          require (λ p. p.active) (subject_principal s session.subject_user_id)
              (control_not_found "Active Subject User not found")
          require (λ m. m.active) (subject_membership s session.tenant_id session.subject_user_id)
              (control_not_found "Active Subject User Tenant Membership not found")
          pure true)
          s
  ]

  -- `rotate_access_token` up to the lifetime's policy: the old token, its actor's records, and
  -- whether the session is delegated
  unfoldable pub require_renewable :
      String → ℤ → ℕ → Exec Identities (TokenRecord × (PrincipalRecord × (MembershipRecord × Bool)))
  require_renewable token_id overlap now = do
    raise_if (leb_ℤ overlap (pos 0) || ltb_ℤ maximum_overlap overlap)
        (value_error "Token rotation overlap must be between 1 second and 24 hours")
    found ← gets (λ s. Tokens.get s token_id)
    previous ←
        require (λ r. not (is_some r.revoked_at || leb r.expires_at now)) found
          (control_not_found "Active Access Token not found")
    let session = previous.session
    principal ← gets (λ s. get_principal s session.actor_id)
    membership ← gets (λ s. get_membership s session.tenant_id session.actor_id)
    p ← require (λ p. p.active) principal (control_not_found "Active Principal not found")
    m ← require (λ m. m.active) membership (control_not_found "Active Tenant Membership not found")
    delegated ← require_delegated session
    pure (previous, (p, (m, delegated)))

  -- `rotate_access_token` from the lifetime's policy on
  unfoldable pub renew :
      Fresh
      → String
      → ℤ
      → Option ℤ
      → ℕ
      → TokenRecord
      → PrincipalRecord
      → MembershipRecord
      → Bool
      → Exec Identities RotatedCredential
  renew fresh token_id overlap lifetime now previous p m delegated = do
    let session = previous.session
    configured_days ← gets (λ s. token_lifetime_days s session.tenant_id p.kind delegated)
    let maximum = maximum_lifetime configured_days (if delegated then 90 else platform_days p.kind)
    let requested = default maximum lifetime
    raise_if (bad_lifetime requested maximum)
        (value_error "Replacement Access Token lifetime exceeds policy maximum")
    let bounded_overlap = min_ℤ overlap (pos (previous.expires_at - now))
    renewed ← lift_result (
        post_init (record {
          tenant_id = session.tenant_id;
          actor_id = session.actor_id;
          actor_kind = p.kind;
          roles = m.roles;
          subject_user_id = session.subject_user_id;
          delegation_id = session.delegation_id;
          token_id = none;
        }))
    Auth.rotate Tokens.store digest fresh token_id renewed requested bounded_overlap now

  unfoldable pub rotate_access_token :
      Fresh → String → ℤ → Option ℤ → ℕ → Exec Identities RotatedCredential
  rotate_access_token fresh token_id overlap lifetime now = do
    checked ← require_renewable token_id overlap now
    renew fresh token_id overlap lifetime now checked.0 checked.1.0 checked.1.1.0 checked.1.1.1

-- the checks of `reauthorize_session` on a delegated session
unfoldable pub reauthorize_delegation : TenantSession → Exec Identities Bool
reauthorize_delegation session s = elim session.delegation_id [
  | none ↦ (pure false) s
  | some id ↦
      (do
        require
            (λ d.
              d.active
              && d.tenant_id == session.tenant_id
              && d.agent_id == session.actor_id
              && some d.subject_user_id == session.subject_user_id)
            (get_delegation s id) (control_not_found "Active Delegation not found")
        require (λ p. p.active && is_user p.kind) (subject_principal s session.subject_user_id)
            (control_not_found "Active Subject User not found")
        require (λ m. m.active) (subject_membership s session.tenant_id session.subject_user_id)
            (control_not_found "Active Subject User Tenant Membership not found")
        pure true)
        s
]

unfoldable pub reauthorize_session : TenantSession → Exec Identities TenantSession
unfolding reauthorize_delegation post_init
reauthorize_session session = do
  tenant ← gets (λ s. get_tenant s session.tenant_id)
  principal ← gets (λ s. get_principal s session.actor_id)
  membership ← gets (λ s. get_membership s session.tenant_id session.actor_id)
  require (λ t. t.active) tenant (control_not_found "Active Tenant not found")
  require (λ p. p.active && p.kind == session.actor_kind) principal
      (control_not_found "Active Principal not found")
  m ← require (λ m. m.active) membership (control_not_found "Active Tenant Membership not found")
  reauthorize_delegation session
  lift_result (post_init (record session { roles = m.roles }))
