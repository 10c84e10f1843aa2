-- ===== src/Control/Lifetimes.antt =====
-- control.py: how long the issued access tokens are valid.
use coengram.Prelude.{
  ℕ, zero, suc, ◌+◌, ◌*◌, refl, sym, ap, ◌∙◌, subst, String, string_eq, pair_eq, bool_eq, ◌≡◌, ◌<◌,
  ◌≤◌, true, false, Option, none, some, arith, default, holds, inl, inr, Option-cases,
}
use coengram.Prelude.Int.{ℤ, pos, shift}
use coengram.Dict
use coengram.Dict.Laws.{get-put_self}
use coengram.Exec.{ok}
use coengram.Models.{PrincipalKind, user, agent, kind_eq, TenantSession, post_init}
use coengram.Auth
use coengram.Auth.{Bytes, Fresh, IssuedCredential, TokenRecord}
use coengram.Control.Identities.{
  Identities, PrincipalRecord, MembershipRecord, get_tenant, get_principal, get_membership,
  token_lifetime_days,
}
use coengram.Control.Identities.Tokens
use coengram.Control.Access.{issue_access_token, maximum_lifetime, platform_days, bad_lifetime}

-- the days that the Tenant has configured, where these are not 0, or else 90 for a User and 30 for an Agent
abbrev pub allowed_days : Option ℕ → PrincipalKind → ℕ
allowed_days (some (suc d)) kind = suc d
allowed_days _ user = 90
allowed_days _ agent = 30

maximum_lifetime_lem :
    (configured : Option ℕ) (kind : PrincipalKind)
    → maximum_lifetime configured (platform_days kind)
      ≡ pos (allowed_days configured kind * (24 * 60 * 60 * 1000000))
maximum_lifetime_lem none user = refl
maximum_lifetime_lem none agent = refl
maximum_lifetime_lem (some zero) user = refl
maximum_lifetime_lem (some zero) agent = refl
maximum_lifetime_lem (some (suc d)) user = ground arith
maximum_lifetime_lem (some (suc d)) agent = ground arith

-- the session of the Principal's own tokens
abbrev pub own_session : String → String → PrincipalRecord → MembershipRecord → TenantSession
own_session t id p m = record {
  tenant_id = t;
  actor_id = id;
  actor_kind = p.kind;
  roles = m.roles;
  subject_user_id = none;
  delegation_id = none;
  token_id = none;
}

abbrev maximum : Identities → String → PrincipalRecord → ℤ
maximum s t p = maximum_lifetime (token_lifetime_days s t p.kind false) (platform_days p.kind)

module _ (digest : String → Bytes) where
  issued_until :
      (fresh : Fresh) (x : TenantSession) (l : ℤ) (now : ℕ) (s : Identities) (c : IssuedCredential)
      → (Auth.issue Tokens.store digest fresh x l now s).0 ≡ ok c
      → (c.token_id ≡ fresh.identifier) × (c.expires_at ≡ shift now l)
  unfolding Auth.issue Auth.build_record post_init
  issued_until fresh x l now s c h = ground arith

  -- the record of a credential
  abbrev pub recorded : Fresh → TenantSession → ℕ → ℕ → TokenRecord
  recorded fresh x expires_at now = record {
    token_id = fresh.identifier;
    verifier = digest fresh.secret;
    session = record x { token_id = some fresh.identifier };
    expires_at = expires_at;
    issued_at = now;
    revoked_at = none;
    last_used_at = none;
  }

  issue-save :
      (fresh : Fresh) (x : TenantSession) (l : ℤ) (now : ℕ) (s : Identities) (c : IssuedCredential)
      → (Auth.issue Tokens.store digest fresh x l now s).0 ≡ ok c
      → (Auth.issue Tokens.store digest fresh x l now s).1
        ≡ Tokens.save (recorded fresh x c.expires_at now) s
  unfolding Auth.issue Auth.build_record
  issue-save fresh x l now s c h = ground arith

  shift_bounds :
      (now : ℕ) (l m : ℤ)
      → bad_lifetime l m ≡ false
      → (now < shift now l) × (shift now l ≤ shift now m)
  shift_bounds now l m h = ground arith

  issue_access_token_ok :
      (fresh : Fresh) (t id : String) (l : Option ℤ) (now : ℕ) (s : Identities)
      (c : IssuedCredential)
      → (issue_access_token digest fresh t id l now s).0 ≡ ok c
      → (p : PrincipalRecord) × (m : MembershipRecord) × (holds (λ t. t.active) (get_tenant s t)
          ≡ true)
        × (get_principal s id ≡ some p)
        × (p.active ≡ true)
        × (get_membership s t id ≡ some m)
        × (m.active ≡ true)
        × (bad_lifetime (default (maximum s t p) l) (maximum s t p) ≡ false)
        × (issue_access_token digest fresh t id l now s
            ≡ Auth.issue Tokens.store digest fresh
                (own_session t id p m)
                (default (maximum s t p) l)
                now
                s)
  unfolding issue_access_token post_init
  issue_access_token_ok fresh t id l now s c h = elim (Option-cases (get_principal s id)) [
    | inl missing ↦ absurd (ground (arith, missing))
    | inr (p, found) ↦ elim (Option-cases (get_membership s t id)) [
      | inl missing ↦ absurd (ground (arith, missing))
      | inr (m, member) ↦ (
        p,
        m,
        ground (arith, found, member),
        found,
        ground (arith, found, member),
        member,
        ground (arith, found, member),
        ground (arith, found, member),
        ground (arith, found, member),
      )
    ]
  ]

  -- A token that `issue_access_token` returns is kept in the store with a session of the Principal in the
  -- Tenant, of its kind and with the roles of its Membership, where Tenant, Principal and Membership are
  -- active. It expires after the present and no later than as many days as the Tenant has configured for
  -- the Principal's kind, or, if that is nothing or 0, 90 days for a User and 30 for an Agent.
  pub issue_access_token-bounds :
      (fresh : Fresh) (t id : String) (l : Option ℤ) (now : ℕ) (s : Identities)
      (c : IssuedCredential)
      → (issue_access_token digest fresh t id l now s).0 ≡ ok c
      → (p : PrincipalRecord) × (m : MembershipRecord) × (holds (λ t. t.active) (get_tenant s t)
          ≡ true)
        × (get_principal s id ≡ some p)
        × (p.active ≡ true)
        × (get_membership s t id ≡ some m)
        × (m.active ≡ true)
        × (now < c.expires_at)
        × (c.expires_at
            ≤ now
              + allowed_days (Dict.get s.token_lifetime_days (t, (p.kind, false))) p.kind
                * (24 * 60 * 60 * 1000000))
        × (Dict.get (issue_access_token digest fresh t id l now s).1.tokens c.token_id
            ≡ some (recorded fresh (own_session t id p m) c.expires_at now))
  unfolding Tokens.save
  issue_access_token-bounds fresh t id l now s c h =
      let (p, m, tenant, principal, on, member, joined, good, same) =
        issue_access_token_ok fresh t id l now s c h in
      let x = own_session t id p m in
      let issued = ap (λ r. r.0) (sym same) ∙ h in
      let lifetime = default (maximum s t p) l in
      let (named, until) = issued_until fresh x lifetime now s c issued in
      let (after, before) = shift_bounds now lifetime (maximum s t p) good in
      let limit =
        maximum_lifetime_lem (Dict.get s.token_lifetime_days (t, (p.kind, false))) p.kind in
      let bound = subst (λ n. shift now lifetime ≤ shift now n) limit before in
      let stored =
        ap (λ r. r.1.tokens) same
        ∙ ap (λ i. i.tokens) (issue-save fresh x lifetime now s c issued) in
      (
        p,
        m,
        tenant,
        principal,
        on,
        member,
        joined,
        rw until after,
        rw until (omega (arith, bound)),
        rw (stored, named)
            (get-put_self s.tokens fresh.identifier (recorded fresh x c.expires_at now)),
      )
