-- ===== src/Control/Soundness/Rotation.antt =====
-- control.py: rotating an access token keeps the identities sound.
use coengram.Prelude.{
  ℕ, String, string_eq, option_eq, nat_eq, pair_eq, ◌≡◌, refl, Bool, true, false, Option, none,
  some, inl, inr, is_some, arith, if◌then◌else◌, ◌⊎◌, subset_refl, Bool-cases, default, ◌-◌,
}
use coengram.Exec.{ok, Result-cases}
use coengram.Prelude.Int.{ℤ, pos, leb_ℤ, min_ℤ, shift, min_time}
use coengram.Dict
use coengram.Models.{kind_eq, TenantSession, post_init}
use coengram.Auth
use coengram.Auth.{Bytes, Fresh, IssuedCredential, TokenRecord}
use coengram.Exec.Reads.{reads_then}
use coengram.Control.Identities.{
  Identities, PrincipalRecord, MembershipRecord, get_principal, get_membership, token_lifetime_days,
}
use coengram.Control.Identities.Tokens
use coengram.Control.Access.{
  maximum_lifetime, platform_days, bad_lifetime, rotate_access_token, require_delegated,
  require_renewable, renew,
}
use coengram.Control.Soundness.Put.{put_token-IsSound}
use coengram.Control.Soundness.{IsSound, has_actor, has_roles, has_delegation, grants}
use coengram.Control.Soundness.Access.{Authorised}

module _ (digest : String → Bytes) where
  store_rotate_cases :
      (id : String) (new : TokenRecord) (until now : ℕ) (s : Identities)
      → ((Tokens.rotate id new until now s).1 ≡ s)
        ⊎ ((old : TokenRecord) × (Tokens.get s id ≡ some old)
            × (old.revoked_at ≡ none)
            × ((Tokens.rotate id new until now s).1 ≡ record s {
              tokens =
                  Dict.put
                    (Dict.put s.tokens id
                      (record old { expires_at = min_time old.expires_at until }))
                    new.token_id
                    new;
            }))
  unfolding Tokens.rotate
  store_rotate_cases id new until now s = grind arith

  built_session :
      (fresh : Fresh) (x : TenantSession) (l : ℤ) (now : ℕ) (c : IssuedCredential) (r : TokenRecord)
      → Auth.build_record Tokens.store digest fresh x l now ≡ ok (c, r)
      → r.session ≡ record x { token_id = some fresh.identifier }
  unfolding Auth.build_record post_init
  built_session fresh x l now c r h = ground arith

  service_rotate_cases :
      (fresh : Fresh) (id : String) (x : TenantSession) (l o : ℤ) (now : ℕ) (s : Identities)
      → ((Auth.rotate Tokens.store digest fresh id x l o now s).1 ≡ s)
        ⊎ ((new : TokenRecord) × (new.session ≡ record x { token_id = some fresh.identifier })
            × ((Auth.rotate Tokens.store digest fresh id x l o now s).1
                ≡ (Tokens.rotate id new (shift now o) now s).1))
  unfolding Auth.rotate
  service_rotate_cases fresh id x l o now s =
      elim (Result-cases (Auth.build_record Tokens.store digest fresh x l now)) [
        | inl ((c, new), built) ↦ elim (Bool-cases (Tokens.rotate id new (shift now o) now s).0) [
          | inl done ↦ elim (Bool-cases (leb_ℤ o (pos 0))) [
            | inl bad ↦ inl (ground (arith, built, bad))
            | inr good ↦
                inr
                  (new, built_session fresh x l now c new built, ground (arith, built, done, good))
          ]
          | inr refused ↦ inl (
              ground (
                arith,
                built,
                refused,
                Tokens.store-IsTokenStore.rotate_refused id new (shift now o) now s,
              ))
        ]
        | inr (_, failed) ↦ inl (ground (arith, failed))
      ]

  get_found :
      (s : Identities) (id : String) (r : TokenRecord)
      → Tokens.get s id ≡ some r
      → Dict.get s.tokens id ≡ some r
  unfolding Tokens.get
  get_found s id r h = ground arith

  rotate-IsSound :
      (fresh : Fresh) (id : String) (x : TenantSession) (l o : ℤ) (now : ℕ) (s : Identities)
      → IsSound s
      → ((old : TokenRecord)
          → Dict.get s.tokens id ≡ some old
          → old.revoked_at ≡ none
          → Authorised digest s x)
      → IsSound (Auth.rotate Tokens.store digest fresh id x l o now s).1
  unfolding has_actor has_roles has_delegation
  rotate-IsSound fresh id x l o now s h good = elim (service_rotate_cases fresh id x l o now s) [
    | inl same ↦ rw same h
    | inr (new, bound, made) ↦ rw made (elim (store_rotate_cases id new (shift now o) now s) [
      | inl same ↦ rw same h
      | inr (old, found, live, written) ↦
          let mid = record old { expires_at = min_time old.expires_at (shift now o) } in
          let stored = get_found s id old found in
          rw written (
            put_token-IsSound (record s { tokens = Dict.put s.tokens id mid })
              (put_token-IsSound s h id mid (λ l. (
                h.tokens_actor id old stored l,
                h.tokens_roles id old stored l,
                h.tokens_delegation id old stored l,
              )))
              new.token_id new (λ _. rw bound (good old stored live)))
    ])
  ]

  require_delegated_reads :
      (x : TenantSession) (s : Identities) → (require_delegated digest x s).1 ≡ s
  unfolding require_delegated
  require_delegated_reads x s = ground arith

  require_renewable_reads :
      (id : String) (o : ℤ) (now : ℕ) (s : Identities) → (require_renewable digest id o now s).1 ≡ s
  unfolding require_renewable
  require_renewable_reads id o now s = grind (arith, require_delegated_reads)

  require_renewable_ok :
      (id : String) (o : ℤ) (now : ℕ) (s : Identities)
      → (old : TokenRecord) (p : PrincipalRecord) (m : MembershipRecord) (b : Bool)
      → (require_renewable digest id o now s).0 ≡ ok (old, (p, (m, b)))
      → (Tokens.get s id ≡ some old)
        × (old.revoked_at ≡ none)
        × (get_principal s old.session.actor_id ≡ some p)
        × (p.active ≡ true)
        × (get_membership s old.session.tenant_id old.session.actor_id ≡ some m)
        × (m.active ≡ true)
  unfolding require_renewable
  require_renewable_ok id o now s old p m b h = grind (arith, require_delegated_reads)

  abbrev renewed : TokenRecord → PrincipalRecord → MembershipRecord → TenantSession
  renewed old p m = record {
    tenant_id = old.session.tenant_id;
    actor_id = old.session.actor_id;
    actor_kind = p.kind;
    roles = m.roles;
    subject_user_id = old.session.subject_user_id;
    delegation_id = old.session.delegation_id;
    token_id = none;
  }

  post_init_ok : (x y : TenantSession) → post_init x ≡ ok y → x ≡ y
  unfolding post_init
  post_init_ok x y h = ground arith

  renew_cases :
      (fresh : Fresh) (id : String) (o : ℤ) (l : Option ℤ) (now : ℕ)
      → (old : TokenRecord) (p : PrincipalRecord) (m : MembershipRecord) (b : Bool) (s : Identities)
      → ((renew digest fresh id o l now old p m b s).1 ≡ s)
        ⊎ ((l' : ℤ) × (o' : ℤ) × ((renew digest fresh id o l now old p m b s).1
              ≡ (Auth.rotate Tokens.store digest fresh id (renewed old p m) l' o' now s).1))
  unfolding renew
  renew_cases fresh id o l now old p m b s =
      let configured = token_lifetime_days s old.session.tenant_id p.kind b in
      let maximum = maximum_lifetime configured (if b then 90 else platform_days p.kind) in
      let requested = default maximum l in
      elim (Bool-cases (bad_lifetime requested maximum)) [
        | inl bad ↦ inl (rw bad refl)
        | inr good ↦ elim (Result-cases (post_init (renewed old p m))) [
          | inl (x, made) ↦ inr (
            requested,
            min_ℤ o (pos (old.expires_at - now)),
            rw (good, made, post_init_ok (renewed old p m) x made) refl,
          )
          | inr (_, failed) ↦ inl (rw (good, failed) refl)
        ]
      ]

  renewed-Authorised :
      (id : String) (old : TokenRecord) (p : PrincipalRecord) (m : MembershipRecord)
      (s : Identities)
      → IsSound s
      → Tokens.get s id ≡ some old
      → old.revoked_at ≡ none
      → get_principal s old.session.actor_id ≡ some p
      → p.active ≡ true
      → get_membership s old.session.tenant_id old.session.actor_id ≡ some m
      → m.active ≡ true
      → Authorised digest s (renewed old p m)
  unfolding has_actor has_roles has_delegation grants
  renewed-Authorised id old p m s h found live principal on member joined =
      let stored = get_found s id old found in
      let unrevoked : is_some old.revoked_at ≡ false = ground (arith, live) in
      (
        ground (arith, h.tokens_actor id old stored unrevoked),
        ground (arith, subset_refl m.roles),
        ground (arith, h.tokens_delegation id old stored unrevoked),
      )

  pub rotate_access_token-IsSound :
      (fresh : Fresh) (id : String) (o : ℤ) (l : Option ℤ) (now : ℕ) (s : Identities)
      → IsSound s
      → IsSound (rotate_access_token digest fresh id o l now s).1
  unfolding rotate_access_token
  rotate_access_token-IsSound fresh id o l now s h =
      reads_then IsSound (require_renewable digest id o now)
        (λ c. renew digest fresh id o l now c.0 c.1.0 c.1.1.0 c.1.1.1) s
        (require_renewable_reads id o now s) h
        λ (old, (p, (m, b))) passed.
          let (found, live, principal, on, member, joined) =
            require_renewable_ok id o now s old p m b passed in
          elim (renew_cases fresh id o l now old p m b s) [
            | inl same ↦ rw same h
            | inr (l', o', made) ↦ rw made (
                rotate-IsSound fresh id (renewed old p m) l' o' now s h
                  λ _ _ _. renewed-Authorised id old p m s h found live principal on member joined)
          ]
