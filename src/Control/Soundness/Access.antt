-- ===== src/Control/Soundness/Access.antt =====
-- control.py: issuing, using and revoking access tokens keep the identities sound.
use text.Mathlib.TextEquality.{eq_iff}
use coengram.Prelude.{
  ℕ, String, string_eq, option_eq, nat_eq, pair_eq, ◌≡◌, true, Option, none, some, inl, inr, arith,
  ◌⊎◌, subset_refl,
}
use coengram.Prelude.Int.{ℤ}
use coengram.Dict
use coengram.Models.{agent, kind_eq, TenantSession, post_init}
use coengram.Auth
use coengram.Auth.{Bytes, Fresh, IssuedCredential, TokenRecord}
use coengram.Control.Identities.{
  Identities, MembershipRecord, DelegationRecord, get_membership, get_delegation,
}
use coengram.Control.Identities.Tokens
use coengram.Control.Access.{
  issue_access_token, issue_delegated_access_token, authenticate, revoke_access_token,
}
use coengram.Control.Soundness.Put.{put_token-IsSound}
use coengram.Control.Soundness.{IsSound, has_actor, has_roles, has_delegation, grants, is_backed}

module _ (digest : String → Bytes) where
  -- `issue` writes one token, with the session that it was given, or nothing.
  issue_cases :
      (fresh : Fresh) (x : TenantSession) (l : ℤ) (now : ℕ) (s : Identities)
      → ((Auth.issue Tokens.store digest fresh x l now s).1 ≡ s)
        ⊎ ((r : TokenRecord) × (r.session ≡ record x { token_id = some fresh.identifier })
            × ((Auth.issue Tokens.store digest fresh x l now s).1
                ≡ record s { tokens = Dict.put s.tokens fresh.identifier r }))
  unfolding Auth.issue Auth.build_record post_init Tokens.save
  issue_cases fresh x l now s = grind arith

  -- The session may be given to a token.
  abbrev pub Authorised : Identities → TenantSession → Type 0
  Authorised s x = (has_actor s x ≡ true) × (has_roles s x ≡ true) × (has_delegation s x ≡ true)

  issue-IsSound :
      (fresh : Fresh) (x : TenantSession) (l : ℤ) (now : ℕ) (s : Identities)
      → IsSound s
      → Authorised s x
      → IsSound (Auth.issue Tokens.store digest fresh x l now s).1
  unfolding has_actor has_roles has_delegation
  issue-IsSound fresh x l now s h good = elim (issue_cases fresh x l now s) [
    | inl same ↦ rw same h
    | inr (r, bound, made) ↦ rw made (put_token-IsSound s h fresh.identifier r (λ _. rw bound good))
  ]

  issue_access_token_cases :
      (fresh : Fresh) (t p : String) (l : Option ℤ) (now : ℕ) (s : Identities)
      → ((issue_access_token digest fresh t p l now s).1 ≡ s)
        ⊎ ((x : TenantSession) × (l' : ℤ) × ((has_actor s x ≡ true)
              × (has_roles s x ≡ true)
              × (has_delegation s x ≡ true))
            × ((issue_access_token digest fresh t p l now s).1
                ≡ (Auth.issue Tokens.store digest fresh x l' now s).1))
  unfolding issue_access_token post_init has_actor has_roles has_delegation
  issue_access_token_cases fresh t p l now s = grind (arith, subset_refl)

  pub issue_access_token-IsSound :
      (fresh : Fresh) (t p : String) (l : Option ℤ) (now : ℕ) (s : Identities)
      → IsSound s
      → IsSound (issue_access_token digest fresh t p l now s).1
  issue_access_token-IsSound fresh t p l now s h =
      elim (issue_access_token_cases fresh t p l now s) [
        | inl same ↦ rw same h
        | inr (x, l', good, made) ↦ rw made (issue-IsSound fresh x l' now s h good)
      ]

  issue_delegated_access_token_cases :
      (fresh : Fresh) (id : String) (l : Option ℤ) (now : ℕ) (s : Identities)
      → ((issue_delegated_access_token digest fresh id l now s).1 ≡ s)
        ⊎ ((d : DelegationRecord) × (m : MembershipRecord) × (l' : ℤ) × (get_delegation s id
              ≡ some d)
            × (d.active ≡ true)
            × (get_membership s d.tenant_id d.agent_id ≡ some m)
            × (m.active ≡ true)
            × ((issue_delegated_access_token digest fresh id l now s).1
                ≡ (Auth.issue Tokens.store digest fresh
                    (record {
                      tenant_id = d.tenant_id;
                      actor_id = d.agent_id;
                      actor_kind = agent;
                      roles = m.roles;
                      subject_user_id = some d.subject_user_id;
                      delegation_id = some d.delegation_id;
                      token_id = none;
                    })
                    l'
                    now
                    s).1))
  unfolding issue_delegated_access_token post_init
  issue_delegated_access_token_cases fresh id l now s = grind arith

  pub issue_delegated_access_token-IsSound :
      (fresh : Fresh) (id : String) (l : Option ℤ) (now : ℕ) (s : Identities)
      → IsSound s
      → IsSound (issue_delegated_access_token digest fresh id l now s).1
  unfolding has_actor has_roles has_delegation grants is_backed
  issue_delegated_access_token-IsSound fresh id l now s h =
      elim (issue_delegated_access_token_cases fresh id l now s) [
        | inl same ↦ rw same h
        | inr (d, m, l', found, on, member, live, made) ↦
            let key = h.delegations_keyed id d found in
            let backed = h.delegations_backed id d found on in
            rw made (
              issue-IsSound fresh _ l' now s h (
                ground (arith, backed),
                ground (arith, member, live, subset_refl m.roles),
                rw key (grind (arith, found, on, eq_iff)),
              ))
      ]

  pub mark_used_cases :
      (text : String) (now : ℕ) (s : Identities)
      → ((authenticate digest text now s).1 ≡ s)
        ⊎ ((id : String) × (r : TokenRecord) × (Dict.get s.tokens id ≡ some r)
            × ((authenticate digest text now s).1 ≡ record s {
              tokens = Dict.put s.tokens id (record r { last_used_at = some now });
            }))
  unfolding authenticate Tokens.mark_used
  mark_used_cases text now s = grind arith

  pub authenticate-IsSound :
      (text : String) (now : ℕ) (s : Identities)
      → IsSound s
      → IsSound (authenticate digest text now s).1
  authenticate-IsSound text now s h = elim (mark_used_cases text now s) [
    | inl same ↦ rw same h
    | inr (id, r, found, made) ↦ rw made (
        put_token-IsSound s h id (record r { last_used_at = some now })
          (λ l. (
            h.tokens_actor id r found l,
            h.tokens_roles id r found l,
            h.tokens_delegation id r found l,
          )))
  ]

  revoke_access_token_cases :
      (id : String) (now : ℕ) (s : Identities)
      → ((revoke_access_token digest id now s).1 ≡ s)
        ⊎ ((r : TokenRecord) × ((revoke_access_token digest id now s).1
              ≡ record s { tokens = Dict.put s.tokens id (record r { revoked_at = some now }) }))
  unfolding revoke_access_token Tokens.revoke
  revoke_access_token_cases id now s = grind arith

  pub revoke_access_token-IsSound :
      (id : String) (now : ℕ) (s : Identities)
      → IsSound s
      → IsSound (revoke_access_token digest id now s).1
  revoke_access_token-IsSound id now s h = elim (revoke_access_token_cases id now s) [
    | inl same ↦ rw same h
    | inr (r, made) ↦ rw made (
        put_token-IsSound s h id (record r { revoked_at = some now })
          (λ l. absurd (ground (arith, l))))
  ]
