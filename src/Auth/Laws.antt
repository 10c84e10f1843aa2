-- ===== src/Auth/Laws.antt =====
-- auth.py, `TokenService`: what it guarantees over every store that keeps the protocol's laws.
use coengram.Prelude.{
  ℕ, String, ◌==◌, ==_iff, ◌≡◌, ◌<◌, ◌≤◌, refl, true, false, none, some, arith, string_eq, inl, inr,
  list_eq, nat_eq,
}
use coengram.Prelude.Int.{ℤ, shift}
use coengram.Exec.{Error, ok, err, is_authentication_error, Result-cases}
use coengram.Models.{TenantSession}
use coengram.Auth.{
  Bytes, TokenRecord, TokenStore, IsTokenStore, Fresh, RotatedCredential, authenticate, revoke,
  rotate, split_token, token_text, dotless, split_token-token_text, token_prefix,
}

module _ {S : Type 0} (store : TokenStore S) (digest : String → Bytes) where
  -- An authentication that fails raises `AuthenticationError` and leaves the store as it was.
  authenticate_error :
      (text : String) (now : ℕ) (s : S) (x : Error)
      → (authenticate store digest text now s).0 ≡ err x
      → (is_authentication_error x ≡ true) × ((authenticate store digest text now s).1 ≡ s)
  unfolding authenticate
  authenticate_error text now s x h = ground arith

  -- What an accepted text shows.
  authenticate_ok :
      (text prefix id secret : String) (now : ℕ) (s : S) (session : TenantSession)
      → split_token text ≡ some (prefix, id, secret)
      → (authenticate store digest text now s).0 ≡ ok session
      → (r : TokenRecord) × (store.get s id ≡ some r)
        × (r.session ≡ session)
        × (r.revoked_at ≡ none)
        × (now < r.expires_at)
  unfolding authenticate
  authenticate_ok text prefix id secret now s session p h = grind arith

  rotate_ok :
      (fresh : Fresh) (id : String) (session : TenantSession) (lifetime overlap : ℤ) (now : ℕ)
      → (s : S) (c : RotatedCredential)
      → (rotate store digest fresh id session lifetime overlap now s).0 ≡ ok c
      → (new : TokenRecord) × ((store.rotate id new (shift now overlap) now s).0 ≡ true)
        × ((rotate store digest fresh id session lifetime overlap now s).1
            ≡ (store.rotate id new (shift now overlap) now s).1)
  unfolding rotate
  rotate_ok fresh id session lifetime overlap now s c h = grind arith

  -- A text is accepted if it names a record of the store that has its secret's digest, is not
  -- revoked and has not expired; the session is the record's, and the use is written down.
  pub authenticate_accepts :
      (id secret : String) (now : ℕ) (s : S) (r : TokenRecord)
      → dotless id ≡ true
      → (secret == "") ≡ false
      → store.get s id ≡ some r
      → r.verifier ≡ digest secret
      → r.revoked_at ≡ none
      → now < r.expires_at
      → authenticate store digest (token_text token_prefix id secret) now s
        ≡ (ok r.session, store.mark_used r.token_id now s)
  unfolding authenticate dotless
  authenticate_accepts id secret now s r dl ne found v live fresh = ground (
    arith,
    split_token-token_text token_prefix id secret refl dl,
    ==_iff r.verifier (digest secret),
  )

  -- The authentication of `text` fails, with an `AuthenticationError` and no change of the store.
  abbrev pub Rejects : String → ℕ → S → Type 0
  Rejects text now s =
      (x : Error) × (is_authentication_error x ≡ true)
      × (authenticate store digest text now s ≡ (err x, s))

  Rejects-of_not_ok :
      (text : String) (now : ℕ) (s : S)
      → ((session : TenantSession) → ¬ ((authenticate store digest text now s).0 ≡ ok session))
      → Rejects text now s
  Rejects-of_not_ok text now s h = elim (Result-cases (authenticate store digest text now s).0) [
    | inl (a, e) ↦ absurd (h a e)
    | inr (x, e) ↦
        let (is_auth, same) = authenticate_error text now s x e in
        (x, is_auth, ground (arith, same, e))
  ]

module _ {S : Type 0} {store : TokenStore S} (laws : IsTokenStore store)
    (digest : String → Bytes) where
  -- Over every store that keeps the protocol's laws, a text that names a token is rejected at any time once
  -- `revoke` was called for the token: by an `AuthenticationError`, and with no change of the store.
  pub authenticate-revoke :
      (text prefix id secret : String) (revoked_at now : ℕ) (s : S)
      → split_token text ≡ some (prefix, id, secret)
      → Rejects store digest text now (revoke store digest id revoked_at s).1
  unfolding revoke
  authenticate-revoke text prefix id secret revoked_at now s p =
      let s' = (store.revoke id revoked_at s).1 in
      Rejects-of_not_ok store digest text now s' λ session h.
        let (r, found, _, live, _) =
          authenticate_ok store digest text prefix id secret now s' session p h in
        ground (arith, laws.get-revoke id revoked_at s r found)

  -- Over every store that keeps the protocol's laws, once a rotation has returned, a text that names the old
  -- token is rejected from the end of the overlap on, by an `AuthenticationError` and with no change.
  pub authenticate-rotate :
      (fresh : Fresh) (text prefix id secret : String) (session : TenantSession)
      → (lifetime overlap : ℤ) (now later : ℕ) (s : S) (c : RotatedCredential)
      → split_token text ≡ some (prefix, id, secret)
      → (rotate store digest fresh id session lifetime overlap now s).0 ≡ ok c
      → shift now overlap ≤ later
      → Rejects store digest text later
          (rotate store digest fresh id session lifetime overlap now s).1
  authenticate-rotate fresh text prefix id secret session lifetime overlap now later s c p h l =
      let (new, done, same) = rotate_ok store digest fresh id session lifetime overlap now s c h in
      let s' = (store.rotate id new (shift now overlap) now s).1 in
      rw same (
        Rejects-of_not_ok store digest text later s' λ session' k.
          let (r, found, _, _, alive) =
            authenticate_ok store digest text prefix id secret later s' session' p k in
          let (old, _, _, _, shorter) =
            laws.get-rotate id new (shift now overlap) now s r done found in
          ground (arith, shorter, alive, l))
