-- ===== src/Auth/RoundTrip.antt =====
-- auth.py: a credential that `InMemoryTokenStore` was given is accepted again.
use coengram.Prelude.{ℕ, String, ◌==◌, ◌≡◌, ◌<◌, refl, true, false, none, some, arith, string_eq}
use coengram.Prelude.Int.{ℤ}
use coengram.Exec.{ok}
use coengram.Models.{TenantSession}
use coengram.Dict.Laws.{get-put_self}
use coengram.Auth.{
  Bytes, TokenRecord, Fresh, IssuedCredential, issue, authenticate, build_record, token_text,
  dotless, token_prefix,
}
use coengram.Auth.InMemory.{Tokens, memory_store, save}
use coengram.Auth.Laws.{authenticate_accepts}

module _ (digest : String → Bytes) where
  -- the record of a credential
  abbrev issued : Fresh → TenantSession → ℕ → ℕ → TokenRecord
  issued fresh session expires_at now = record {
    token_id = fresh.identifier;
    verifier = digest fresh.secret;
    session = record session { token_id = some fresh.identifier };
    expires_at = expires_at;
    issued_at = now;
    revoked_at = none;
    last_used_at = none;
  }

  issue_ok :
      (fresh : Fresh) (session : TenantSession) (lifetime : ℤ) (now : ℕ) (s : Tokens)
      → (c : IssuedCredential) → (issue memory_store digest fresh session lifetime now s).0 ≡ ok c
      → ((issue memory_store digest fresh session lifetime now s).1
          ≡ save (issued fresh session c.expires_at now) s)
        × (c.access_token ≡ token_text token_prefix fresh.identifier fresh.secret)
  unfolding issue build_record
  issue_ok fresh session lifetime now s c h = ground arith

  -- If `issue` returns a credential, with a token id without dots and a secret that is not empty, its text
  -- authenticates until it expires, as the session that it was issued for, bound to the new token.
  pub authenticate-issue :
      (fresh : Fresh) (session : TenantSession) (lifetime : ℤ) (now later : ℕ) (s : Tokens)
      → (c : IssuedCredential) → dotless fresh.identifier ≡ true
      → (fresh.secret == "") ≡ false
      → (issue memory_store digest fresh session lifetime now s).0 ≡ ok c
      → later < c.expires_at
      → (authenticate memory_store digest c.access_token later
          (issue memory_store digest fresh session lifetime now s).1).0
        ≡ ok (record session { token_id = some fresh.identifier })
  unfolding save
  authenticate-issue fresh session lifetime now later s c dl ne h l =
      let (same, text) = issue_ok fresh session lifetime now s c h in
      let r = issued fresh session c.expires_at now in
      cc (
        same,
        text,
        authenticate_accepts memory_store digest fresh.identifier fresh.secret later (save r s) r dl
            ne (get-put_self s fresh.identifier r) refl refl l,
      )
