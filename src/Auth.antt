-- ===== src/Auth.antt =====
-- auth.py: opaque access tokens, the interface of a token store, and the token service over it.
-- The store is a parameter, `TokenStore`; so is the digest of a secret. The clock, `uuid4` and
-- `token_urlsafe` enter as arguments, `now` and a `Fresh` value.
mod Format
pub mod InMemory
pub mod Laws
pub mod RoundTrip
unfoldable pub use Format.*
use coengram.Prelude.{
  ℕ, String, Eq, ◌==◌, Bool, true, false, not, ◌&&◌, ◌||◌, Option, none, some, List, if◌then◌else◌,
  leb, is_some, nat_eq, string_eq, list_eq, ◌≡◌, ◌<◌,
}
use coengram.Prelude.Int.{ℤ, pos, leb_ℤ, shift, min_time}
use coengram.Exec.{
  Error, Result, ok, err, Exec, ◌>>=◌, ◌>>◌, authentication_error, value_error, pure, raise,
  raise_if, modify, present, require, gets, Nothing,
}
use coengram.Dict.Laws.{map_some}
use coengram.Models.{TenantSession, post_init}

abbrev pub Bytes : Type 0
Bytes = List ℕ

pub record IssuedCredential : Type 0 where
  pub token_id : String
  pub access_token : String
  pub expires_at : ℕ

pub record RotatedCredential : Type 0 where
  pub credential : IssuedCredential
  pub previous_token_id : String
  pub previous_valid_until : ℕ

pub record TokenRecord : Type 0 where
  pub token_id : String
  pub verifier : Bytes
  pub session : TenantSession
  pub expires_at : ℕ
  pub issued_at : ℕ
  pub revoked_at : Option ℕ
  pub last_used_at : Option ℕ

-- What `uuid4` and `token_urlsafe` return at one call of the service.
pub record Fresh : Type 0 where
  pub identifier : String
  pub secret : String

-- The protocol `TokenStore`, over the state `S` of the object that implements it.
pub record TokenStore (S : Type 0) : Type 0 where
  pub save : TokenRecord → S → S
  pub get : S → String → Option TokenRecord
  pub revoke : String → ℕ → S → Bool × S
  pub mark_used : String → ℕ → S → S
  pub rotate : String → TokenRecord → ℕ → ℕ → S → Bool × S

-- What the service relies on, whichever object implements the protocol.
pub record IsTokenStore {S : Type 0} (store : TokenStore S) : Type 0 where
  -- a revoked token is found revoked, or not at all
  pub get-revoke :
      (token_id : String) (now : ℕ) (s : S) (r : TokenRecord)
      → store.get (store.revoke token_id now s).1 token_id ≡ some r
      → is_some r.revoked_at ≡ true
  -- a use changes nothing but the time of the last use
  pub get-mark_used :
      (token_id : String) (now : ℕ) (s : S) (j : String)
      → store.get (store.mark_used token_id now s) j
        ≡ map_some
            (λ r. if token_id == j then record r { last_used_at = some now } else r)
            (store.get s j)
  -- a rotated token was valid, and ends at the overlap's end or before
  pub get-rotate :
      (previous : String) (new : TokenRecord) (until now : ℕ) (s : S) (r : TokenRecord)
      → (store.rotate previous new until now s).0 ≡ true
      → store.get (store.rotate previous new until now s).1 previous ≡ some r
      → (old : TokenRecord) × (store.get s previous ≡ some old)
        × (old.revoked_at ≡ none)
        × (now < old.expires_at)
        × (r ≡ record old { expires_at = min_time old.expires_at until })
  -- a refused rotation changes nothing
  pub rotate_refused :
      (previous : String) (new : TokenRecord) (until now : ℕ) (s : S)
      → (store.rotate previous new until now s).0 ≡ false
      → (store.rotate previous new until now s).1 ≡ s

abbrev pub token_prefix : String
token_prefix = "mem1"

abbrev pub lift_result {ℓ} : {S A : Type ℓ} → Result A → Exec S A
lift_result r s = (r, s)

module _ {S : Type 0} (store : TokenStore S) (digest : String → Bytes) where
  -- `_build_record`
  unfoldable pub build_record :
      Fresh → TenantSession → ℤ → ℕ → Result (IssuedCredential × TokenRecord)
  unfolding post_init token_text
  build_record fresh session lifetime issued_at =
      elim (post_init (record session { token_id = some fresh.identifier })) [
        | err x ↦ err x
        | ok bound ↦ ok (
          record {
            token_id = fresh.identifier;
            access_token = token_text token_prefix fresh.identifier fresh.secret;
            expires_at = shift issued_at lifetime;
          },
          record {
            token_id = fresh.identifier;
            verifier = digest fresh.secret;
            session = bound;
            expires_at = shift issued_at lifetime;
            issued_at = issued_at;
            revoked_at = none;
            last_used_at = none;
          },
        )
      ]

  unfoldable pub issue : Fresh → TenantSession → ℤ → ℕ → Exec S IssuedCredential
  issue fresh session lifetime now = do
    built ← lift_result (build_record fresh session lifetime now)
    modify (store.save built.1)
    pure built.0

  unfoldable pub rotate : Fresh → String → TenantSession → ℤ → ℤ → ℕ → Exec S RotatedCredential
  rotate fresh previous_token_id session lifetime overlap now = do
    raise_if (leb_ℤ overlap (pos 0)) (value_error "Token rotation overlap must be positive")
    built ← lift_result (build_record fresh session lifetime now)
    let previous_valid_until = shift now overlap
    done ← (λ s.
        let (b, s') = store.rotate previous_token_id built.1 previous_valid_until now s in
        (ok b, s'))
    raise_if (not done) (authentication_error "Active Access Token not found for rotation")
    pure (record {
      credential = built.0;
      previous_token_id = previous_token_id;
      previous_valid_until = previous_valid_until;
    })

  -- `record is None or not compare_digest(...)`
  abbrev verified : String → TokenRecord → Bool
  verified secret r = r.verifier == digest secret

  unfoldable pub authenticate : String → ℕ → Exec S TenantSession
  authenticate access_token now = do
    parts ← present (split_token access_token) (authentication_error "Invalid Access Token")
    raise_if (not (parts.0 == token_prefix) || parts.2 == "")
        (authentication_error "Invalid Access Token")
    found ← gets (λ s. store.get s parts.1)
    r ← require (verified parts.2) found (authentication_error "Invalid Access Token")
    raise_if (is_some r.revoked_at || leb r.expires_at now)
        (authentication_error "Expired or revoked Access Token")
    modify (store.mark_used r.token_id now)
    pure r.session

  unfoldable pub revoke : String → ℕ → Exec S Bool
  revoke token_id now s = let (b, s') = store.revoke token_id now s in (ok b, s')
