-- ===== src/Operators/Sessions.antt =====
-- operator_auth.py, `AdminSessionService` over the Control Store.
use coengram.Prelude.{
  ℕ, String, ◌==◌, ◌+◌, string_eq, list_eq, nat_eq, Bool, not, ◌||◌, ◌&&◌, Option, none, some,
  is_some, holds, leb,
}
use coengram.Prelude.Int.{min_time}
use coengram.Exec.{
  ok, Exec, authentication_error, raise_if, modify, gets, present, require, pure, ◌>>=◌, ◌>>◌,
}
use coengram.Auth.{Bytes, Fresh, split_token, token_text}
use coengram.Operators.{Operators, OperatorSession, IssuedAdminSession, AdminSessionRecord}
use coengram.Operators.Store as Store

abbrev pub session_prefix : String
session_prefix = "adm1"

-- 30 minutes and 8 hours, in microseconds
abbrev pub idle_lifetime : ℕ
idle_lifetime = 1800000000

abbrev pub absolute_lifetime : ℕ
absolute_lifetime = 28800000000

module _ (digest : String → Bytes) where
  -- `bound` is the session with the id of the new Admin Session.
  abbrev pub bound : Fresh → OperatorSession → OperatorSession
  bound fresh session = record session { session_id = some fresh.identifier }

  -- The second text of `token_urlsafe` is the CSRF token.
  unfoldable pub create : Fresh → String → OperatorSession → ℕ → Exec Operators IssuedAdminSession
  unfolding token_text
  create fresh csrf_token session now = do
    modify (
        Store.save_admin_session (record {
          session_id = fresh.identifier;
          verifier = digest fresh.secret;
          csrf_verifier = digest csrf_token;
          session = bound fresh session;
          absolute_expires_at = now + absolute_lifetime;
          idle_expires_at = now + idle_lifetime;
          issued_at = now;
          revoked_at = none;
          last_used_at = none;
        }))
    pure (record {
      session_id = fresh.identifier;
      session_token = token_text session_prefix fresh.identifier fresh.secret;
      csrf_token = csrf_token;
      session = bound fresh session;
      absolute_expires_at = now + absolute_lifetime;
      idle_expires_at = now + idle_lifetime;
    })

  -- `csrf_token is None or not compare_digest(...)`, negated
  abbrev pub csrf_matches : AdminSessionRecord → Option String → Bool
  csrf_matches r = holds (λ t. r.csrf_verifier == digest t)

  unfoldable pub authenticate : String → Option String → Bool → ℕ → Exec Operators OperatorSession
  authenticate session_token csrf_token require_csrf now = do
    parts ← present (split_token session_token) (authentication_error "Invalid Admin Session")
    raise_if (not (parts.0 == session_prefix) || parts.2 == "")
        (authentication_error "Invalid Admin Session")
    found ← gets (λ s. Store.get_admin_session s parts.1)
    r ←
        require (λ r. r.verifier == digest parts.2) found
          (authentication_error "Invalid Admin Session")
    raise_if (require_csrf && not (csrf_matches r csrf_token))
        (authentication_error "Invalid Admin Session CSRF token")
    raise_if (is_some r.revoked_at || leb r.absolute_expires_at now || leb r.idle_expires_at now)
        (authentication_error "Admin Session expired or revoked")
    let next_idle_expiry = min_time (now + idle_lifetime) r.absolute_expires_at
    modify (Store.mark_admin_session_used r.session_id now next_idle_expiry)
    pure r.session

  unfoldable pub revoke : String → ℕ → Exec Operators Bool
  revoke session_id now s = let (b, s') = Store.revoke_admin_session session_id now s in (ok b, s')
