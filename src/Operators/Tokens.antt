-- ===== src/Operators/Tokens.antt =====
-- operator_auth.py, `OperatorTokenService` over the Control Store.
use coengram.Prelude.{
  ℕ, String, ◌==◌, string_eq, list_eq, nat_eq, Bool, not, ◌||◌, none, some, is_some, leb,
}
use coengram.Prelude.Int.{ℤ, pos, leb_ℤ, shift}
use coengram.Exec.{
  ok, Exec, value_error, authentication_error, raise_if, modify, gets, present, require, pure,
  ◌>>=◌, ◌>>◌,
}
use coengram.Auth.{Bytes, Fresh, IssuedCredential, RotatedCredential, split_token, token_text}
use coengram.Operators.{Operators, OperatorSession, OperatorTokenRecord}
use coengram.Operators.Store as Store

abbrev pub operator_prefix : String
operator_prefix = "op1"

module _ (digest : String → Bytes) where
  -- `_build_record`
  unfoldable pub build_record :
      Fresh → OperatorSession → ℤ → ℕ → IssuedCredential × OperatorTokenRecord
  unfolding token_text
  build_record fresh session lifetime issued_at = (
    record {
      token_id = fresh.identifier;
      access_token = token_text operator_prefix fresh.identifier fresh.secret;
      expires_at = shift issued_at lifetime;
    },
    record {
      token_id = fresh.identifier;
      verifier = digest fresh.secret;
      session = record {
        operator_id = session.operator_id;
        roles = session.roles;
        token_id = some fresh.identifier;
        session_id = none;
      };
      expires_at = shift issued_at lifetime;
      issued_at = issued_at;
      revoked_at = none;
      last_used_at = none;
    },
  )

  unfoldable pub issue : Fresh → OperatorSession → ℤ → ℕ → Exec Operators IssuedCredential
  issue fresh session lifetime now = do
    let built = build_record fresh session lifetime now
    modify (Store.save_operator_token built.1)
    pure built.0

  unfoldable pub rotate :
      Fresh → String → OperatorSession → ℤ → ℤ → ℕ → Exec Operators RotatedCredential
  rotate fresh previous_token_id session lifetime overlap now = do
    raise_if (leb_ℤ overlap (pos 0))
        (value_error "Operator Access Token rotation overlap must be positive")
    let built = build_record fresh session lifetime now
    let previous_valid_until = shift now overlap
    done ← (λ s.
        let (b, s') =
          Store.rotate_operator_token previous_token_id built.1 previous_valid_until now s in
        (ok b, s'))
    raise_if (not done) (authentication_error "Active Operator Access Token not found for rotation")
    pure (record {
      credential = built.0;
      previous_token_id = previous_token_id;
      previous_valid_until = previous_valid_until;
    })

  unfoldable pub authenticate : String → ℕ → Exec Operators OperatorSession
  authenticate access_token now = do
    parts ←
        present (split_token access_token) (authentication_error "Invalid Operator Access Token")
    raise_if (not (parts.0 == operator_prefix) || parts.2 == "")
        (authentication_error "Invalid Operator Access Token")
    found ← gets (λ s. Store.get_operator_token s parts.1)
    r ←
        require (λ r. r.verifier == digest parts.2) found
          (authentication_error "Invalid Operator Access Token")
    raise_if (is_some r.revoked_at || leb r.expires_at now)
        (authentication_error "Expired or revoked Operator Access Token")
    modify (Store.mark_operator_token_used r.token_id now)
    pure r.session

  unfoldable pub revoke : String → ℕ → Exec Operators Bool
  revoke token_id now s = let (b, s') = Store.revoke_operator_token token_id now s in (ok b, s')
