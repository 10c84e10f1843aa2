-- ===== src/Tests/Tokens.antt =====
-- Runs of the token service, and the instances of its theorems.
use coengram.Prelude.{ℕ, String, string_eq, ◌≡◌, refl, none, some, [], ◌∷◌, arith}
use coengram.Prelude.Int.{pos}
use coengram.Dict
use coengram.Exec.{ok}
use coengram.Models.{user, TenantSession, post_init}
use coengram.Auth.{
  IssuedCredential, RotatedCredential, TokenRecord, issue, authenticate, rotate, revoke,
  build_record, split_dot, split_token, token_text, dotless, split_token-token_text,
}
use coengram.Auth.InMemory
use coengram.Auth.InMemory.{Tokens, memory_store, memory_store-IsTokenStore}
use coengram.Auth.Laws.{Rejects, authenticate-revoke, authenticate-rotate}
use coengram.Auth.RoundTrip.{authenticate-issue}
use coengram.Tests.Demo.{digest, fresh}

abbrev session : TenantSession
session = record {
  tenant_id = "acme";
  actor_id = "ana";
  actor_kind = user;
  roles = "tenant_member" ∷ [];
  subject_user_id = none;
  delegation_id = none;
  token_id = none;
}

abbrev ana_token : TokenRecord
ana_token = record {
  token_id = "t1";
  verifier = digest "s1";
  session = record session { token_id = some "t1" };
  expires_at = 5000;
  issued_at = 1000;
  revoked_at = none;
  last_used_at = none;
}

abbrev tokens : Tokens
tokens = record { entries = ("t1", ana_token) ∷ [] }

abbrev credential : String → String → ℕ → IssuedCredential
credential id text expires_at = record {
  token_id = id;
  access_token = text;
  expires_at = expires_at;
}

t1-splits : split_token "mem1.t1.s1" ≡ some ("mem1", "t1", "s1")
unfolding split_token split_dot
t1-splits = refl

split_token-token_text_example :
    split_token (token_text "mem1" "t1" "a.b") ≡ some ("mem1", "t1", "a.b")
unfolding dotless
split_token-token_text_example = split_token-token_text "mem1" "t1" "a.b" refl refl

issues-t1 :
    (issue memory_store digest (fresh "t1" "s1") session (pos 4000) 1000 Dict.empty).0
    ≡ ok (credential "t1" "mem1.t1.s1" 5000)
unfolding issue build_record post_init token_text
issues-t1 = refl

authenticate-issue_example :
    (authenticate memory_store digest "mem1.t1.s1" 2000
      (issue memory_store digest (fresh "t1" "s1") session (pos 4000) 1000 Dict.empty).1).0
    ≡ ok (record session { token_id = some "t1" })
unfolding dotless
authenticate-issue_example =
    authenticate-issue digest (fresh "t1" "s1") session (pos 4000) 1000 2000 Dict.empty
      (credential "t1" "mem1.t1.s1" 5000) refl refl issues-t1 (omega arith)

authenticate-revoke_example :
    Rejects memory_store digest "mem1.t1.s1" 3000 (revoke memory_store digest "t1" 2000 tokens).1
authenticate-revoke_example =
    authenticate-revoke memory_store-IsTokenStore.0 digest "mem1.t1.s1" "mem1" "t1" "s1" 2000 3000
      tokens t1-splits

abbrev rotated : RotatedCredential
rotated = record {
  credential = credential "t2" "mem1.t2.s2" 6000;
  previous_token_id = "t1";
  previous_valid_until = 2100;
}

rotates-t1 :
    (rotate memory_store digest (fresh "t2" "s2") "t1" session (pos 4000) (pos 100) 2000 tokens).0
    ≡ ok rotated
unfolding rotate build_record post_init token_text InMemory.rotate Dict.get Dict.lookup
rotates-t1 = refl

authenticate-rotate_example :
    Rejects memory_store digest "mem1.t1.s1" 2100
      (rotate memory_store digest (fresh "t2" "s2") "t1" session (pos 4000) (pos 100) 2000 tokens).1
authenticate-rotate_example =
    authenticate-rotate memory_store-IsTokenStore.0 digest (fresh "t2" "s2") "mem1.t1.s1" "mem1"
      "t1" "s1" session (pos 4000) (pos 100) 2000 2100 tokens rotated t1-splits rotates-t1
      (omega arith)
