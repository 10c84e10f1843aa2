-- ===== src/Tests/Operators.antt =====
-- Runs of the methods on Operators, and the instances of their theorems.
use text.Mathlib.TextEquality.{eq_iff}
use coengram.Prelude.{
  ℕ, Bool, Option, keep, ◌+◌, contains, subset, same_set, String, string_eq, list_eq, ◌≡◌, ◌≢◌,
  refl, true, false, none, some, [], ◌∷◌, inl, arith,
}
use coengram.Dict
use coengram.Exec.{ok}
use coengram.Auth.{split_dot, split_token, token_text, dotless}
use coengram.Models.{Roles}
use coengram.Operators.{
  Operators, OperatorRecord, OperatorSession, OperatorTokenRecord, IssuedAdminSession,
}
use coengram.Operators.Store as Store
use coengram.Operators.Store.{get_operator, count_active_operator_admins}
use coengram.Operators.Tokens as Tokens
use coengram.Operators.Sessions as Sessions
use coengram.Operators.Module.{
  create_operator, update_operator, authenticate_operator, create_admin_session,
  authenticate_admin_session, select_operator, require_other_admin, acting_operator,
}
use coengram.Operators.Admins.{HasAdmin, update_operator-HasAdmin}
use coengram.Operators.Revoked.{IsKeyed, differs, update_operator-Admits}
use coengram.Operators.Keyed.{kept-IsKeyed}
use coengram.Operators.RoundTrip.{half_an_hour, authenticate_admin_session-create_admin_session}
use coengram.Tests.Demo.{digest, fresh}

abbrev root : OperatorRecord
root = record { operator_id = "root"; name = "Root"; roles = "operator_admin" ∷ []; active = true }

abbrev sam : OperatorRecord
sam = record { operator_id = "sam"; name = "Sam"; roles = "audit_viewer" ∷ []; active = true }

abbrev token : String → OperatorRecord → OperatorTokenRecord
token id o = record {
  token_id = id;
  verifier = digest id;
  session = record {
    operator_id = o.operator_id;
    roles = o.roles;
    token_id = some id;
    session_id = none;
  };
  expires_at = 5000;
  issued_at = 1000;
  revoked_at = none;
  last_used_at = none;
}

-- two Operators with a token each
abbrev console : Operators
console = record {
  operators = record { entries = ("root", root) ∷ ("sam", sam) ∷ [] };
  operator_tokens = record { entries = ("r1", token "r1" root) ∷ ("s1", token "s1" sam) ∷ [] };
  admin_sessions = Dict.empty;
  operator_audit_events = Dict.empty;
}

console-IsKeyed : IsKeyed console
unfolding Dict.get Dict.lookup
console-IsKeyed = record { operators_keyed = λ k o found. grind (arith, eq_iff, found) }

console-HasAdmin : HasAdmin console
unfolding count_active_operator_admins Dict.values Dict.items Dict.distinct Dict.erase keep contains
console-HasAdmin = omega arith

update_operator-HasAdmin_example :
    HasAdmin (update_operator "root" none none (some false) 2000 console).1
update_operator-HasAdmin_example =
    update_operator-HasAdmin "root" none none (some false) 2000 console console-HasAdmin

abbrev sam_off : OperatorRecord
sam_off = record { operator_id = "sam"; name = "Sam"; roles = "audit_viewer" ∷ []; active = false }

sam-updated : (update_operator "sam" none none (some false) 2000 console).0 ≡ ok sam_off
unfolding update_operator select_operator require_other_admin Store.update_operator Store.revoke_all
    count_active_operator_admins Dict.values Dict.items Dict.distinct Dict.erase Dict.get
    Dict.lookup keep contains subset
sam-updated = refl

sam-found : get_operator console "sam" ≡ some sam
unfolding Dict.get Dict.lookup
sam-found = refl

sam-differs : differs sam sam_off ≡ true
unfolding same_set subset contains
sam-differs = refl

abbrev root_session : OperatorSession
root_session = record {
  operator_id = "root";
  roles = "operator_admin" ∷ [];
  token_id = some "r1";
  session_id = none;
}

root-accepted :
    (authenticate_operator digest "op1.r1.r1" 3000
      (update_operator "sam" none none (some false) 2000 console).1).0
    ≡ ok root_session
unfolding update_operator select_operator require_other_admin Store.update_operator Store.revoke_all
    count_active_operator_admins Dict.values Dict.items Dict.distinct Dict.erase Dict.get
    Dict.lookup Dict.put Dict.assign Dict.map_items Dict.update keep contains subset same_set
    authenticate_operator Tokens.authenticate Store.get_operator_token
    Store.mark_operator_token_used acting_operator split_token split_dot
root-accepted = refl

update_operator-Admits_example : root_session.operator_id ≢ "sam"
update_operator-Admits_example =
    update_operator-Admits digest "sam" none none (some false) 2000 console sam sam_off root_session
      console-IsKeyed sam-found sam-updated sam-differs (inl ("op1.r1.r1", 3000, root-accepted))

abbrev browser : IssuedAdminSession
browser = record {
  session_id = "a1";
  session_token = "adm1.a1.x1";
  csrf_token = "c1";
  session = record {
    operator_id = "root";
    roles = "operator_admin" ∷ [];
    token_id = some "r1";
    session_id = some "a1";
  };
  absolute_expires_at = 28800002000;
  idle_expires_at = 1800002000;
}

browser-created :
    (create_admin_session digest (fresh "a1" "x1") "c1" "op1.r1.r1" 2000 console).0 ≡ ok browser
unfolding create_admin_session Sessions.create Tokens.authenticate Store.get_operator_token
    Store.mark_operator_token_used acting_operator split_token split_dot token_text Dict.get
    Dict.lookup Dict.put Dict.assign same_set subset contains
browser-created = refl

authenticate_admin_session-create_admin_session_example :
    (browser.idle_expires_at ≡ 2000 + half_an_hour)
    × ((authenticate_admin_session digest "adm1.a1.x1"
          (some "c1")
          true
          3000
          (create_admin_session digest (fresh "a1" "x1") "c1" "op1.r1.r1" 2000 console).1).0
        ≡ ok browser.session)
unfolding dotless
authenticate_admin_session-create_admin_session_example =
    authenticate_admin_session-create_admin_session digest (fresh "a1" "x1") "c1" "op1.r1.r1" 2000
      3000 console browser console-IsKeyed refl refl browser-created (omega arith)

kept-IsKeyed_example :
    ((id name : String) (roles : Roles) → IsKeyed (create_operator id name roles console).1)
    × ((id : String) (name : Option String) (roles : Option Roles) (active : Option Bool) (now : ℕ)
        → IsKeyed (update_operator id name roles active now console).1)
kept-IsKeyed_example = kept-IsKeyed console console-IsKeyed
