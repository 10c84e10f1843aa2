-- ===== src/Operators/Module.antt =====
-- control.py, `ControlModule`: the methods on Operators, their tokens, their Admin Sessions and the
-- audit.
use coengram.Prelude.{
  ℕ, String, ◌==◌, ◌-◌, string_eq, Bool, true, not, ◌&&◌, ◌||◌, Option, none, List, [], ◌∷◌,
  is_some, default, contains, subset, same_set, leb, ltb,
}
use coengram.Prelude.Int.{ℤ, pos, leb_ℤ, ltb_ℤ, min_ℤ}
use coengram.Prelude.Text.{strip}
use coengram.Exec.{
  Exec, value_error, permission_error, authentication_error, control_not_found, raise_if, modify,
  gets, present, require, pure, ◌>>=◌, ◌>>◌, Nothing,
}
use coengram.Dict.Laws.{map_some}
use coengram.Models.{Roles}
use coengram.Auth.{Bytes, Fresh, IssuedCredential, RotatedCredential}
use coengram.Operators.{
  Operators, OperatorRecord, OperatorSession, OperatorTokenRecord, IssuedAdminSession,
  OperatorAuditEvent,
}
use coengram.Operators.Store as Store
use coengram.Operators.Store.{get_operator, may_act}
use coengram.Operators.Tokens as Tokens
use coengram.Operators.Sessions as Sessions
use coengram.Control.Access.{maximum_overlap}

-- roles.py
abbrev pub valid_operator_roles : Roles
valid_operator_roles =
    "operator_admin" ∷ "identity_admin" ∷ "tenant_provisioner" ∷ "tenant_support"
    ∷ "knowledge_admin" ∷ "token_admin" ∷ "audit_viewer" ∷ []

-- `OPERATOR_TOKEN_LIFETIME`, 30 days in microseconds
abbrev pub operator_token_lifetime : ℤ
operator_token_lifetime = pos 2592000000000

unfoldable pub create_operator : String → String → Roles → Exec Operators OperatorRecord
create_operator operator_id name roles = do
  let normalized_name = strip name
  raise_if (normalized_name == "") (value_error "Operator name cannot be empty")
  raise_if (not (subset roles valid_operator_roles)) (value_error "Unknown Operator Roles")
  let r : OperatorRecord = record {
    operator_id = operator_id;
    name = normalized_name;
    roles = roles;
    active = true;
  }
  Store.add_operator r
  pure r

abbrev pub inspect_operator : String → Exec Operators OperatorRecord
inspect_operator id = do
  found ← gets (λ s. get_operator s id)
  present found (control_not_found "Operator not found")

-- the test of `update_operator` that a change takes away an administrator
abbrev pub removes_admin : OperatorRecord → Roles → Bool → Bool
removes_admin current roles active =
    current.active
    && contains "operator_admin" current.roles
    && (not active || not (contains "operator_admin" roles))

-- The checks of `update_operator` on what it was given, with the name, the roles and the activity that
-- they select.
unfoldable pub select_operator :
    OperatorRecord
    → Option String
    → Option Roles
    → Option Bool
    → Exec Operators (String × (Roles × Bool))
select_operator current name roles active = do
  raise_if (not (is_some name) && not (is_some roles) && not (is_some active))
      (value_error "Operator update requires a name, roles, or active state")
  let normalized_name = default current.name (map_some strip name)
  raise_if (normalized_name == "") (value_error "Operator name cannot be empty")
  let selected_roles = default current.roles roles
  raise_if (not (subset selected_roles valid_operator_roles)) (value_error "Unknown Operator Roles")
  pure (normalized_name, (selected_roles, default current.active active))

-- The check of `update_operator` for the final administrator.
unfoldable pub require_other_admin : OperatorRecord → Roles → Bool → Exec Operators Nothing
require_other_admin current roles active = do
  count ← gets Store.count_active_operator_admins
  raise_if (removes_admin current roles active && leb count 1)
      (value_error "Cannot remove the final active operator_admin")

unfoldable pub update_operator :
    String → Option String → Option Roles → Option Bool → ℕ → Exec Operators OperatorRecord
update_operator id name roles active now = do
  current ← inspect_operator id
  selected ← select_operator current name roles active
  require_other_admin current selected.1.0 selected.1.1
  Store.update_operator id selected.0 selected.1.0 selected.1.1 now

-- `OperatorSession(operator_id=operator.operator_id, roles=operator.roles, ...)`
abbrev pub session_of : OperatorRecord → Option String → Option String → OperatorSession
session_of o token_id session_id = record {
  operator_id = o.operator_id;
  roles = o.roles;
  token_id = token_id;
  session_id = session_id;
}

-- `inspect_operator` and the check that the Operator is active and has roles
unfoldable pub acting_operator : String → Exec Operators OperatorRecord
acting_operator id = do
  operator ← inspect_operator id
  raise_if (not operator.active || same_set operator.roles [])
      (authentication_error "Active Operator with roles not found")
  pure operator

abbrev bad_operator_lifetime : ℤ → Bool
bad_operator_lifetime l = leb_ℤ l (pos 0) || ltb_ℤ operator_token_lifetime l

module _ (digest : String → Bytes) where
  unfoldable pub issue_operator_access_token :
      Fresh → String → Option ℤ → ℕ → Exec Operators IssuedCredential
  issue_operator_access_token fresh operator_id lifetime now = do
    operator ← inspect_operator operator_id
    raise_if (not operator.active) (control_not_found "Active Operator not found")
    raise_if (same_set operator.roles [])
        (permission_error "Operator Access Token requires at least one Operator Role")
    let requested = default operator_token_lifetime lifetime
    raise_if (bad_operator_lifetime requested)
        (value_error "Operator Access Token lifetime exceeds the platform maximum")
    Tokens.issue digest fresh (session_of operator none none) requested now

  unfoldable pub authenticate_operator : String → ℕ → Exec Operators OperatorSession
  authenticate_operator access_token now = do
    session ← Tokens.authenticate digest access_token now
    operator ← acting_operator session.operator_id
    pure (session_of operator session.token_id none)

  unfoldable pub revoke_operator_access_token : String → ℕ → Exec Operators Bool
  revoke_operator_access_token token_id now = Tokens.revoke digest token_id now

  unfoldable pub rotate_operator_access_token :
      Fresh → String → ℤ → Option ℤ → ℕ → Exec Operators RotatedCredential
  rotate_operator_access_token fresh token_id overlap lifetime now = do
    raise_if (leb_ℤ overlap (pos 0) || ltb_ℤ maximum_overlap overlap)
        (value_error "Operator token rotation overlap must be between 1 second and 24 hours")
    found ← gets (λ s. Store.get_operator_token s token_id)
    previous ←
        require (λ r. not (is_some r.revoked_at || leb r.expires_at now)) found
          (control_not_found "Active Operator Access Token not found")
    operator ← inspect_operator previous.session.operator_id
    raise_if (not operator.active || same_set operator.roles [])
        (control_not_found "Active Operator not found")
    let requested = default operator_token_lifetime lifetime
    raise_if (bad_operator_lifetime requested)
        (value_error "Replacement Operator Access Token lifetime exceeds maximum")
    let bounded_overlap = min_ℤ overlap (pos (previous.expires_at - now))
    Tokens.rotate digest fresh token_id (session_of operator none none) requested bounded_overlap
        now

  unfoldable pub create_admin_session :
      Fresh → String → String → ℕ → Exec Operators IssuedAdminSession
  create_admin_session fresh csrf_token operator_access_token now = do
    session ← Tokens.authenticate digest operator_access_token now
    operator ← acting_operator session.operator_id
    Sessions.create digest fresh csrf_token (session_of operator session.token_id none) now

  unfoldable pub authenticate_admin_session :
      String → Option String → Bool → ℕ → Exec Operators OperatorSession
  authenticate_admin_session session_token csrf_token require_csrf now = do
    session ← Sessions.authenticate digest session_token csrf_token require_csrf now
    operator ← acting_operator session.operator_id
    pure (session_of operator session.token_id session.session_id)

  unfoldable pub revoke_admin_session : String → ℕ → Exec Operators Bool
  revoke_admin_session session_id now = Sessions.revoke digest session_id now

unfoldable pub list_operator_tokens : String → Exec Operators (List OperatorTokenRecord)
list_operator_tokens operator_id = do
  found ← gets (λ s. get_operator s operator_id)
  present found (control_not_found "Operator not found")
  gets (λ s. Store.list_operator_token_records s operator_id)

-- `create_operator_audit_event`; `event_id` is what `uuid4` returns
unfoldable pub create_operator_audit_event :
    String
    → OperatorSession
    → String
    → String
    → List (String × String)
    → String
    → Option String
    → Option (List (String × String))
    → Option (List (String × String))
    → ℕ
    → OperatorAuditEvent
create_operator_audit_event event_id session action target_type target_ids outcome request_ref
      before after now =
    record {
      event_id = event_id;
      operator_id = session.operator_id;
      roles = session.roles;
      action = action;
      target_type = target_type;
      target_ids = target_ids;
      outcome = outcome;
      created_at = now;
      request_ref = request_ref;
      before_metadata = before;
      after_metadata = after;
    }

unfoldable pub record_operator_audit_event : OperatorAuditEvent → Exec Operators OperatorAuditEvent
record_operator_audit_event event = do modify (Store.save_operator_audit_event event); pure event

unfoldable pub list_operator_audit_events : ℕ → Exec Operators (List OperatorAuditEvent)
list_operator_audit_events limit = do
  raise_if (ltb limit 1 || ltb 500 limit)
      (value_error "Operator Audit Event limit must be between 1 and 500")
  gets (λ s. Store.list_operator_audit_events s limit)
