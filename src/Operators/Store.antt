-- ===== src/Operators/Store.antt =====
-- control.py, `InMemoryControlStore`: the methods on Operators, their tokens, sessions and audit events.
use coengram.Prelude.{
  ℕ, String, ◌==◌, string_eq, Bool, true, false, not, ◌&&◌, ◌||◌, Option, none, some, List, [],
  if◌then◌else◌, is_some, holds, contains, same_set, keep, length, leb, bool_eq, nat_eq, ltb, take,
}
use coengram.Prelude.Int.{min_time}
use coengram.Prelude.Text.{str_leb}
use coengram.Prelude.Sort.{sort}
use coengram.Exec.{
  Exec, control_conflict, control_not_found, raise_if, modify, gets, present, pure, ◌>>=◌, ◌>>◌,
  Nothing,
}
use coengram.Dict
use coengram.Models.{Roles}
use coengram.Operators.{
  Operators, OperatorRecord, OperatorTokenRecord, AdminSessionRecord, OperatorAuditEvent,
}

abbrev pub get_operator : Operators → String → Option OperatorRecord
get_operator s id = Dict.get s.operators id

unfoldable pub add_operator : OperatorRecord → Exec Operators Nothing
add_operator r = do
  old ← gets (λ s. get_operator s r.operator_id)
  raise_if (is_some old) (control_conflict "Operator already exists")
  modify (λ s. record s { operators = Dict.put s.operators r.operator_id r })

unfoldable pub list_operators : Operators → List OperatorRecord
list_operators s = Dict.sorted_values str_leb s.operators

abbrev pub revoke_token : String → ℕ → OperatorTokenRecord → OperatorTokenRecord
revoke_token operator_id now r =
    if r.session.operator_id == operator_id && not (is_some r.revoked_at)
    then record r { revoked_at = some now }
    else r

abbrev pub revoke_session : String → ℕ → AdminSessionRecord → AdminSessionRecord
revoke_session operator_id now r =
    if r.session.operator_id == operator_id && not (is_some r.revoked_at)
    then record r { revoked_at = some now }
    else r

-- The loops of `update_operator` over the Operator's tokens and sessions.
unfoldable pub revoke_all : String → ℕ → Operators → Operators
revoke_all operator_id now s = record s {
  operator_tokens = Dict.map_items (λ k. revoke_token operator_id now) s.operator_tokens;
  admin_sessions = Dict.map_items (λ k. revoke_session operator_id now) s.admin_sessions;
}

unfoldable pub update_operator : String → String → Roles → Bool → ℕ → Exec Operators OperatorRecord
update_operator id name roles active now = do
  found ← gets (λ s. get_operator s id)
  current ← present found (control_not_found "Operator not found")
  let updated = record current { name = name; roles = roles; active = active }
  modify (λ s. record s { operators = Dict.put s.operators id updated })
  modify (λ s.
      if not (same_set current.roles roles) || not (current.active == active)
      then revoke_all id now s
      else s)
  pure updated

abbrev pub is_active_admin : OperatorRecord → Bool
is_active_admin r = r.active && contains "operator_admin" r.roles

unfoldable pub count_active_operator_admins : Operators → ℕ
count_active_operator_admins s = length (keep is_active_admin (Dict.values s.operators))

-- `operator is None or not operator.active or not operator.roles`, negated
abbrev pub may_act : Option OperatorRecord → Bool
may_act = holds (λ o. o.active && not (same_set o.roles []))

abbrev pub save_operator_token : OperatorTokenRecord → Operators → Operators
save_operator_token r s = record s { operator_tokens = Dict.put s.operator_tokens r.token_id r }

unfoldable pub get_operator_token : Operators → String → Option OperatorTokenRecord
get_operator_token s token_id = elim (Dict.get s.operator_tokens token_id) [
  | none ↦ none
  | some r ↦ if may_act (get_operator s r.session.operator_id) then some r else none
]

unfoldable pub revoke_operator_token : String → ℕ → Operators → Bool × Operators
revoke_operator_token token_id now s = elim (Dict.get s.operator_tokens token_id) [
  | none ↦ (false, s)
  | some r ↦ if is_some r.revoked_at then (true, s) else (
    true,
    record s {
      operator_tokens = Dict.put s.operator_tokens token_id (record r { revoked_at = some now });
    },
  )
]

unfoldable pub mark_operator_token_used : String → ℕ → Operators → Operators
mark_operator_token_used token_id now s = elim (Dict.get s.operator_tokens token_id) [
  | none ↦ s
  | some r ↦ record s {
    operator_tokens = Dict.put s.operator_tokens token_id (record r { last_used_at = some now });
  }
]

unfoldable pub rotate_operator_token :
    String → OperatorTokenRecord → ℕ → ℕ → Operators → Bool × Operators
rotate_operator_token previous_token_id new until now s =
    elim (get_operator_token s previous_token_id) [
      | none ↦ (false, s)
      | some r ↦
          if is_some r.revoked_at
            || leb r.expires_at now
            || is_some (Dict.get s.operator_tokens new.token_id)
            || not (r.session.operator_id == new.session.operator_id)
          then (false, s)
          else (
            true,
            record s {
              operator_tokens =
                  Dict.put
                    (Dict.put s.operator_tokens previous_token_id
                      (record r { expires_at = min_time r.expires_at until }))
                    new.token_id new;
            },
          )
    ]

-- the order of `(record.issued_at, record.token_id)`
abbrev pub token_leb : OperatorTokenRecord → OperatorTokenRecord → Bool
token_leb a b =
    ltb a.issued_at b.issued_at || a.issued_at == b.issued_at && str_leb a.token_id b.token_id

unfoldable pub list_operator_token_records : Operators → String → List OperatorTokenRecord
list_operator_token_records s operator_id =
    sort token_leb
      (keep (λ r. r.session.operator_id == operator_id) (Dict.values s.operator_tokens))

abbrev pub save_admin_session : AdminSessionRecord → Operators → Operators
save_admin_session r s = record s { admin_sessions = Dict.put s.admin_sessions r.session_id r }

unfoldable pub get_admin_session : Operators → String → Option AdminSessionRecord
get_admin_session s session_id = elim (Dict.get s.admin_sessions session_id) [
  | none ↦ none
  | some r ↦ if may_act (get_operator s r.session.operator_id) then some r else none
]

unfoldable pub revoke_admin_session : String → ℕ → Operators → Bool × Operators
revoke_admin_session session_id now s = elim (Dict.get s.admin_sessions session_id) [
  | none ↦ (false, s)
  | some r ↦ if is_some r.revoked_at then (true, s) else (
    true,
    record s {
      admin_sessions = Dict.put s.admin_sessions session_id (record r { revoked_at = some now });
    },
  )
]

unfoldable pub mark_admin_session_used : String → ℕ → ℕ → Operators → Operators
mark_admin_session_used session_id now idle_expires_at s =
    elim (Dict.get s.admin_sessions session_id) [
      | none ↦ s
      | some r ↦ record s {
        admin_sessions =
            Dict.put s.admin_sessions session_id
              (record r { last_used_at = some now; idle_expires_at = idle_expires_at });
      }
    ]

abbrev pub save_operator_audit_event : OperatorAuditEvent → Operators → Operators
save_operator_audit_event e s = record s {
  operator_audit_events = Dict.put s.operator_audit_events e.event_id e;
}

-- `sorted(..., key=(created_at, event_id), reverse=True)`: keys are distinct, so the order is the other
abbrev pub event_geb : OperatorAuditEvent → OperatorAuditEvent → Bool
event_geb a b =
    ltb b.created_at a.created_at || a.created_at == b.created_at && str_leb b.event_id a.event_id

unfoldable pub list_operator_audit_events : Operators → ℕ → List OperatorAuditEvent
list_operator_audit_events s limit =
    take limit (sort event_geb (Dict.values s.operator_audit_events))
