-- ===== src/Operators.antt =====
-- control.py, operator_auth.py and operator_audit.py: the Operators of the service, their access
-- tokens, their Admin Sessions in the browser and the audit of what they do. `Operators` is the part of
-- the Control Store's state that these read and write.
pub mod Store
pub mod Tokens
pub mod Sessions
pub mod Module
pub mod Admins
pub mod Revoked
pub mod RoundTrip
pub mod Keyed
use coengram.Prelude.{ℕ, String, Bool, Option, List}
use coengram.Dict
use coengram.Dict.{Dict}
use coengram.Auth.{Bytes}
use coengram.Models.{Roles}

pub record OperatorRecord : Type 0 where
  pub operator_id : String
  pub name : String
  pub roles : Roles
  pub active : Bool

pub record OperatorSession : Type 0 where
  pub operator_id : String
  pub roles : Roles
  pub token_id : Option String
  pub session_id : Option String

pub record OperatorTokenRecord : Type 0 where
  pub token_id : String
  pub verifier : Bytes
  pub session : OperatorSession
  pub expires_at : ℕ
  pub issued_at : ℕ
  pub revoked_at : Option ℕ
  pub last_used_at : Option ℕ

pub record IssuedAdminSession : Type 0 where
  pub session_id : String
  pub session_token : String
  pub csrf_token : String
  pub session : OperatorSession
  pub absolute_expires_at : ℕ
  pub idle_expires_at : ℕ

pub record AdminSessionRecord : Type 0 where
  pub session_id : String
  pub verifier : Bytes
  pub csrf_verifier : Bytes
  pub session : OperatorSession
  pub absolute_expires_at : ℕ
  pub idle_expires_at : ℕ
  pub issued_at : ℕ
  pub revoked_at : Option ℕ
  pub last_used_at : Option ℕ

pub record OperatorAuditEvent : Type 0 where
  pub event_id : String
  pub operator_id : String
  pub roles : Roles
  pub action : String
  pub target_type : String
  pub target_ids : List (String × String)
  pub outcome : String
  pub created_at : ℕ
  pub request_ref : Option String
  pub before_metadata : Option (List (String × String))
  pub after_metadata : Option (List (String × String))

pub record Operators : Type 0 where
  pub operators : Dict String OperatorRecord
  pub operator_tokens : Dict String OperatorTokenRecord
  pub admin_sessions : Dict String AdminSessionRecord
  pub operator_audit_events : Dict String OperatorAuditEvent

abbrev pub init : Operators
init = record {
  operators = Dict.empty;
  operator_tokens = Dict.empty;
  admin_sessions = Dict.empty;
  operator_audit_events = Dict.empty;
}
