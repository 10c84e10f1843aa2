-- ===== src/Operators/Revoked.antt =====
-- control.py: a change of an Operator's roles or activity ends all of its tokens and sessions.
use text.Mathlib.TextEquality.{eq_iff}
use coengram.Prelude.{
  ℕ, String, ◌==◌, ==_refl, string_eq, bool_eq, ◌≡◌, ◌≢◌, ◌⊎◌, inl, inr, Bool, true, not, ◌||◌,
  Option, none, some, arith, same_set,
}
use coengram.Dict
use coengram.Dict.Laws.{dict_laws}
use coengram.Exec.{ok}
use coengram.Models.{Roles}
use coengram.Auth.{Bytes}
use coengram.Operators.{
  Operators, OperatorRecord, OperatorSession, OperatorTokenRecord, AdminSessionRecord,
}
use coengram.Operators.Store as Store
use coengram.Operators.Store.{get_operator}
use coengram.Operators.Tokens as Tokens
use coengram.Operators.Sessions as Sessions
use coengram.Operators.Module.{
  update_operator, authenticate_operator, authenticate_admin_session, acting_operator,
}
use coengram.Operators.Admins.{select_operator_reads, require_other_admin_reads}

-- Operators are stored under their ids.
pub record IsKeyed (s : Operators) : Type 0 where
  pub operators_keyed :
      (k : String) (o : OperatorRecord) → Dict.get s.operators k ≡ some o → o.operator_id ≡ k

-- the roles or the activity of the Operator differ
abbrev pub differs : OperatorRecord → OperatorRecord → Bool
differs a b = not (same_set a.roles b.roles) || not (a.active == b.active)

updated :
    (id : String) (name : Option String) (roles : Option Roles) (active : Option Bool) (now : ℕ)
    → (s : Operators) (c o : OperatorRecord) → get_operator s id ≡ some c
    → (update_operator id name roles active now s).0 ≡ ok o
    → differs c o ≡ true
    → ((update_operator id name roles active now s).1
        ≡ Store.revoke_all id now (record s { operators = Dict.put s.operators id o }))
      × (o.operator_id ≡ c.operator_id)
unfolding update_operator Store.update_operator
updated id name roles active now s c o found done changed =
    grind (arith, found, select_operator_reads, require_other_admin_reads, changed)

module _ (digest : String → Bytes) where
  -- The Operator is known by an accepted access token, or by an Admin Session.
  abbrev pub Admits : Operators → OperatorSession → Type 0
  Admits s x =
      ((text : String) × (now : ℕ) × ((authenticate_operator digest text now s).0 ≡ ok x))
      ⊎ ((text : String) × (csrf : Option String) × (require_csrf : Bool) × (now : ℕ)
          × ((authenticate_admin_session digest text csrf require_csrf now s).0 ≡ ok x))

  -- what an accepted token or session shows
  token_accepted :
      (text : String) (now : ℕ) (s : Operators) (x : OperatorSession)
      → (Tokens.authenticate digest text now s).0 ≡ ok x
      → (k : String) × (r : OperatorTokenRecord) × (Store.get_operator_token s k ≡ some r)
        × (r.session ≡ x)
        × (r.revoked_at ≡ none)
        × ((Tokens.authenticate digest text now s).1.operators ≡ s.operators)
  unfolding Tokens.authenticate Store.mark_operator_token_used
  token_accepted text now s x h = grind arith

  session_accepted :
      (text : String) (csrf : Option String) (b : Bool) (now : ℕ) (s : Operators)
      (x : OperatorSession)
      → (Sessions.authenticate digest text csrf b now s).0 ≡ ok x
      → (k : String) × (r : AdminSessionRecord) × (Store.get_admin_session s k ≡ some r)
        × (r.session ≡ x)
        × (r.revoked_at ≡ none)
        × ((Sessions.authenticate digest text csrf b now s).1.operators ≡ s.operators)
  unfolding Sessions.authenticate Store.mark_admin_session_used
  session_accepted text csrf b now s x h = grind arith

  operator_known :
      (text : String) (now : ℕ) (s : Operators) (x : OperatorSession)
      → (authenticate_operator digest text now s).0 ≡ ok x
      → (y : OperatorSession) × (o : OperatorRecord) × ((Tokens.authenticate digest text now s).0
          ≡ ok y)
        × (get_operator (Tokens.authenticate digest text now s).1 y.operator_id ≡ some o)
        × (x.operator_id ≡ o.operator_id)
  unfolding authenticate_operator acting_operator
  operator_known text now s x h = grind arith

  session_known :
      (text : String) (csrf : Option String) (b : Bool) (now : ℕ) (s : Operators)
      (x : OperatorSession)
      → (authenticate_admin_session digest text csrf b now s).0 ≡ ok x
      → (y : OperatorSession) × (o : OperatorRecord) × ((Sessions.authenticate digest text csrf b
            now s).0
          ≡ ok y)
        × (get_operator (Sessions.authenticate digest text csrf b now s).1 y.operator_id ≡ some o)
        × (x.operator_id ≡ o.operator_id)
  unfolding authenticate_admin_session acting_operator
  session_known text csrf b now s x h = grind arith

revoked_token :
    (id : String) (now : ℕ) (s : Operators) (k : String) (r : OperatorTokenRecord)
    → Store.get_operator_token (Store.revoke_all id now s) k ≡ some r
    → r.revoked_at ≡ none
    → r.session.operator_id ≢ id
unfolding Store.get_operator_token Store.revoke_all
revoked_token id now s k r found live same = grind (arith, dict_laws, eq_iff, ==_refl, same)

revoked_session :
    (id : String) (now : ℕ) (s : Operators) (k : String) (r : AdminSessionRecord)
    → Store.get_admin_session (Store.revoke_all id now s) k ≡ some r
    → r.revoked_at ≡ none
    → r.session.operator_id ≢ id
unfolding Store.get_admin_session Store.revoke_all
revoked_session id now s k r found live same = grind (arith, dict_laws, eq_iff, ==_refl, same)

keyed_put :
    (s : Operators) (id : String) (c o : OperatorRecord) (now : ℕ) (k : String) (p : OperatorRecord)
    → IsKeyed s
    → get_operator s id ≡ some c
    → o.operator_id ≡ c.operator_id
    → Dict.get
        (Store.revoke_all id now (record s { operators = Dict.put s.operators id o })).operators
        k
      ≡ some p
    → p.operator_id ≡ k
unfolding Store.revoke_all
keyed_put s id c o now k p h found same at =
    grind (arith, dict_laws, eq_iff, h.operators_keyed id c found, h.operators_keyed k p)

module _ (digest : String → Bytes) where
  revoked_all :
      (id : String) (now : ℕ) (s : Operators) (c o : OperatorRecord) (x : OperatorSession)
      → IsKeyed s
      → get_operator s id ≡ some c
      → o.operator_id ≡ c.operator_id
      → Admits digest
          (Store.revoke_all id now (record s { operators = Dict.put s.operators id o }))
          x
      → x.operator_id ≢ id
  revoked_all id now s c o x h found same (inl (text, later, accept)) at =
      let s' = Store.revoke_all id now (record s { operators = Dict.put s.operators id o }) in
      let (y, p, passed, known, named) = operator_known digest text later s' x accept in
      let (k, r, token, session, live, kept) = token_accepted digest text later s' y passed in
      let key = keyed_put s id c o now y.operator_id p h found same (grind (arith, kept, known)) in
      revoked_token id now (record s { operators = Dict.put s.operators id o }) k r token live
        (grind (arith, session, key, named, at))
  revoked_all id now s c o x h found same (inr (text, csrf, b, later, accept)) at =
      let s' = Store.revoke_all id now (record s { operators = Dict.put s.operators id o }) in
      let (y, p, passed, known, named) = session_known digest text csrf b later s' x accept in
      let (k, r, token, session, live, kept) =
        session_accepted digest text csrf b later s' y passed in
      let key = keyed_put s id c o now y.operator_id p h found same (grind (arith, kept, known)) in
      revoked_session id now (record s { operators = Dict.put s.operators id o }) k r token live
        (grind (arith, session, key, named, at))

  -- If Operators are stored under their ids, then once `update_operator` has returned with other roles or
  -- another activity, no access token and no Admin Session of the Operator is accepted.
  pub update_operator-Admits :
      (id : String) (name : Option String) (roles : Option Roles) (active : Option Bool) (now : ℕ)
      → (s : Operators) (c o : OperatorRecord) (x : OperatorSession) → IsKeyed s
      → get_operator s id ≡ some c
      → (update_operator id name roles active now s).0 ≡ ok o
      → differs c o ≡ true
      → Admits digest (update_operator id name roles active now s).1 x
      → x.operator_id ≢ id
  update_operator-Admits id name roles active now s c o x h found done changed admits =
      let (made, same) = updated id name roles active now s c o found done changed in
      revoked_all id now s c o x h found same (rw (← made) admits)
