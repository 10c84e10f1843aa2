-- ===== src/Operators/RoundTrip.antt =====
-- control.py: an Admin Session that was created is accepted, with its CSRF token, until it idles out.
use coengram.Prelude.{
  ℕ, String, ◌==◌, ◌+◌, ◌*◌, ==_iff, string_eq, list_eq, nat_eq, bool_eq, ◌≡◌, ◌<◌, refl, true,
  false, Option, none, some, arith, inl, inr, Option-cases, ap, ◌∙◌,
}
use coengram.Dict.Laws.{get-put_self}
use coengram.Exec.{ok, Result-cases}
use coengram.Auth.{Bytes, Fresh, token_text, dotless, split_token-token_text}
use coengram.Operators.{
  Operators, OperatorRecord, OperatorSession, IssuedAdminSession, AdminSessionRecord,
}
use coengram.Operators.Store as Store
use coengram.Operators.Store.{get_operator, may_act}
use coengram.Operators.Tokens as Tokens
use coengram.Operators.Sessions as Sessions
use coengram.Operators.Sessions.{session_prefix, idle_lifetime, absolute_lifetime}
use coengram.Operators.Module.{
  create_admin_session, authenticate_admin_session, acting_operator, session_of,
}
use coengram.Operators.Revoked.{IsKeyed}

found_saved :
    (s : Operators) (r : AdminSessionRecord) (o : OperatorRecord)
    → get_operator s r.session.operator_id ≡ some o
    → may_act (some o) ≡ true
    → Store.get_admin_session (Store.save_admin_session r s) r.session_id ≡ some r
unfolding Store.get_admin_session
found_saved s r o known acts =
    ground (arith, known, acts, get-put_self s.admin_sessions r.session_id r)

-- 30 minutes, in microseconds
abbrev pub half_an_hour : ℕ
half_an_hour = 30 * 60 * 1000000

module _ (digest : String → Bytes) where
  -- the record of a new Admin Session
  abbrev created : Fresh → String → OperatorSession → ℕ → AdminSessionRecord
  created fresh csrf_token session now = record {
    session_id = fresh.identifier;
    verifier = digest fresh.secret;
    csrf_verifier = digest csrf_token;
    session = session;
    absolute_expires_at = now + absolute_lifetime;
    idle_expires_at = now + idle_lifetime;
    issued_at = now;
    revoked_at = none;
    last_used_at = none;
  }

  create_ok :
      (fresh : Fresh) (csrf text : String) (now : ℕ) (s : Operators) (c : IssuedAdminSession)
      → (create_admin_session digest fresh csrf text now s).0 ≡ ok c
      → (k : String) × (o : OperatorRecord) × (t : Option String) × (get_operator
            (Tokens.authenticate digest text now s).1
            k
          ≡ some o)
        × (may_act (some o) ≡ true)
        × (c.session ≡ session_of o t (some fresh.identifier))
        × (c.session_token ≡ token_text session_prefix fresh.identifier fresh.secret)
        × (c.csrf_token ≡ csrf)
        × (c.idle_expires_at ≡ now + idle_lifetime)
        × ((create_admin_session digest fresh csrf text now s).1
            ≡ Store.save_admin_session
                (created fresh csrf c.session now)
                (Tokens.authenticate digest text now s).1)
  unfolding create_admin_session acting_operator Sessions.create
  create_ok fresh csrf text now s c h =
      elim (Result-cases (Tokens.authenticate digest text now s).0) [
        | inr (_, failed) ↦ absurd (ground (arith, failed))
        | inl (y, passed) ↦
            elim (Option-cases
              (get_operator (Tokens.authenticate digest text now s).1 y.operator_id)) [
                | inl missing ↦ absurd (ground (arith, passed, missing))
                | inr (o, found) ↦ (
                  y.operator_id,
                  o,
                  y.token_id,
                  found,
                  ground (arith, passed, found),
                  ground (arith, passed, found),
                  ground (arith, passed, found),
                  ground (arith, passed, found),
                  ground (arith, passed, found),
                  ground (arith, passed, found),
                )
              ]
      ]

  token_keeps :
      (text : String) (now : ℕ) (s : Operators)
      → (Tokens.authenticate digest text now s).1.operators ≡ s.operators
  unfolding Tokens.authenticate Store.mark_operator_token_used
  token_keeps text now s = ground arith

  -- `Sessions.authenticate` accepts a session that it finds live.
  session_accepts :
      (id secret csrf : String) (now : ℕ) (s : Operators) (r : AdminSessionRecord)
      → dotless id ≡ true
      → (secret == "") ≡ false
      → Store.get_admin_session s id ≡ some r
      → r.verifier ≡ digest secret
      → r.csrf_verifier ≡ digest csrf
      → r.revoked_at ≡ none
      → now < r.idle_expires_at
      → now < r.absolute_expires_at
      → ((Sessions.authenticate digest
            (token_text session_prefix id secret)
            (some csrf)
            true
            now
            s).0
          ≡ ok r.session)
        × ((Sessions.authenticate digest
              (token_text session_prefix id secret)
              (some csrf)
              true
              now
              s).1.operators
            ≡ s.operators)
  unfolding Sessions.authenticate Store.mark_admin_session_used dotless
  session_accepts id secret csrf now s r dl ne found v w live idle abs = ground (
    arith,
    split_token-token_text session_prefix id secret refl dl,
    ==_iff r.verifier (digest secret),
    ==_iff r.csrf_verifier (digest csrf),
  )

  operator_returned :
      (text csrf : String) (now : ℕ) (s : Operators) (y : OperatorSession) (o : OperatorRecord)
      → (Sessions.authenticate digest text (some csrf) true now s).0 ≡ ok y
      → (Sessions.authenticate digest text (some csrf) true now s).1.operators ≡ s.operators
      → get_operator s y.operator_id ≡ some o
      → may_act (some o) ≡ true
      → (authenticate_admin_session digest text (some csrf) true now s).0
        ≡ ok (session_of o y.token_id y.session_id)
  unfolding authenticate_admin_session acting_operator
  operator_returned text csrf now s y o passed same found acts =
      grind (arith, passed, same, found, acts)

  -- An Admin Session that was created, with an id without dots and a secret that is not empty, says that it
  -- is idle after 30 minutes, and is accepted with its CSRF token at any time before, as the session that
  -- the creation returned, if Operators are stored under their ids.
  pub authenticate_admin_session-create_admin_session :
      (fresh : Fresh) (csrf text : String) (now later : ℕ) (s : Operators) (c : IssuedAdminSession)
      → IsKeyed s
      → dotless fresh.identifier ≡ true
      → (fresh.secret == "") ≡ false
      → (create_admin_session digest fresh csrf text now s).0 ≡ ok c
      → later < now + half_an_hour
      → (c.idle_expires_at ≡ now + half_an_hour)
        × ((authenticate_admin_session digest c.session_token
              (some c.csrf_token)
              true
              later
              (create_admin_session digest fresh csrf text now s).1).0
            ≡ ok c.session)
  authenticate_admin_session-create_admin_session fresh csrf text now later s c h dl ne done l =
      let (k, o, t, found, acts, session, shown, csrf_shown, idle, made) =
        create_ok fresh csrf text now s c done in
      let s1 = (Tokens.authenticate digest text now s).1 in
      let r = created fresh csrf c.session now in
      let s' = Store.save_admin_session r s1 in
      let key : o.operator_id ≡ k =
        h.operators_keyed k o (grind (arith, found, token_keeps text now s)) in
      let known : get_operator s' c.session.operator_id ≡ some o = rw (session, key) found in
      let stored : Store.get_admin_session s' fresh.identifier ≡ some r =
        found_saved s1 r o known acts in
      let (accept, same) =
        session_accepts fresh.identifier fresh.secret csrf later s' r dl ne stored refl refl refl
          (ground (arith, l, idle)) (ground (arith, l, idle)) in
      (
        idle,
        rw (made, shown, csrf_shown)
            (operator_returned (token_text session_prefix fresh.identifier fresh.secret) csrf later
                s' c.session o accept same known acts
              ∙ ap (λ x. ok x) (grind (arith, session))),
      )
