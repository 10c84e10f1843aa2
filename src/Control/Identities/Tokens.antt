-- ===== src/Control/Identities/Tokens.antt =====
-- control.py, `InMemoryControlStore`: the methods on access tokens. A token is found only while its
-- Tenant, Principal, Membership and Delegation are active.
use text.Mathlib.TextEquality.{eq_iff}
use coengram.Prelude.{
  ℕ, String, ◌==◌, string_eq, pair_eq, ◌≡◌, ◌<◌, Bool, true, false, not, ◌&&◌, ◌||◌, Option, none,
  some, arith, if◌then◌else◌, is_some, holds, leb,
}
use coengram.Prelude.Int.{min_time}
use coengram.Dict
use coengram.Dict.Laws.{dict_laws, map_some}
use coengram.Auth.{TokenRecord, TokenStore, IsTokenStore}
use coengram.Control.Identities.{
  Identities, get_tenant, get_principal, get_membership, get_delegation,
}

-- the tests of `get` on the session of the record that it found
unfoldable pub is_live : Identities → TokenRecord → Bool
is_live s r =
    holds (λ t. t.active) (get_tenant s r.session.tenant_id)
    && holds (λ p. p.active) (get_principal s r.session.actor_id)
    && holds (λ m. m.active) (get_membership s r.session.tenant_id r.session.actor_id)
    && (not (is_some r.session.delegation_id)
        || holds (λ id. holds (λ d. d.active) (get_delegation s id)) r.session.delegation_id)

unfoldable pub get : Identities → String → Option TokenRecord
unfolding is_live
get s token_id = elim (Dict.get s.tokens token_id) [
  | none ↦ none
  | some r ↦ if is_live s r then some r else none
]

unfoldable pub save : TokenRecord → Identities → Identities
save r s = record s { tokens = Dict.put s.tokens r.token_id r }

unfoldable pub revoke : String → ℕ → Identities → Bool × Identities
revoke token_id now s = elim (Dict.get s.tokens token_id) [
  | none ↦ (false, s)
  | some r ↦ if is_some r.revoked_at then (true, s) else (
    true,
    record s { tokens = Dict.put s.tokens token_id (record r { revoked_at = some now }) },
  )
]

unfoldable pub mark_used : String → ℕ → Identities → Identities
mark_used token_id now s = elim (Dict.get s.tokens token_id) [
  | none ↦ s
  | some r ↦ record s { tokens = Dict.put s.tokens token_id (record r { last_used_at = some now }) }
]

unfoldable pub rotate : String → TokenRecord → ℕ → ℕ → Identities → Bool × Identities
unfolding get
rotate previous_token_id new until now s = elim (get s previous_token_id) [
  | none ↦ (false, s)
  | some r ↦
      if is_some r.revoked_at || leb r.expires_at now || is_some (Dict.get s.tokens new.token_id)
      then (false, s)
      else (
        true,
        record s {
          tokens =
              Dict.put
                (Dict.put s.tokens previous_token_id
                  (record r { expires_at = min_time r.expires_at until }))
                new.token_id new;
        },
      )
]

abbrev pub store : TokenStore Identities
store = record { save = save; get = get; revoke = revoke; mark_used = mark_used; rotate = rotate }

get-revoke :
    (token_id : String) (now : ℕ) (s : Identities) (r : TokenRecord)
    → get (revoke token_id now s).1 token_id ≡ some r
    → is_some r.revoked_at ≡ true
unfolding get revoke
get-revoke token_id now s r h = grind (arith, dict_laws, eq_iff)

get-mark_used :
    (token_id : String) (now : ℕ) (s : Identities) (j : String)
    → get (mark_used token_id now s) j
      ≡ map_some (λ r. if token_id == j then record r { last_used_at = some now } else r) (get s j)
unfolding get mark_used
get-mark_used token_id now s j = grind (arith, dict_laws, eq_iff)

get-rotate :
    (previous : String) (new : TokenRecord) (until now : ℕ) (s : Identities) (r : TokenRecord)
    → (rotate previous new until now s).0 ≡ true
    → get (rotate previous new until now s).1 previous ≡ some r
    → (old : TokenRecord) × (get s previous ≡ some old)
      × (old.revoked_at ≡ none)
      × (now < old.expires_at)
      × (r ≡ record old { expires_at = min_time old.expires_at until })
unfolding rotate
get-rotate previous new until now s r h g = grind (arith, dict_laws, eq_iff)

rotate_refused :
    (previous : String) (new : TokenRecord) (until now : ℕ) (s : Identities)
    → (rotate previous new until now s).0 ≡ false
    → (rotate previous new until now s).1 ≡ s
unfolding rotate
rotate_refused previous new until now s h = ground arith

pub store-IsTokenStore : IsTokenStore store
store-IsTokenStore = record {
  get-revoke = get-revoke;
  get-mark_used = get-mark_used;
  get-rotate = get-rotate;
  rotate_refused = rotate_refused;
}
