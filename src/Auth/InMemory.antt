-- ===== src/Auth/InMemory.antt =====
-- auth.py, `InMemoryTokenStore`: the protocol over one dictionary.
use coengram.Prelude.{
  ℕ, String, ◌==◌, ◌≡◌, ◌<◌, Bool, true, false, none, some, arith, ◌||◌, leb, is_some,
  if◌then◌else◌, string_eq,
}
use coengram.Prelude.Int.{min_time}
use coengram.Dict
use text.Mathlib.TextEquality.{eq_iff}
use coengram.Dict.{Dict}
use coengram.Dict.Laws.{dict_laws, map_some}
use coengram.Auth.{TokenRecord, TokenStore, IsTokenStore}

abbrev pub Tokens : Type 0
Tokens = Dict String TokenRecord

unfoldable pub save : TokenRecord → Tokens → Tokens
save r s = Dict.put s r.token_id r

unfoldable pub revoke : String → ℕ → Tokens → Bool × Tokens
revoke token_id now s = elim (Dict.get s token_id) [
  | none ↦ (false, s)
  | some r ↦
      if is_some r.revoked_at
      then (true, s)
      else (true, Dict.put s token_id (record r { revoked_at = some now }))
]

unfoldable pub mark_used : String → ℕ → Tokens → Tokens
mark_used token_id now s = elim (Dict.get s token_id) [
  | none ↦ s
  | some r ↦ Dict.put s token_id (record r { last_used_at = some now })
]

unfoldable pub rotate : String → TokenRecord → ℕ → ℕ → Tokens → Bool × Tokens
rotate previous_token_id new until now s = elim (Dict.get s previous_token_id) [
  | none ↦ (false, s)
  | some r ↦
      if is_some r.revoked_at || leb r.expires_at now || is_some (Dict.get s new.token_id)
      then (false, s)
      else (
        true,
        Dict.put
            (Dict.put s previous_token_id (record r { expires_at = min_time r.expires_at until }))
            new.token_id new,
      )
]

abbrev pub memory_store : TokenStore Tokens
memory_store = record {
  save = save;
  get = Dict.get;
  revoke = revoke;
  mark_used = mark_used;
  rotate = rotate;
}

get-revoke :
    (token_id : String) (now : ℕ) (s : Tokens) (r : TokenRecord)
    → Dict.get (revoke token_id now s).1 token_id ≡ some r
    → is_some r.revoked_at ≡ true
unfolding revoke
get-revoke token_id now s r h = grind (arith, dict_laws, eq_iff)

get-mark_used :
    (token_id : String) (now : ℕ) (s : Tokens) (j : String)
    → Dict.get (mark_used token_id now s) j
      ≡ map_some
          (λ r. if token_id == j then record r { last_used_at = some now } else r)
          (Dict.get s j)
unfolding mark_used
get-mark_used token_id now s j = grind (arith, dict_laws, eq_iff)

get-rotate :
    (previous : String) (new : TokenRecord) (until now : ℕ) (s : Tokens) (r : TokenRecord)
    → (rotate previous new until now s).0 ≡ true
    → Dict.get (rotate previous new until now s).1 previous ≡ some r
    → (old : TokenRecord) × (Dict.get s previous ≡ some old)
      × (old.revoked_at ≡ none)
      × (now < old.expires_at)
      × (r ≡ record old { expires_at = min_time old.expires_at until })
unfolding rotate
get-rotate previous new until now s r h g = grind (arith, dict_laws, eq_iff)

rotate_refused :
    (previous : String) (new : TokenRecord) (until now : ℕ) (s : Tokens)
    → (rotate previous new until now s).0 ≡ false
    → (rotate previous new until now s).1 ≡ s
unfolding rotate
rotate_refused previous new until now s h = ground arith

get-revoke_there :
    (token_id : String) (now : ℕ) (s : Tokens) (r : TokenRecord)
    → Dict.get s token_id ≡ some r
    → ((revoke token_id now s).0 ≡ true)
      × (Dict.get (revoke token_id now s).1 token_id
          ≡ some (if is_some r.revoked_at then r else record r { revoked_at = some now }))
unfolding revoke
get-revoke_there token_id now s r h =
    (grind (arith, dict_laws, eq_iff, h), grind (arith, dict_laws, eq_iff, h))

pub memory_store-IsTokenStore :
    IsTokenStore memory_store
    × ((token_id : String) (now : ℕ) (s : Tokens) (r : TokenRecord)
        → Dict.get s token_id ≡ some r
        → ((revoke token_id now s).0 ≡ true)
          × (Dict.get (revoke token_id now s).1 token_id
              ≡ some (if is_some r.revoked_at then r else record r { revoked_at = some now })))
memory_store-IsTokenStore = (
  record {
    get-revoke = get-revoke;
    get-mark_used = get-mark_used;
    get-rotate = get-rotate;
    rotate_refused = rotate_refused;
  },
  get-revoke_there,
)
