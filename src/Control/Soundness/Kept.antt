-- ===== src/Control/Soundness/Kept.antt =====
-- control.py: what the revocation of tokens leaves as it was.
use coengram.Prelude.{ℕ, String, string_eq, ◌≡◌, Bool, false, some, is_some, arith}
use coengram.Dict
use coengram.Dict.{Dict}
use coengram.Dict.Laws.{get-map_items}
use coengram.Auth.{TokenRecord}
use coengram.Control.Identities.Revoke.{revoke_record}

-- A token that is left unrevoked was unrevoked before, and does not match.
pub kept_token :
    (p : TokenRecord → Bool) (now : ℕ) (tokens : Dict String TokenRecord) (k : String)
    → (r : TokenRecord) → Dict.get (Dict.map_items (λ i r. revoke_record p now r) tokens) k ≡ some r
    → is_some r.revoked_at ≡ false
    → (Dict.get tokens k ≡ some r) × (p r ≡ false)
kept_token p now tokens k r g l =
    ground (arith, get-map_items (λ i r. revoke_record p now r) tokens k)
