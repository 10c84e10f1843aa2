-- ===== src/Tests/Limits.antt =====
-- Requests of a few bytes, and the instances of the theorems on their limits.
use coengram.Prelude.{
  ◌≤◌, ◌<◌, String, string_eq, ◌≡◌, refl, true, false, Option, some, List, [], ◌∷◌, contains, keep,
  holds, ltb,
}
use coengram.Prelude.Int.{ℤ, pos}
use coengram.Prelude.Text.{rstrip}
use coengram.Limits.{
  Message, request, other, Scope, Playback, playback, dispatched, refused, call, content_length,
  gather, public_request_body_limit, replay_receive,
}
use coengram.Limits.Stream.{body_of}
use coengram.Limits.Replay.{read_all, limit_of, read_all-call, call-limit}

-- `int` on the one text that is used here
abbrev int : String → Option ℤ
int s = some (pos 3)

abbrev scope : Scope
scope = record {
  kind = "http";
  path = some "/api/v1/telegram/webhook/";
  headers = ("content-length", "3") ∷ [];
}

abbrev messages : List Message
messages = request (1 ∷ 2 ∷ []) true ∷ other "http.noise" ∷ request (3 ∷ []) false ∷ []

webhook-limit : public_request_body_limit "/api/v1/telegram/webhook/" ≡ 262144
unfolding public_request_body_limit rstrip contains
webhook-limit = refl

declares-little :
    holds
      (λ declared. ltb (limit_of int public_request_body_limit scope) declared)
      (content_length int scope)
    ≡ false
unfolding content_length keep public_request_body_limit rstrip contains
declares-little = refl

three-bytes : body_of messages ≡ some (1 ∷ 2 ∷ 3 ∷ [], [])
unfolding body_of
three-bytes = refl

read_all-call_example :
    (3 ≤ limit_of int public_request_body_limit scope
      → (p : Playback) × (call int public_request_body_limit scope messages ≡ dispatched p)
        × (read_all replay_receive 4 p ≡ some (1 ∷ 2 ∷ 3 ∷ []))
        × (p.rest ≡ []))
    × (limit_of int public_request_body_limit scope < 3
        → call int public_request_body_limit scope messages ≡ refused)
read_all-call_example =
    read_all-call int public_request_body_limit scope messages [] (1 ∷ 2 ∷ 3 ∷ []) refl
      declares-little three-bytes

runs-three :
    call int public_request_body_limit scope messages
    ≡ dispatched (playback (1 ∷ 2 ∷ 3 ∷ []) true [])
unfolding call gather content_length keep public_request_body_limit rstrip contains
runs-three = refl

call-limit_example : 3 ≤ limit_of int public_request_body_limit scope
call-limit_example =
    call-limit int public_request_body_limit scope messages (playback (1 ∷ 2 ∷ 3 ∷ []) true []) refl
      runs-three
