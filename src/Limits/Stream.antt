-- ===== src/Limits/Stream.antt =====
-- body_limits.py: the body that the server's messages carry, and what the loop makes of it.
use mathlib.Core.List.{append_assoc}
use coengram.Prelude.{
  ℕ, ◌+◌, ◌≤◌, ◌<◌, ◌≡◌, sym, ap, ◌∙◌, inl, inr, true, false, Option, none, some, List, [], ◌∷◌,
  ◌++◌, arith, length, Bool-cases, Option-cases, if◌then◌else◌, ltb,
}
use coengram.Limits.{Bytes, Message, request, disconnect, other, too_large, whole, gather}

-- What a client sends: the bodies of its messages, up to the one that says that no more follows, and
-- the messages after it; `none` if the messages end or the client leaves before.
unfoldable pub body_of : List Message → Option (Bytes × List Message)
body_of [] = none
body_of (disconnect ∷ rest) = none
body_of (other kind ∷ rest) = body_of rest
body_of (request chunk more ∷ rest) =
    let next = body_of rest in
    if more
    then elim next [ none ↦ none | some (body, after) ↦ some (chunk ++ body, after) ]
    else some (chunk, rest)

pub length-append : (xs ys : Bytes) → length (xs ++ ys) ≡ length xs + length ys
length-append [] ys = omega arith
length-append (x ∷ xs) ys = omega (arith, length-append xs ys)

-- a message that is not the last is followed by the rest of the body
body_of-more :
    (chunk body : Bytes) (rest after : List Message)
    → body_of (request chunk true ∷ rest) ≡ some (body, after)
    → (tail : Bytes) × (body_of rest ≡ some (tail, after)) × (chunk ++ tail ≡ body)
unfolding body_of
body_of-more chunk body rest after = elim (Option-cases (body_of rest)) [
  | inl nothing ↦ rw nothing (λ h. absurd (cc))
  | inr ((tail, after'), found) ↦ rw found (λ h. let same : after' ≡ after = cc in (tail, cc, cc))
]

-- A body that fits is copied whole.
pub gather-whole :
    (limit : ℕ) (written body : Bytes) (messages after : List Message)
    → body_of messages ≡ some (body, after)
    → length written + length body ≤ limit
    → gather limit (length written) written messages ≡ whole (written ++ body) after
unfolding gather body_of
gather-whole limit written body [] after h fits = absurd (cc)
gather-whole limit written body (disconnect ∷ rest) after h fits = absurd (cc)
gather-whole limit written body (other kind ∷ rest) after h fits =
    gather-whole limit written body rest after h fits
gather-whole limit written body (request chunk false ∷ rest) after h fits = ground arith
gather-whole limit written body (request chunk true ∷ rest) after h fits =
    let (tail, found, same) = body_of-more chunk body rest after h in
    let whole_length : length chunk + length tail ≡ length body =
      sym (length-append chunk tail) ∙ ap length same in
    let ih =
      gather-whole limit (written ++ chunk) tail rest after found
        (omega (arith, length-append written chunk)) in
    let below : ltb limit (length written + length chunk) ≡ false = ground arith in
    rw below (
      rw (← length-append written chunk) (
        ih
        ∙ ap (λ b. whole b after) (append_assoc written chunk tail ∙ ap (λ b. written ++ b) same)))

-- A body that does not fit is refused.
pub gather-too_large :
    (limit : ℕ) (written body : Bytes) (messages after : List Message)
    → body_of messages ≡ some (body, after)
    → limit < length written + length body
    → gather limit (length written) written messages ≡ too_large
unfolding gather body_of
gather-too_large limit written body [] after h big = absurd (cc)
gather-too_large limit written body (disconnect ∷ rest) after h big = absurd (cc)
gather-too_large limit written body (other kind ∷ rest) after h big =
    gather-too_large limit written body rest after h big
gather-too_large limit written body (request chunk false ∷ rest) after h big = ground arith
gather-too_large limit written body (request chunk true ∷ rest) after h big =
    let (tail, found, same) = body_of-more chunk body rest after h in
    let whole_length : length chunk + length tail ≡ length body =
      sym (length-append chunk tail) ∙ ap length same in
    let ih =
      gather-too_large limit (written ++ chunk) tail rest after found
        (omega (arith, length-append written chunk)) in
    elim (Bool-cases (ltb limit (length written + length chunk))) [
      | inl over ↦ rw over
      | inr below ↦ rw below (rw (← length-append written chunk) ih)
    ]
