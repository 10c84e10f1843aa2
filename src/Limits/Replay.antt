-- ===== src/Limits/Replay.antt =====
-- body_limits.py: what an endpoint reads is what the client sent.
use mathlib.Core.List.{append-nil}
use text.Mathlib.TextEquality.{eq_iff}
use coengram.Prelude.{
  ℕ, zero, suc, ◌+◌, ◌≤◌, ◌<◌, String, string_eq, ◌≡◌, refl, sym, ap, ◌∙◌, ◌⊎◌, inl, inr, Bool,
  true, false, Option, none, some, List, [], ◌∷◌, ◌++◌, arith, length, take, ltb, holds, default,
  Bool-cases, if◌then◌else◌,
}
use coengram.Prelude.Int.{ℤ}
use coengram.Limits.{
  Bytes, Message, request, disconnect, other, Gathered, too_large, waiting, closed, whole,
  outcome_of, Playback, playback, drop, replay_by, replay_receive, chunk_size, Scope,
  content_length, gather, dispatched, refused, call,
}
use coengram.Limits.Stream.{body_of, length-append, gather-whole, gather-too_large}

abbrev append_rest : Bytes → Option Bytes → Option Bytes
append_rest chunk none = none
append_rest chunk (some rest) = some (chunk ++ rest)

abbrev read_on : (Playback → Option Bytes) → Option Message × Playback → Option Bytes
read_on next (none, p) = none
read_on next (some disconnect, p) = none
read_on next (some (other kind), p) = next p
read_on next (some (request chunk true), p) = append_rest chunk (next p)
read_on next (some (request chunk false), p) = some chunk

module _ (receive : Playback → Option Message × Playback) where
  -- An endpoint that reads its body to the end, in at most so many messages.
  unfoldable pub read_all : ℕ → Playback → Option Bytes
  read_all zero p = none
  read_all (suc fuel) p = read_on (read_all fuel) (receive p)

take-append-drop : (n : ℕ) (xs : Bytes) → take n xs ++ drop n xs ≡ xs
take-append-drop n [] = refl
take-append-drop zero (x ∷ xs) = refl
take-append-drop (suc n) (x ∷ xs) = ap (λ ys. x ∷ ys) (take-append-drop n xs)

length-take-drop : (n : ℕ) (xs : Bytes) → length (take n xs) + length (drop n xs) ≡ length xs
length-take-drop n [] = omega arith
length-take-drop zero (x ∷ xs) = omega arith
length-take-drop (suc n) (x ∷ xs) = omega (arith, length-take-drop n xs)

abbrev reading : Playback → Bytes → ℕ → Playback
reading p unread tell = record p { unread = unread; tell = tell; complete = true }

-- the bytes of a read, and of the reads after it
joined :
    (k : ℕ) (byte : ℕ) (bytes left : Bytes)
    → drop k bytes ≡ left
    → (byte ∷ take k bytes) ++ left ≡ byte ∷ bytes
joined k byte bytes left e = ap (λ ys. byte ∷ ys) (rw (← e) (take-append-drop k bytes))

List-cases : (xs : Bytes) → (xs ≡ []) ⊎ ((x : ℕ) × (ys : Bytes) × (xs ≡ x ∷ ys))
List-cases [] = inl refl
List-cases (x ∷ xs) = inr (x, xs, refl)

-- The reads give what is unread, in pieces of any positive size.
read_all-unread :
    (k fuel : ℕ) (p : Playback) (byte : ℕ) (bytes : Bytes) (tell : ℕ)
    → p.received ≡ tell + suc (length bytes)
    → length bytes < fuel
    → read_all (replay_by (suc k)) fuel (reading p (byte ∷ bytes) tell) ≡ some (byte ∷ bytes)
unfolding read_all replay_by
read_all-unread k zero p byte bytes tell e f = absurd (omega arith)
read_all-unread k (suc fuel) p byte bytes tell e f = elim (List-cases (drop k bytes)) [
  | inl last ↦
      let ends : ltb (tell + suc (length (take k bytes))) p.received ≡ false =
        ground (arith, length-take-drop k bytes, last) in
      rw ends
        (ap (λ ys. some ys) (sym (append-nil (byte ∷ take k bytes)) ∙ joined k byte bytes [] last))
  | inr (next, others, more) ↦
      let goes_on : ltb (tell + suc (length (take k bytes))) p.received ≡ true =
        ground (arith, length-take-drop k bytes, more) in
      let sizes : suc (length (take k bytes) + length others) ≡ length bytes =
        ground (arith, length-take-drop k bytes, more) in
      let ih =
        read_all-unread k fuel p next others (tell + suc (length (take k bytes))) (omega arith)
          (omega arith) in
      rw (goes_on, more) (rw ih (ap (λ ys. some ys) (joined k byte bytes (next ∷ others) more)))
]

empty_body :
    (size : ℕ) (after : List Message)
    → read_all (replay_by size) 1 (playback [] true after) ≡ some []
unfolding read_all replay_by
empty_body size after = refl

read_all-playback :
    (body : Bytes) (after : List Message)
    → read_all replay_receive (suc (length body)) (playback body true after) ≡ some body
unfolding replay_receive
read_all-playback [] after = empty_body chunk_size after
read_all-playback (byte ∷ bytes) after =
    read_all-unread 65535 (suc (length (byte ∷ bytes))) (playback (byte ∷ bytes) true after) byte
      bytes 0 (omega arith) (omega arith)

abbrev AtMost : ℕ → Gathered → Type 0
AtMost limit too_large = Unit
AtMost limit waiting = Unit
AtMost limit (closed body rest) = length body ≤ limit
AtMost limit (whole body rest) = length body ≤ limit

bound_of :
    (limit : ℕ) (body : Bytes) (rest : List Message) (next : Gathered) (more : Bool)
    → AtMost limit next
    → length body ≤ limit
    → AtMost limit (if more then next else whole body rest)
bound_of limit body rest next true h fits = h
bound_of limit body rest next false h fits = fits

gather-bound :
    (limit : ℕ) (written : Bytes) (messages : List Message)
    → length written ≤ limit
    → AtMost limit (gather limit (length written) written messages)
unfolding gather
gather-bound limit written [] h = tt
gather-bound limit written (disconnect ∷ rest) h = h
gather-bound limit written (other kind ∷ rest) h = gather-bound limit written rest h
gather-bound limit written (request chunk more ∷ rest) h =
    elim (Bool-cases (ltb limit (length written + length chunk))) [
      | inl over ↦ rw over tt
      | inr below ↦
          let sum = length-append written chunk in
          let fits : length (written ++ chunk) ≤ limit = ground (arith, sum) in
          let ih = gather-bound limit (written ++ chunk) rest fits in
          rw below (bound_of limit _ _ _ more (rw sum at ih) fits)
    ]

dispatched_of :
    (limit : ℕ) (g : Gathered) (p : Playback)
    → AtMost limit g
    → outcome_of g ≡ dispatched p
    → length p.unread ≤ limit
dispatched_of limit too_large p h e = absurd (cc)
dispatched_of limit waiting p h e = absurd (cc)
dispatched_of limit (closed body rest) p h e = ground arith
dispatched_of limit (whole body rest) p h e = ground arith

module _ (int : String → Option ℤ) (limit_for_path : String → ℕ) (scope : Scope) where
  abbrev pub limit_of : ℕ
  limit_of = limit_for_path (default "/" scope.path)

  -- Of an HTTP request that does not declare more than its path allows: a body that fits is handed on, and
  -- an endpoint that reads to the end reads exactly the bytes that the client sent, with the
  -- messages after them still to come; a body that does not fit is refused.
  pub read_all-call :
      (messages after : List Message) (body : Bytes)
      → scope.kind ≡ "http"
      → holds (λ declared. ltb limit_of declared) (content_length int scope) ≡ false
      → body_of messages ≡ some (body, after)
      → (length body ≤ limit_of
          → (p : Playback) × (call int limit_for_path scope messages ≡ dispatched p)
            × (read_all replay_receive (suc (length body)) p ≡ some body)
            × (p.rest ≡ after))
        × (limit_of < length body → call int limit_for_path scope messages ≡ refused)
  unfolding call
  read_all-call messages after body http modest sent = (
    λ fits. (
      playback body true after,
      rw (http, modest, gather-whole limit_of [] body messages after sent (omega arith)),
      read_all-playback body after,
      refl,
    ),
    λ big. rw (http, modest, gather-too_large limit_of [] body messages after sent (omega arith)),
  )

  dispatched-bound :
      (messages : List Message) (p : Playback)
      → outcome_of (gather limit_of 0 [] messages) ≡ dispatched p
      → length p.unread ≤ limit_of
  dispatched-bound messages p ran =
      dispatched_of limit_of (gather limit_of 0 [] messages) p
        (gather-bound limit_of [] messages (omega arith)) ran

  -- Whatever an HTTP endpoint is handed, of a client that ended its body or left before, is at most as
  -- long as the path allows.
  pub call-limit :
      (messages : List Message) (p : Playback)
      → scope.kind ≡ "http"
      → call int limit_for_path scope messages ≡ dispatched p
      → length p.unread ≤ limit_of
  unfolding call
  call-limit messages p http ran =
      elim (Bool-cases (holds (λ declared. ltb limit_of declared) (content_length int scope))) [
        | inl much ↦ absurd (ground (arith, eq_iff scope.kind "http"))
        | inr modest ↦ dispatched-bound messages p (rw (http, modest) at ran)
      ]
