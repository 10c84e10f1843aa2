-- ===== src/Limits.antt =====
-- body_limits.py: a request's body is read and counted before the endpoint runs, which then reads it
-- from the copy that was made. What the server delivers is the list of its messages.
pub mod Stream
pub mod Replay
use Prim.Native.Char.{Char, code}
use coengram.Prelude.{
  ℕ, ◌+◌, ◌-◌, ◌*◌, zero, suc, String, ◌==◌, string_eq, Bool, true, false, not, ◌&&◌, ◌||◌, Option,
  none, some, List, [], ◌∷◌, ◌++◌, map, keep, contains, length, take, ltb, nat_beq, holds, default,
  if◌then◌else◌,
}
use coengram.Prelude.Int.{ℤ, pos, negsuc}
use coengram.Prelude.Text.{rstrip}

abbrev pub mebibyte : ℕ
mebibyte = 1024 * 1024

abbrev pub default_public_body_limit : ℕ
default_public_body_limit = 2 * mebibyte

abbrev pub telegram_body_limit : ℕ
telegram_body_limit = 256 * 1024

abbrev pub archive_import_body_limit : ℕ
archive_import_body_limit = 64 * mebibyte

abbrev pub archive_import_paths : List String
archive_import_paths =
    "/api/v1/memory-archives/private/import" ∷ "/api/v1/memory-archives/tenant/import" ∷ []

abbrev pub telegram_webhook_path : String
telegram_webhook_path = "/api/v1/telegram/webhook"

abbrev is_slash : Char → Bool
is_slash c = nat_beq (code c) 47

-- `path.rstrip("/") or "/"`
abbrev pub normalized : String → String
normalized path = let trimmed = rstrip is_slash path in if trimmed == "" then "/" else trimmed

unfoldable pub public_request_body_limit : String → ℕ
unfolding contains rstrip
public_request_body_limit path =
    if contains (normalized path) archive_import_paths
    then archive_import_body_limit
    else if normalized path == telegram_webhook_path
    then telegram_body_limit
    else default_public_body_limit

abbrev pub Bytes : Type 0
Bytes = List ℕ

-- a message of the server; `other` is of a type that has no business here
pub data Message : Type 0 where
  request : Bytes → Bool → Message
  disconnect : Message
  other : String → Message

pub record Scope : Type 0 where
  pub kind : String
  pub path : Option String
  pub headers : List (String × String)

abbrev as_length : Option ℤ → Option ℕ
as_length (some (pos n)) = some n
as_length _ = none

abbrev single : (String → Option ℤ) → List (String × String) → Option ℕ
single int ((name, value) ∷ []) = as_length (int value)
single int _ = none

-- `_content_length`, with `int` for Python's
unfoldable pub content_length : (String → Option ℤ) → Scope → Option ℕ
unfolding keep
content_length int scope = single int (keep (λ h. h.0 == "content-length") scope.headers)

-- what the loop over the messages leaves
pub data Gathered : Type 0 where
  too_large : Gathered
  waiting : Gathered
  closed : Bytes → List Message → Gathered
  whole : Bytes → List Message → Gathered

-- The loop; `body` holds what was written, and `received` counts it.
unfoldable pub gather : ℕ → ℕ → Bytes → List Message → Gathered
gather limit received body [] = waiting
gather limit received body (disconnect ∷ rest) = closed body rest
gather limit received body (other kind ∷ rest) = gather limit received body rest
gather limit received body (request chunk more_body ∷ rest) =
    let received' = received + length chunk in
    let next = gather limit received' (body ++ chunk) rest in
    if ltb limit received'
    then too_large
    else if more_body
    then next
    else whole (body ++ chunk) rest

abbrev pub drop {ℓ} : {A : Type ℓ} → ℕ → List A → List A
drop n [] = []
drop zero (x ∷ xs) = x ∷ xs
drop (suc n) (x ∷ xs) = drop n xs

-- The variables of `replay_receive`: the part of the body not yet read, and how much was read; the
-- messages that the server still delivers.
pub record Playback : Type 0 where
  pub unread : Bytes
  pub tell : ℕ
  pub received : ℕ
  pub complete : Bool
  pub disconnected : Bool
  pub replayed_empty : Bool
  pub rest : List Message

abbrev pub chunk_size : ℕ
chunk_size = 64 * 1024

-- `return await receive()`: without a message it waits
abbrev forward : Playback → List Message → Option Message × Playback
forward p [] = (none, p)
forward p (m ∷ rest) = (some m, record p { rest = rest })

-- the branches of `replay_receive` when there is nothing left to read
abbrev at_end : Playback → Option Message × Playback
at_end p =
    if nat_beq p.received 0 && p.complete && not p.replayed_empty
    then (some (request [] false), record p { replayed_empty = true })
    else if p.disconnected
    then (some disconnect, p)
    else forward p p.rest

-- the answer to a `receive`, for the bytes that were just read
abbrev pub replay_chunk : ℕ → Playback → Bytes → Option Message × Playback
replay_chunk size p [] = at_end p
replay_chunk size p (byte ∷ bytes) =
    let chunk = byte ∷ bytes in
    let tell = p.tell + length chunk in
    (
      some (request chunk (ltb tell p.received || not p.complete)),
      record p { unread = drop size p.unread; tell = tell },
    )

-- `replay_receive`, which reads so many bytes at once
unfoldable pub replay_by : ℕ → Playback → Option Message × Playback
replay_by size p = replay_chunk size p (take size p.unread)

unfoldable pub replay_receive : Playback → Option Message × Playback
unfolding replay_by
replay_receive = replay_by chunk_size

-- What becomes of a request: the endpoint runs on the server's own messages, it runs on the copy, the
-- request is refused, or the body is still awaited.
pub data Outcome : Type 0 where
  passed : Outcome
  dispatched : Playback → Outcome
  refused : Outcome
  pending : Outcome

abbrev pub playback : Bytes → Bool → List Message → Playback
playback body complete rest = record {
  unread = body;
  tell = 0;
  received = length body;
  complete = complete;
  disconnected = not complete;
  replayed_empty = false;
  rest = rest;
}

abbrev pub outcome_of : Gathered → Outcome
outcome_of too_large = refused
outcome_of waiting = pending
outcome_of (closed body rest) = dispatched (playback body false rest)
outcome_of (whole body rest) = dispatched (playback body true rest)

-- `__call__`
unfoldable pub call : (String → Option ℤ) → (String → ℕ) → Scope → List Message → Outcome
unfolding gather content_length
call int limit_for_path scope messages =
    let limit = limit_for_path (default "/" scope.path) in
    if not (scope.kind == "http")
    then passed
    else if holds (λ declared. ltb limit declared) (content_length int scope)
    then refused
    else outcome_of (gather limit 0 [] messages)
