-- ===== src/Memory/Archive/Valid.antt =====
-- archive.py: the checks on a record that was decoded.
use coengram.Prelude.{
  ℕ, suc, ◌^◌, String, ◌==◌, string_eq, Bool, true, false, not, ◌&&◌, ◌||◌, Option, none, some,
  is_some, List, ◌++◌, map, holds, ltb, leb,
}
use coengram.Prelude.Text.{strip}
use coengram.Models.Items.{MemoryItem, Confidence}
use coengram.Memory.{KnowledgeCandidateView, CandidateStatus, submitted, ErasureTombstone}

-- `not s.strip()`
abbrev pub is_blank : String → Bool
is_blank s = strip s == ""

-- `len(s)`
unfoldable pub text_length : String → ℕ
text_length String.[] = 0
text_length (String.◌∷◌ c s) = suc (text_length s)

-- 1.0
unfoldable pub certain : Confidence
certain = 2 ^ 1074

-- What Pydantic accepts and the records' own types leave out: a float that is no number or is negative,
-- a negative count, and a datetime without a zone. Where one occurs, the record's field is of no account.
pub record Raw : Type 0 where
  -- `math.isfinite(confidence)` and `0.0 <= confidence`
  pub is_finite : Bool
  pub is_not_negative : Bool
  -- `source_count < 0`
  pub has_negative_count : Bool
  -- `created_at.tzinfo is None` and `completed_at.tzinfo is None`
  pub lacks_created_zone : Bool
  pub lacks_completed_zone : Bool

-- a record with nothing of the kind
abbrev pub proper : Raw
proper = record {
  is_finite = true;
  is_not_negative = true;
  has_negative_count = false;
  lacks_created_zone = false;
  lacks_completed_zone = false;
}

unfoldable pub is_invalid_item : MemoryItem → Raw → Bool
unfolding text_length certain strip
is_invalid_item item raw =
    is_blank item.id
    || is_blank item.content
    || ltb 16000 (text_length item.content)
    || not raw.is_finite
    || not (raw.is_not_negative && leb item.confidence certain)
    || is_blank item.provenance.actor_id
    || is_blank item.provenance.source
    || raw.lacks_created_zone
    || holds is_blank item.supersedes_id

abbrev pub is_reviewed_status : CandidateStatus → Bool
is_reviewed_status submitted = false
is_reviewed_status CandidateStatus.failed = false
is_reviewed_status _ = true

abbrev pub is_submitted : CandidateStatus → Bool
is_submitted submitted = true
is_submitted _ = false

abbrev blank_or_missing : Option String → Bool
blank_or_missing none = true
blank_or_missing (some s) = is_blank s

unfoldable pub is_invalid_candidate : KnowledgeCandidateView → Raw → Bool
unfolding text_length certain strip
is_invalid_candidate c raw =
    is_blank c.id
    || is_blank c.claim
    || ltb 16000 (text_length c.claim)
    || not raw.is_finite
    || not (raw.is_not_negative && leb c.confidence certain)
    || is_blank c.proposer_id
    || raw.has_negative_count
    || raw.lacks_created_zone

-- `reviewed`
abbrev pub has_review : KnowledgeCandidateView → Bool
has_review c = is_some c.reviewed_by || is_some c.review_rationale

-- the review is torn, or stands at a candidate that awaits it
unfoldable pub is_invalid_review : KnowledgeCandidateView → Bool
unfolding strip
is_invalid_review c =
    has_review c && (blank_or_missing c.reviewed_by || blank_or_missing c.review_rationale)
    || is_submitted c.status && has_review c

abbrev pub lacks_review : KnowledgeCandidateView → Bool
lacks_review c = is_reviewed_status c.status && not (has_review c)

unfoldable pub is_invalid_tombstone : ErasureTombstone → Raw → Bool
unfolding strip
is_invalid_tombstone t raw =
    is_blank t.id
    || is_blank t.memory_id
    || is_blank t.requester_id
    || is_blank t.owner_principal_id
    || is_blank t.reviewed_by
    || raw.lacks_created_zone
    || raw.lacks_completed_zone
    || ltb t.completed_at t.created_at

-- the identifiers that may not repeat
abbrev pub memory_ids : List MemoryItem → List ErasureTombstone → List String
memory_ids items tombstones = map (λ i. i.id) items ++ map (λ t. t.memory_id) tombstones
