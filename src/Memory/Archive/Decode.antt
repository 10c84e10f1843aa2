-- ===== src/Memory/Archive/Decode.antt =====
-- archive.py, `decode_archive`: every line is checked before a record is handed on.
use coengram.Prelude.{
  ◌-◌, String, string_eq, nat_eq, Bool, false, not, Option, none, some, List, [], ◌∷◌, map,
  same_set, length, ltb, if◌then◌else◌,
}
use coengram.Exec.{Result, ok, err, value_error}
use coengram.Memory.Archive.{DecodedArchive, repeats}
use coengram.Memory.Archive.Json.{Json, object, Fields, field_names, json_beq, split_lines, joined}
use coengram.Memory.Archive.Valid.{
  Raw, is_invalid_item, is_invalid_candidate, is_invalid_review, lacks_review, is_invalid_tombstone,
  memory_ids,
}
use coengram.Memory.Archive.Codec.{
  Formats, Schema, ArchiveScope, ArchiveRecordType, memory_item, governance_candidate,
  erasure_tombstone, manifest, footer, init, is_last, validate_record,
}

abbrev pub and_then : {A B : Type 0} → Result A → (A → Result B) → Result B
and_then (ok a) k = k a
and_then (err x) k = err x

-- `if b: raise x`, and then the rest
abbrev pub unless : {A : Type 0} → Bool → String → Result A → Result A
unless b message r = if b then err (value_error message) else r

-- a value, or else an error
abbrev pub given : {A B : Type 0} → Option A → String → (A → Result B) → Result B
given none message k = err (value_error message)
given (some a) message k = k a

-- a line that is no JSON, or no object, is refused
unfoldable pub load_all : (String → Option Json) → List String → Option (List Json)
load_all loads [] = some []
load_all loads (l ∷ ls) = elim (loads l) [
  | none ↦ none
  | some j ↦ elim (load_all loads ls) [ none ↦ none | some js ↦ some (j ∷ js) ]
]

unfoldable pub all_objects : List Json → Option (List Fields)
all_objects [] = some []
all_objects (object fs ∷ js) = elim (all_objects js) [ none ↦ none | some r ↦ some (fs ∷ r) ]
all_objects (_ ∷ js) = none

abbrev pub nothing_decoded : DecodedArchive
nothing_decoded = record { memory_items = []; governance_candidates = []; erasure_tombstones = [] }

abbrev pub is_first : (Fields → Bool) → List Fields → Bool
is_first p [] = false
is_first p (x ∷ xs) = p x

abbrev pub has_manifest : ArchiveScope → List Fields → Bool
has_manifest scope = is_first (λ d. json_beq (object d) (object (manifest scope)))

-- `x[1:-1]`
abbrev pub middle : List Fields → List Fields
middle [] = []
middle (x ∷ xs) = init xs

-- `_require_exact_fields` and `model_validate`
unfoldable pub validated : {A : Type 0} → Schema A → Fields → Result (A × Raw)
unfolding field_names same_set
validated schema payload =
    unless (not (same_set (field_names payload) schema.names))
      "Memory Archive record does not match its declared schema" (schema.validate payload)

-- `_validate_unique_ids`
unfoldable pub validate_unique_ids : DecodedArchive → Result DecodedArchive
unfolding repeats
validate_unique_ids a =
    unless (repeats (memory_ids a.memory_items a.erasure_tombstones))
      "Memory Archive contains duplicate Memory Item identifiers"
      (unless (repeats (map (λ c. c.id) a.governance_candidates))
        "Memory Archive contains duplicate governance identifiers" (ok a))

module _ (f : Formats) where
  -- one record, put in front of those that follow it
  unfoldable pub add_record : ArchiveRecordType → Fields → Result (DecodedArchive → DecodedArchive)
  unfolding validated is_invalid_item is_invalid_candidate is_invalid_review is_invalid_tombstone
  add_record memory_item payload = and_then (validated f.items payload) (λ item.
      unless (is_invalid_item item.0 item.1) "Memory Archive contains an invalid Memory Item"
        (ok (λ a. record a { memory_items = item.0 ∷ a.memory_items })))
  add_record governance_candidate payload = and_then (validated f.candidates payload) (λ c.
      unless (is_invalid_candidate c.0 c.1) "Memory Archive contains an invalid governance record" (
        unless (is_invalid_review c.0) "Memory Archive contains an invalid governance review" (
          unless (lacks_review c.0) "Memory Archive contains an incomplete governance review"
            (ok (λ a. record a { governance_candidates = c.0 ∷ a.governance_candidates })))))
  add_record erasure_tombstone payload = and_then (validated f.tombstones payload) (λ t.
      unless (is_invalid_tombstone t.0 t.1) "Memory Archive contains an invalid Erasure Tombstone"
        (ok (λ a. record a { erasure_tombstones = t.0 ∷ a.erasure_tombstones })))

  -- the loop over the records
  unfoldable pub collect : List Fields → Result DecodedArchive
  unfolding validate_record add_record
  collect [] = ok nothing_decoded
  collect (d ∷ ds) =
      let rest = collect ds in
      and_then (validate_record f d)
        (λ r. and_then (add_record r.0 r.1) (λ add. and_then rest (λ a. ok (add a))))

  abbrev pub has_footer : List String → List Fields → Bool
  has_footer lines = is_last (λ d.
      json_beq (object d) (object (footer (length lines - 2) (f.sha256 (joined (init lines))))))

  unfoldable pub decode_documents : ArchiveScope → List String → List Fields → Result DecodedArchive
  unfolding json_beq joined collect validate_unique_ids
  decode_documents scope lines documents =
      unless (not (has_manifest scope documents))
        "Memory Archive manifest or scope is not supported"
        (unless (not (has_footer lines documents)) "Memory Archive checksum does not match"
          (and_then (collect (middle documents)) validate_unique_ids))

  -- `decode_archive`, of the lines
  unfoldable pub decode_lines : ArchiveScope → List String → Result DecodedArchive
  unfolding load_all all_objects decode_documents
  decode_lines scope lines = unless (ltb (length lines) 2) "Memory Archive is incomplete" (
      given (load_all f.loads lines) "Memory Archive is not valid JSON Lines" (λ values.
        given (all_objects values) "Memory Archive lines must be JSON objects"
          (λ documents. decode_documents scope lines documents)))

  unfoldable pub decode_archive : String → ArchiveScope → Result DecodedArchive
  unfolding split_lines decode_lines
  decode_archive content scope = decode_lines scope (split_lines content)
