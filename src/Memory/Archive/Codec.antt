-- ===== src/Memory/Archive/Codec.antt =====
-- archive.py: the JSON Lines of an archive, with a checksum for each record and one for the whole.
use Prim.Native.String.{◌++◌ as append_text}
use coengram.Prelude.{
  ℕ, ◌-◌, String, ◌==◌, string_eq, nat_eq, Bool, false, not, Option, none, some, List, [], ◌∷◌,
  ◌++◌, map, same_set, length, if◌then◌else◌,
}
use coengram.Exec.{Result, ok, err, value_error}
use coengram.Models.Items.{MemoryItem}
use coengram.Memory.Archive.Valid.{Raw}
use coengram.Memory.{KnowledgeCandidateView, ErasureTombstone}
use coengram.Memory.Archive.Json.{
  Json, number, text, object, Fields, done, field, lookup_field, field_names, json_beq, joined,
  newline,
}

pub data ArchiveScope : Type 0 where
  private tenant : ArchiveScope

pub data ArchiveRecordType : Type 0 where
  memory_item governance_candidate erasure_tombstone : ArchiveRecordType

abbrev pub scope_value : ArchiveScope → String
scope_value private = "private"
scope_value tenant = "tenant"

abbrev pub type_value : ArchiveRecordType → String
type_value memory_item = "memory_item"
type_value governance_candidate = "governance_candidate"
type_value erasure_tombstone = "erasure_tombstone"

-- a Pydantic model: the names of its fields, `model_dump`, its keys sorted, and `model_validate`,
-- with what the record leaves out
pub record Schema (A : Type 0) : Type 0 where
  pub names : List String
  pub dump : A → Fields
  pub validate : Fields → Result (A × Raw)

-- `json.dumps` and `json.loads` on a line, SHA-256, and the models of the records
pub record Formats : Type 0 where
  pub canonical : Json → String
  pub loads : String → Option Json
  pub sha256 : String → String
  pub items : Schema MemoryItem
  pub candidates : Schema KnowledgeCandidateView
  pub tombstones : Schema ErasureTombstone

abbrev pub archive_version : ℕ
archive_version = 2

abbrev pub manifest : ArchiveScope → Fields
manifest scope = field "format" (text "memory-archive") (
    field "scope" (text (scope_value scope))
      (field "type" (text "manifest") (field "version" (number archive_version) done)))

abbrev pub checksum : String → Fields
checksum value = field "algorithm" (text "sha256") (field "value" (text value) done)

abbrev pub footer : ℕ → String → Fields
footer count value = field "algorithm" (text "sha256") (
    field "record_count" (number count)
      (field "type" (text "archive_checksum") (field "value" (text value) done)))

abbrev pub checksum_input : ArchiveRecordType → Fields → Json
checksum_input record_type payload =
    object
      (field "payload" (object payload) (field "record_type" (text (type_value record_type)) done))

-- `d.get(k)` where a text is wanted, and where a `dict` is
abbrev pub text_of : Option Json → Option String
text_of (some (text s)) = some s
text_of _ = none

abbrev pub object_of : Option Json → Option Fields
object_of (some (object fs)) = some fs
object_of _ = none

-- `d.get(k) == s`
abbrev pub is_text : String → Option Json → Bool
is_text s (some (text t)) = t == s
is_text s _ = false

-- `ArchiveRecordType(str(value))`; the `str` of a value that is no text names no type
abbrev pub type_of : Option String → Option ArchiveRecordType
type_of none = none
type_of (some s) =
    if s == "memory_item"
    then some memory_item
    else if s == "governance_candidate"
    then some governance_candidate
    else if s == "erasure_tombstone"
    then some erasure_tombstone
    else none

-- `x[:-1]` and `x[-1]`
abbrev pub init {ℓ} : {A : Type ℓ} → List A → List A
init [] = []
init (x ∷ []) = []
init (x ∷ y ∷ ys) = x ∷ init (y ∷ ys)

abbrev pub is_last : (Fields → Bool) → List Fields → Bool
is_last p [] = false
is_last p (x ∷ []) = p x
is_last p (x ∷ y ∷ ys) = is_last p (y ∷ ys)

abbrev unsupported : Result (ArchiveRecordType × Fields)
unsupported = err (value_error "Memory Archive contains an unsupported record")

module _ (f : Formats) where
  open f use {canonical, loads, sha256, items, candidates, tombstones}

  -- `_record`
  abbrev pub record_of : ArchiveRecordType → Fields → Fields
  record_of record_type payload =
      field "checksum" (object (checksum (sha256 (canonical (checksum_input record_type payload)))))
        (field "payload" (object payload)
          (field "record_type" (text (type_value record_type)) (field "type" (text "record") done)))

  -- the manifest and the records
  abbrev pub documents : ArchiveScope → List Fields → List Fields
  documents scope records = manifest scope ∷ records

  abbrev pub lines : List Fields → List String
  lines = map (λ d. canonical (object d))

  -- `encode_archive`, of records that are dumped
  unfoldable pub encode_archive : ArchiveScope → List Fields → List Fields → List Fields → String
  unfolding joined
  encode_archive scope records governance_records erasure_records =
      let documents = documents scope (
        map (record_of memory_item) records
        ++ (map (record_of governance_candidate) governance_records
            ++ map (record_of erasure_tombstone) erasure_records)) in
      let payload = joined (lines documents) in
      append_text payload
        (append_text (canonical (object (footer (length documents - 1) (sha256 payload)))) newline)

  -- the end of `_validate_record`: the checksum
  abbrev check_record :
      Fields → Option ArchiveRecordType → Option Fields → Result (ArchiveRecordType × Fields)
  check_record document (some record_type) (some payload) =
      let expected = object (checksum (sha256 (canonical (checksum_input record_type payload)))) in
      elim (lookup_field "checksum" document) [
        | none ↦ err (value_error "Memory Archive record checksum does not match")
        | some given ↦
            if json_beq given expected
            then ok (record_type, payload)
            else err (value_error "Memory Archive record checksum does not match")
      ]
  check_record document _ _ = unsupported

  -- `_validate_record`
  unfoldable pub validate_record : Fields → Result (ArchiveRecordType × Fields)
  unfolding lookup_field field_names json_beq same_set
  validate_record document =
      if not
        (same_set (field_names document) ("type" ∷ "record_type" ∷ "payload" ∷ "checksum" ∷ []))
      then unsupported
      else if not (is_text "record" (lookup_field "type" document))
      then unsupported
      else check_record document (type_of (text_of (lookup_field "record_type" document)))
          (object_of (lookup_field "payload" document))
