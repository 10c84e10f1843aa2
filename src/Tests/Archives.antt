-- ===== src/Tests/Archives.antt =====
-- An archive that is written and read with a small notation for JSON.
use Prim.Native.Char.{Char, code}
use Prim.Native.String.{◌++◌ as append_text}
use coengram.Prelude.{
  ℕ, zero, suc, String, string_eq, nat_eq, ◌≡◌, refl, Bool, true, false, Option, none, some, List,
  [], ◌∷◌, nat_beq, any, keep, same_set, contains, if◌then◌else◌,
}
use coengram.Prelude.Text.{strip, strip_chars, lstrip, rstrip}
use coengram.Exec.{Result, ok, err, value_error, ◌>>=◌}
use coengram.Models.Items.{MemoryItem}
use coengram.Memory.Archive.{DecodedArchive, repeats, same_archived_memory}
use coengram.Memory.Archive.Json.{
  Json, null, number, text, object, Fields, done, field, lookup_field, field_names, joined,
}
use coengram.Memory.Archive.Valid.{Raw, proper, is_invalid_item, text_length, certain}
use coengram.Memory.Archive.Codec.{Schema, Formats, ArchiveScope, encode_archive}
use coengram.Memory.Archive.Decode.{decode_archive}
use coengram.Memory.Archive.Lines.{is_one_line}
use coengram.Memory.Archive.Records.{IsSound}
use coengram.Memory.Archive.RoundTrip.{decode_archive-encode_archive}
use coengram.Dict
use coengram.Memory.World
use coengram.Memory.Store
use coengram.Memory.Erasure.{list_completed}
use coengram.Prelude.Sort.{sort}
use coengram.Memory.Exchange.{export_private, import_private}
use coengram.Tests.Memory.{tea, session, world}

-- Every value after its parts: a text from its end, a number by strokes.
abbrev print_text : String → String
print_text String.[] = "e"
print_text (String.◌∷◌ c s) = append_text (print_text s) (append_text "=" (String.◌∷◌ c ""))

abbrev strokes : ℕ → String
strokes zero = "z"
strokes (suc n) = append_text (strokes n) "s"

unfoldable mutual
  print : Json → String
  print (number n) = strokes n
  print (text s) = print_text s
  print (object fs) = print_fields fs
  print _ = "0"

  print_fields : Fields → String
  print_fields done = "d"
  print_fields (field k v fs) =
      append_text (print_fields fs) (append_text (print v) (append_text (print_text k) "f"))

abbrev add_char : Char → List Json → List Json
add_char c (text s ∷ js) = text (String.◌∷◌ c s) ∷ js
add_char c js = js

abbrev add_stroke : List Json → List Json
add_stroke (number n ∷ js) = number (suc n) ∷ js
add_stroke js = js

abbrev add_field : List Json → List Json
add_field (text k ∷ v ∷ object fs ∷ js) = object (field k v fs) ∷ js
add_field js = js

abbrev step : Char → List Json → List Json
step c js =
    if nat_beq (code c) b'z'
    then number 0 ∷ js
    else if nat_beq (code c) b's'
    then add_stroke js
    else if nat_beq (code c) b'e'
    then text "" ∷ js
    else if nat_beq (code c) b'd'
    then object done ∷ js
    else if nat_beq (code c) b'f'
    then add_field js
    else null ∷ js

-- the values that are open; a character after `=` is part of a text
unfoldable read : Bool → String → List Json → Option Json
read quoted String.[] (j ∷ []) = some j
read quoted String.[] js = none
read true (String.◌∷◌ c s) js = read false s (add_char c js)
read false (String.◌∷◌ c s) js = elim (nat_beq (code c) b'=') [
  | true ↦ read true s js
  | false ↦ read false s (step c js)
]

abbrev to_text : Option Json → String
to_text (some (text s)) = s
to_text _ = ""

-- an item by its identifier and its content
unfoldable read_item : Fields → Result (MemoryItem × Raw)
unfolding lookup_field
read_item fs = ok (
  record tea { id = to_text (lookup_field "id" fs); content = to_text (lookup_field "content" fs) },
  proper,
)

abbrev no_schema : {A : Type 0} → Schema A
no_schema = record { names = []; dump = λ _. done; validate = λ _. err (value_error "") }

abbrev formats : Formats
unfolding print read read_item
formats = record {
  canonical = print;
  loads = λ s. read false s [];
  sha256 = λ s. "5e";
  items = record {
    names = "content" ∷ "id" ∷ [];
    dump = λ i. field "content" (text i.content) (field "id" (text i.id) done);
    validate = read_item;
  };
  candidates = no_schema;
  tombstones = no_schema;
}

abbrev archive : DecodedArchive
archive = record { memory_items = tea ∷ []; governance_candidates = []; erasure_tombstones = [] }

archive-IsSound : IsSound archive
unfolding any is_invalid_item text_length certain strip strip_chars lstrip rstrip repeats contains
archive-IsSound = record {
  valid_items = refl;
  valid_candidates = refl;
  valid_tombstones = refl;
  distinct_items = refl;
  distinct_candidates = refl;
}

decode_archive-encode_archive_example :
    decode_archive formats
      (encode_archive formats ArchiveScope.private (formats.items.dump tea ∷ []) [] [])
      ArchiveScope.private
    ≡ ok archive
unfolding print read read_item lookup_field is_one_line joined same_set field_names
decode_archive-encode_archive_example =
    decode_archive-encode_archive formats archive ArchiveScope.private ((refl, refl), tt) tt tt
      archive-IsSound ((refl, refl), ((refl, refl), ((refl, refl), tt)))

other_scope :
    decode_archive formats
      (encode_archive formats ArchiveScope.private (formats.items.dump tea ∷ []) [] [])
      ArchiveScope.tenant
    ≡ err (value_error "Memory Archive manifest or scope is not supported")
unfolding encode_archive decode_archive print read read_item
other_scope = refl

-- what was exported is all there when it is imported again
exported_again :
    (export_private formats none session >>= import_private formats none session) world ≡ (
      ok (record {
        imported = 0;
        skipped = 1;
        candidates = [];
        erasure_tombstones = 0;
        governance_records = 0;
      }),
      world,
    )
unfolding export_private import_private print read read_item World.read_store World.read_erasures
    World.on_store Dict.get Dict.put Dict.values list_completed keep sort Store.list_private
    Store.import_private Store.apply_private_item same_archived_memory
exported_again = refl
