-- ===== src/Memory/Archive/Records.antt =====
-- archive.py: the records of an archive, as they are encoded and as they are collected.
use mathlib.Core.List.{append-nil}
use coengram.Prelude.{
  String, string_eq, nat_eq, ==_refl, Bool, true, false, ◌||◌, List, [], ◌∷◌, ◌++◌, map, ◌≡◌, refl,
  sym, ap, ◌∙◌, arith, any, same_set,
}
use coengram.Prelude.Members.{All}
use coengram.Exec.{ok}
use coengram.Models.Items.{MemoryItem}
use coengram.Memory.{KnowledgeCandidateView, ErasureTombstone}
use coengram.Memory.Archive.{DecodedArchive, repeats}
use coengram.Memory.Archive.Json.{object, Fields, size, field_names, lookup_field, json_beq}
use coengram.Memory.Archive.Valid.{
  proper, is_invalid_item, is_invalid_candidate, is_invalid_review, lacks_review,
  is_invalid_tombstone, memory_ids,
}
use coengram.Memory.Archive.Codec.{
  Formats, Schema, ArchiveRecordType, memory_item, governance_candidate, erasure_tombstone,
  checksum, record_of, validate_record,
}
use coengram.Memory.Archive.Decode.{nothing_decoded, validated, add_record, collect}

-- A dump has the model's fields and is validated to what was dumped.
abbrev pub IsReadBack : {A : Type 0} → Schema A → A → Type 0
IsReadBack schema a =
    (same_set (field_names (schema.dump a)) schema.names ≡ true)
    × (schema.validate (schema.dump a) ≡ ok (a, proper))

abbrev pub is_refused : KnowledgeCandidateView → Bool
is_refused c = is_invalid_candidate c proper || is_invalid_review c || lacks_review c

-- Every record passes its checks and no identifier repeats.
pub record IsSound (a : DecodedArchive) : Type 0 where
  pub valid_items : any (λ x. is_invalid_item x proper) a.memory_items ≡ false
  pub valid_candidates : any is_refused a.governance_candidates ≡ false
  pub valid_tombstones : any (λ x. is_invalid_tombstone x proper) a.erasure_tombstones ≡ false
  pub distinct_items : repeats (memory_ids a.memory_items a.erasure_tombstones) ≡ false
  pub distinct_candidates : repeats (map (λ c. c.id) a.governance_candidates) ≡ false

validated-dump :
    {A : Type 0} (s : Schema A) (a : A) → IsReadBack s a → validated s (s.dump a) ≡ ok (a, proper)
unfolding validated
validated-dump s a h = rw h.0 h.1

unfoldable put_each :
    {A : Type 0} → (A → DecodedArchive → DecodedArchive) → List A → DecodedArchive → DecodedArchive
put_each put [] a = a
put_each put (x ∷ xs) a = put x (put_each put xs a)

abbrev put_item : MemoryItem → DecodedArchive → DecodedArchive
put_item x a = record a { memory_items = x ∷ a.memory_items }

abbrev put_candidate : KnowledgeCandidateView → DecodedArchive → DecodedArchive
put_candidate x a = record a { governance_candidates = x ∷ a.governance_candidates }

abbrev put_tombstone : ErasureTombstone → DecodedArchive → DecodedArchive
put_tombstone x a = record a { erasure_tombstones = x ∷ a.erasure_tombstones }

put_each-tombstones :
    (xs : List ErasureTombstone)
    → put_each put_tombstone xs nothing_decoded ≡ record nothing_decoded { erasure_tombstones = xs }
unfolding put_each
put_each-tombstones [] = refl
put_each-tombstones (x ∷ xs) = ap (put_tombstone x) (put_each-tombstones xs)

put_each-candidates :
    (xs : List KnowledgeCandidateView) (a : DecodedArchive)
    → put_each put_candidate xs (record a { governance_candidates = [] })
      ≡ record a { governance_candidates = xs }
unfolding put_each
put_each-candidates [] a = refl
put_each-candidates (x ∷ xs) a = ap (put_candidate x) (put_each-candidates xs a)

put_each-items :
    (xs : List MemoryItem) (a : DecodedArchive)
    → put_each put_item xs (record a { memory_items = [] }) ≡ record a { memory_items = xs }
unfolding put_each
put_each-items [] a = refl
put_each-items (x ∷ xs) a = ap (put_item x) (put_each-items xs a)

checksum-beq : (s : String) → json_beq (object (checksum s)) (object (checksum s)) ≡ true
unfolding json_beq lookup_field size
checksum-beq s = rw (==_refl s) refl

module _ (f : Formats) where
  validate_record-record_of :
      (t : ArchiveRecordType) (payload : Fields)
      → validate_record f (record_of f t payload) ≡ ok (t, payload)
  unfolding validate_record lookup_field field_names same_set
  validate_record-record_of memory_item payload = rw checksum-beq refl
  validate_record-record_of governance_candidate payload = rw checksum-beq refl
  validate_record-record_of erasure_tombstone payload = rw checksum-beq refl

  collect-add :
      (t : ArchiveRecordType) (payload : Fields) (add : DecodedArchive → DecodedArchive)
      (ds : List Fields) (a : DecodedArchive)
      → add_record f t payload ≡ ok add
      → collect f ds ≡ ok a
      → collect f (record_of f t payload ∷ ds) ≡ ok (add a)
  unfolding collect
  collect-add t payload add ds a e r = rw (validate_record-record_of t payload, e, r) refl

  add_record-item :
      (x : MemoryItem)
      → IsReadBack f.items x
      → is_invalid_item x proper ≡ false
      → add_record f memory_item (f.items.dump x) ≡ ok (put_item x)
  unfolding add_record
  add_record-item x b v = rw (validated-dump f.items x b, v) refl

  add_record-candidate :
      (x : KnowledgeCandidateView)
      → IsReadBack f.candidates x
      → is_refused x ≡ false
      → add_record f governance_candidate (f.candidates.dump x) ≡ ok (put_candidate x)
  unfolding add_record
  add_record-candidate x b v = rw (validated-dump f.candidates x b) (ground (arith, v))

  add_record-tombstone :
      (x : ErasureTombstone)
      → IsReadBack f.tombstones x
      → is_invalid_tombstone x proper ≡ false
      → add_record f erasure_tombstone (f.tombstones.dump x) ≡ ok (put_tombstone x)
  unfolding add_record
  add_record-tombstone x b v = rw (validated-dump f.tombstones x b, v) refl

  module _ {A : Type 0} (t : ArchiveRecordType) (s : Schema A)
      (put : A → DecodedArchive → DecodedArchive) (refused : A → Bool)
      (adds : (x : A)
        → IsReadBack s x
        → refused x ≡ false
        → add_record f t (s.dump x) ≡ ok (put x)) where
    collect-group :
        (xs : List A) (ds : List Fields) (a : DecodedArchive)
        → All (IsReadBack s) xs
        → any refused xs ≡ false
        → collect f ds ≡ ok a
        → collect f (map (record_of f t) (map s.dump xs) ++ ds) ≡ ok (put_each put xs a)
    unfolding any put_each
    collect-group [] ds a b v e = e
    collect-group (x ∷ xs) ds a b v e =
        let v' : (refused x ≡ false) × (any refused xs ≡ false) = ground (arith, v) in
        collect-add t (s.dump x) (put x) (map (record_of f t) (map s.dump xs) ++ ds)
          (put_each put xs a) (adds x b.0 v'.0) (collect-group xs ds a b.1 v'.1 e)

  -- the records of an archive, as they are encoded
  abbrev pub records_of : DecodedArchive → List Fields
  records_of a =
      map (record_of f memory_item) (map f.items.dump a.memory_items)
      ++ (map (record_of f governance_candidate) (map f.candidates.dump a.governance_candidates)
          ++ map (record_of f erasure_tombstone) (map f.tombstones.dump a.erasure_tombstones))

  module _ (a : DecodedArchive) where
    pub collect-records_of :
        All (IsReadBack f.items) a.memory_items
        → All (IsReadBack f.candidates) a.governance_candidates
        → All (IsReadBack f.tombstones) a.erasure_tombstones
        → IsSound a
        → collect f (records_of a) ≡ ok a
    unfolding collect
    collect-records_of bi bc bt h =
        let none_after : DecodedArchive = record nothing_decoded {
          erasure_tombstones = a.erasure_tombstones;
        } in
        let tombstones : List Fields =
          map (record_of f erasure_tombstone) (map f.tombstones.dump a.erasure_tombstones) in
        let third : collect f tombstones ≡ ok none_after =
          ap (collect f) (sym (append-nil tombstones))
          ∙ collect-group erasure_tombstone f.tombstones put_tombstone
              (λ x. is_invalid_tombstone x proper) add_record-tombstone a.erasure_tombstones []
              nothing_decoded bt h.valid_tombstones refl
          ∙ ap ok (put_each-tombstones a.erasure_tombstones) in
        collect-group memory_item f.items put_item (λ x. is_invalid_item x proper) add_record-item
          a.memory_items
          (map (record_of f governance_candidate) (map f.candidates.dump a.governance_candidates)
            ++ tombstones)
          (record none_after { governance_candidates = a.governance_candidates }) bi h.valid_items
          (collect-group governance_candidate f.candidates put_candidate is_refused
              add_record-candidate a.governance_candidates tombstones none_after bc
              h.valid_candidates third
            ∙ ap ok (put_each-candidates a.governance_candidates none_after))
        ∙ ap ok (
            put_each-items a.memory_items
              (record none_after { governance_candidates = a.governance_candidates }))
