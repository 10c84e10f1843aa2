-- ===== src/Memory/Archive/RoundTrip.antt =====
-- archive.py: an archive that is encoded is decoded to its records.
use Prim.Native.String.{◌++◌ as append_text}
use coengram.Prelude.{
  ℕ, suc, ◌-◌, String, string_eq, nat_eq, ==_refl, Bool, true, false, some, List, [], ◌∷◌, ◌++◌,
  map, ◌≡◌, refl, sym, ap, ◌∙◌, arith, length, nat_beq, ltb,
}
use coengram.Prelude.Members.{All}
use coengram.Exec.{ok}
use coengram.Memory.Archive.{DecodedArchive}
use coengram.Memory.Archive.Json.{
  object, Fields, size, lookup_field, json_beq, split_lines, joined, newline,
}
use coengram.Memory.Archive.Codec.{
  Formats, ArchiveScope, private, tenant, manifest, footer, init, is_last, documents, lines,
  encode_archive,
}
use coengram.Memory.Archive.Decode.{
  load_all, all_objects, validate_unique_ids, collect, decode_documents, decode_lines,
  decode_archive,
}
use coengram.Memory.Archive.Records.{IsReadBack, IsSound, records_of, collect-records_of}
use coengram.Memory.Archive.Lines.{IsOneLine, split_lines-joined, split_lines-last}

-- A document's line is one line, and is read back.
abbrev pub IsReadable : Formats → Fields → Type 0
IsReadable f d =
    (f.loads (f.canonical (object d)) ≡ some (object d)) × IsOneLine (f.canonical (object d))

validate_unique_ids-IsSound : (a : DecodedArchive) → IsSound a → validate_unique_ids a ≡ ok a
unfolding validate_unique_ids
validate_unique_ids-IsSound a h = rw (h.distinct_items, h.distinct_candidates) refl

init-append : {A : Type 0} (xs : List A) (y : A) → init (xs ++ y ∷ []) ≡ xs
init-append [] y = refl
init-append (x ∷ []) y = refl
init-append (x ∷ z ∷ zs) y = ap (x ∷◌) (init-append (z ∷ zs) y)

is_last-append :
    (p : Fields → Bool) (xs : List Fields) (y : Fields) → is_last p (xs ++ y ∷ []) ≡ p y
is_last-append p [] y = refl
is_last-append p (x ∷ []) y = refl
is_last-append p (x ∷ z ∷ zs) y = is_last-append p (z ∷ zs) y

all_objects-map : (ds : List Fields) → all_objects (map object ds) ≡ some ds
unfolding all_objects
all_objects-map [] = refl
all_objects-map (d ∷ ds) = rw (all_objects-map ds) refl

manifest-beq :
    (scope : ArchiveScope) → json_beq (object (manifest scope)) (object (manifest scope)) ≡ true
unfolding json_beq lookup_field size
manifest-beq private = refl
manifest-beq tenant = refl

footer-beq : (n : ℕ) (s : String) → json_beq (object (footer n s)) (object (footer n s)) ≡ true
unfolding json_beq lookup_field size
footer-beq n s = ground (arith, ==_refl n, ==_refl s)

module _ (f : Formats) where
  load_all-lines :
      (ds : List Fields)
      → All (IsReadable f) ds
      → load_all f.loads (lines f ds) ≡ some (map object ds)
  unfolding load_all
  load_all-lines [] h = refl
  load_all-lines (d ∷ ds) h = rw (h.0.0, load_all-lines ds h.1) refl

  abbrev closing : ArchiveScope → List Fields → Fields
  closing scope records =
      footer (length (documents f scope records) - 1)
        (f.sha256 (joined (lines f (documents f scope records))))

  lines-append :
      (ds : List Fields) (d : Fields)
      → lines f (ds ++ d ∷ []) ≡ lines f ds ++ f.canonical (object d) ∷ []
  lines-append [] d = refl
  lines-append (x ∷ xs) d = ap (f.canonical (object x) ∷◌) (lines-append xs d)

  length-lines : (ds : List Fields) (d : Fields) → length (lines f (ds ++ d ∷ [])) ≡ suc (length ds)
  length-lines [] d = refl
  length-lines (x ∷ xs) d = ap suc (length-lines xs d)

  init-lines : (ds : List Fields) (d : Fields) → init (lines f (ds ++ d ∷ [])) ≡ lines f ds
  init-lines ds d = ap init (lines-append ds d) ∙ init-append (lines f ds) (f.canonical (object d))

  readable-lines :
      (ds : List Fields) (d : Fields)
      → All (IsReadable f) (ds ++ d ∷ [])
      → All IsOneLine (lines f ds) × IsOneLine (f.canonical (object d))
  readable-lines [] d h = (tt, h.0.1)
  readable-lines (x ∷ xs) d h = let r = readable-lines xs d h.1 in ((h.0.1, r.0), r.1)

  decode_documents-documents :
      (scope : ArchiveScope) (rs : List Fields) (a : DecodedArchive)
      → collect f rs ≡ ok a
      → IsSound a
      → decode_documents f scope
          (lines f (documents f scope rs ++ closing scope rs ∷ []))
          (documents f scope rs ++ closing scope rs ∷ [])
        ≡ ok a
  unfolding decode_documents
  decode_documents-documents scope rs a c h =
      let n : nat_beq (suc (length rs) - 1) (suc (suc (length rs)) - 2) ≡ true = ground arith in
      rw (manifest-beq scope) (
        rw (is_last-append _ (documents f scope rs) (closing scope rs)) (
          rw
            (
              length-lines rs (closing scope rs),
              init-lines (documents f scope rs) (closing scope rs),
              init-append rs (closing scope rs),
              n,
              ==_refl (f.sha256 (joined (lines f (documents f scope rs)))),
              c,
            )
            (validate_unique_ids-IsSound a h)))

  decode_lines-documents :
      (scope : ArchiveScope) (rs : List Fields) (a : DecodedArchive)
      → All (IsReadable f) (documents f scope rs ++ closing scope rs ∷ [])
      → collect f rs ≡ ok a
      → IsSound a
      → decode_lines f scope (lines f (documents f scope rs ++ closing scope rs ∷ [])) ≡ ok a
  unfolding decode_lines
  decode_lines-documents scope rs a r c h =
      let enough : ltb (length (lines f (documents f scope rs ++ closing scope rs ∷ []))) 2
          ≡ false =
        rw (length-lines rs (closing scope rs)) (ground arith) in
      rw
        (
          enough,
          load_all-lines (documents f scope rs ++ closing scope rs ∷ []) r,
          all_objects-map (documents f scope rs ++ closing scope rs ∷ []),
        )
        (decode_documents-documents scope rs a c h)

  split_lines-documents :
      (scope : ArchiveScope) (rs : List Fields)
      → All (IsReadable f) (documents f scope rs ++ closing scope rs ∷ [])
      → split_lines (
          append_text
            (joined (lines f (documents f scope rs)))
            (append_text (f.canonical (object (closing scope rs))) newline))
        ≡ lines f (documents f scope rs ++ closing scope rs ∷ [])
  split_lines-documents scope rs r =
      let h = readable-lines (documents f scope rs) (closing scope rs) r in
      let last = f.canonical (object (closing scope rs)) in
      split_lines-joined (f.canonical (object (manifest scope))) (lines f rs)
        (append_text last newline) h.0
      ∙ ap (lines f (documents f scope rs) ++◌) (split_lines-last last h.1)
      ∙ sym (lines-append (documents f scope rs) (closing scope rs))

  -- every line of an archive, the footer the last
  abbrev pub documents_of : ArchiveScope → DecodedArchive → List Fields
  documents_of scope a = documents f scope (records_of f a) ++ closing scope (records_of f a) ∷ []

  module _ (a : DecodedArchive) where
    split_lines-encode_archive :
        (scope : ArchiveScope)
        → All (IsReadable f) (documents_of scope a)
        → split_lines (
            encode_archive f scope
              (map f.items.dump a.memory_items)
              (map f.candidates.dump a.governance_candidates)
              (map f.tombstones.dump a.erasure_tombstones))
          ≡ lines f (documents_of scope a)
    unfolding encode_archive
    split_lines-encode_archive scope r = split_lines-documents scope (records_of f a) r

    -- An archive, encoded and then decoded for the same scope, is the same archive, if its records
    -- pass their checks, no identifier repeats, each model is read back from its dump, and each line
    -- holds no line break and is read back from its JSON.
    pub decode_archive-encode_archive :
        (scope : ArchiveScope)
        → All (IsReadBack f.items) a.memory_items
        → All (IsReadBack f.candidates) a.governance_candidates
        → All (IsReadBack f.tombstones) a.erasure_tombstones
        → IsSound a
        → All (IsReadable f) (documents_of scope a)
        → decode_archive f
            (encode_archive f scope
              (map f.items.dump a.memory_items)
              (map f.candidates.dump a.governance_candidates)
              (map f.tombstones.dump a.erasure_tombstones))
            scope
          ≡ ok a
    unfolding decode_archive
    decode_archive-encode_archive scope bi bc bt h r =
        ap (decode_lines f scope) (split_lines-encode_archive scope r)
        ∙ decode_lines-documents scope (records_of f a) a r (collect-records_of f a bi bc bt h) h
