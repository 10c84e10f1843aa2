-- ===== src/Memory/Archive/Checked.antt =====
-- archive.py: what is decoded has passed its checks.
use coengram.Prelude.{false, ◌≡◌, any}
use coengram.Memory.Archive.{DecodedArchive}
use coengram.Memory.Archive.Valid.{proper, is_invalid_item, is_invalid_tombstone}
use coengram.Memory.Archive.Records.{is_refused}

-- Every record passes its checks.
record IsChecked (a : DecodedArchive) : Type 0 where
  items : any (λ x. is_invalid_item x proper) a.memory_items ≡ false
  candidates : any is_refused a.governance_candidates ≡ false
  tombstones : any (λ x. is_invalid_tombstone x proper) a.erasure_tombstones ≡ false
