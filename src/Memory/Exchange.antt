-- ===== src/Memory/Exchange.antt =====
-- memory.py, `MemoryModule`: the exports and the imports of archives, with their encoding.
use coengram.Prelude.{ℕ, String, not, Option, [], map}
use coengram.Exec.{Exec, permission_error, raise_if, return, pure, ◌>>=◌, ◌>>◌}
use coengram.Models.{TenantSession}
use coengram.Memory.Archive.{ArchiveImportResult}
use coengram.Memory.Archive.Codec.{Formats, ArchiveScope, encode_archive}
use coengram.Memory.Archive.Decode.{decode_archive}
use coengram.Memory.Reviews.{is_human_administrator}
use coengram.Memory.Transfer as Transfer
use coengram.Memory.World.{World, Commands, require_governance}

module _ {W : Type 0} (f : Formats) where
  -- `export_private`
  unfoldable pub export_private : Option (Commands W) → TenantSession → Exec (World W) String
  unfolding encode_archive Transfer.export_private
  export_private commands session = do
    a ← Transfer.export_private commands session
    pure (
        encode_archive f ArchiveScope.private (map f.items.dump a.memory_items) []
          (map f.tombstones.dump a.erasure_tombstones))

  -- `import_private`
  unfoldable pub import_private :
      Option (Commands W) → TenantSession → String → Exec (World W) ArchiveImportResult
  unfolding decode_archive Transfer.import_private
  import_private commands session archive = do
    decoded ← return (decode_archive f archive ArchiveScope.private)
    Transfer.import_private commands session decoded

  -- `export_tenant`
  unfoldable pub export_tenant : TenantSession → Exec (World W) String
  unfolding encode_archive Transfer.export_tenant
  export_tenant session = do
    a ← Transfer.export_tenant session
    pure (
        encode_archive f ArchiveScope.tenant (map f.items.dump a.memory_items)
          (map f.candidates.dump a.governance_candidates) [])

  -- `import_tenant`; the first two checks precede the decoding, and those after it begin with them again
  unfoldable pub import_tenant : ℕ → TenantSession → String → Exec (World W) ArchiveImportResult
  unfolding decode_archive Transfer.import_tenant
  import_tenant now session archive = do
    raise_if (not (is_human_administrator session))
        (permission_error "Tenant import requires a human Tenant Administrator")
    require_governance
    decoded ← return (decode_archive f archive ArchiveScope.tenant)
    Transfer.import_tenant now session decoded
