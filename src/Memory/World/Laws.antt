-- ===== src/Memory/World/Laws.antt =====
-- memory.py: what a statement does on a store that is there.
use coengram.Prelude.{String, string_eq, ◌≡◌, some}
use coengram.Dict
use coengram.Exec.{ok, Exec}
use coengram.Memory.{TenantStore, Erasures, Governance}
use coengram.Memory.World.{
  World, put_store, read_store, on_store, read_governance, on_governance, read_erasures,
  on_erasures,
}

module _ {W A : Type 0} (s : World W) where
  module _ (tenant_id : String) (store : TenantStore)
      (found : Dict.get s.stores tenant_id ≡ some store) where
    pub read_store_lem : (f : TenantStore → A) → read_store tenant_id f s ≡ (ok (f store), s)
    unfolding read_store
    read_store_lem f = rw (found, read_store)

    pub on_store_lem :
        (m : Exec TenantStore A)
        → on_store tenant_id m s ≡ ((m store).0, put_store s tenant_id (m store).1)
    unfolding on_store
    on_store_lem m = rw (found, on_store)

  module _ (g : Governance) (found : s.governance ≡ some g) where
    pub read_governance_lem : (f : Governance → A) → read_governance f s ≡ (ok (f g), s)
    unfolding read_governance
    read_governance_lem f = rw found

    pub on_governance_lem :
        (m : Exec Governance A)
        → on_governance m s ≡ ((m g).0, record s { governance = some (m g).1 })
    unfolding on_governance
    on_governance_lem m = rw found

  module _ (e : Erasures) (found : s.erasures ≡ some e) where
    pub read_erasures_lem : (f : Erasures → A) → read_erasures f s ≡ (ok (f e), s)
    unfolding read_erasures
    read_erasures_lem f = rw found

    pub on_erasures_lem :
        (m : Exec Erasures A) → on_erasures m s ≡ ((m e).0, record s { erasures = some (m e).1 })
    unfolding on_erasures
    on_erasures_lem m = rw found
