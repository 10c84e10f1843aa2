-- ===== src/Memory/World/Keeps.antt =====
-- memory.py: what the statements on one of the module's stores keep.
use coengram.Prelude.{
  String, string_eq, ◌≡◌, sym, subst, ap, inl, inr, none, some, Option-cases, arith,
}
use coengram.Dict
use coengram.Exec.{Exec}
use coengram.Exec.Keeps.{Keeps}
use coengram.Memory.{TenantStore, Erasures, Governance}
use coengram.Memory.World.{
  World, put_store, read_store, on_store, read_governance, on_governance, read_erasures,
  on_erasures, on_durable,
}
use coengram.Memory.World.Laws.{on_store_lem, on_governance_lem, on_erasures_lem}

module _ {W A : Type 0} (s : World W) where
  read_store_same : (t : String) (f : TenantStore → A) → (read_store t f s).1 ≡ s
  unfolding read_store
  read_store_same t f = ground arith

  read_governance_same : (f : Governance → A) → (read_governance f s).1 ≡ s
  unfolding read_governance
  read_governance_same f = ground arith

  read_erasures_same : (f : Erasures → A) → (read_erasures f s).1 ≡ s
  unfolding read_erasures
  read_erasures_same f = ground arith

  on_store_missing :
      (t : String) (m : Exec TenantStore A) → Dict.get s.stores t ≡ none → (on_store t m s).1 ≡ s
  unfolding on_store
  on_store_missing t m h = ground arith

  pub on_governance_missing :
      (m : Exec Governance A) → s.governance ≡ none → (on_governance m s).1 ≡ s
  unfolding on_governance
  on_governance_missing m h = ground arith

  pub on_erasures_missing : (m : Exec Erasures A) → s.erasures ≡ none → (on_erasures m s).1 ≡ s
  unfolding on_erasures
  on_erasures_missing m h = ground arith

module _ {W A : Type 0} {P : World W → Type 0} where
  pub Keeps-read_store : (t : String) (f : TenantStore → A) → Keeps P (read_store t f)
  Keeps-read_store t f = record { after = λ s h. subst P (sym (read_store_same s t f)) h }

  pub Keeps-read_governance : (f : Governance → A) → Keeps P (read_governance f)
  Keeps-read_governance f = record { after = λ s h. subst P (sym (read_governance_same s f)) h }

  pub Keeps-read_erasures : (f : Erasures → A) → Keeps P (read_erasures f)
  Keeps-read_erasures f = record { after = λ s h. subst P (sym (read_erasures_same s f)) h }

  pub Keeps-on_store :
      (t : String) (m : Exec TenantStore A)
      → ((s : World W) (store : TenantStore)
          → P s
          → Dict.get s.stores t ≡ some store
          → P (put_store s t (m store).1))
      → Keeps P (on_store t m)
  Keeps-on_store t m k = record {
    after = λ s h. elim (Option-cases (Dict.get s.stores t)) [
      | inl missing ↦ subst P (sym (on_store_missing s t m missing)) h
      | inr (store, found) ↦
          subst P (sym (ap (λ x. x.1) (on_store_lem s t store found m))) (k s store h found)
    ];
  }

  pub Keeps-on_governance :
      (m : Exec Governance A)
      → ((s : World W) (g : Governance)
          → P s
          → s.governance ≡ some g
          → P (record s { governance = some (m g).1 }))
      → Keeps P (on_governance m)
  Keeps-on_governance m k = record {
    after = λ s h. elim (Option-cases s.governance) [
      | inl missing ↦ subst P (sym (on_governance_missing s m missing)) h
      | inr (g, found) ↦
          subst P (sym (ap (λ x. x.1) (on_governance_lem s g found m))) (k s g h found)
    ];
  }

  pub Keeps-on_erasures :
      (m : Exec Erasures A)
      → ((s : World W) (e : Erasures)
          → P s
          → s.erasures ≡ some e
          → P (record s { erasures = some (m e).1 }))
      → Keeps P (on_erasures m)
  Keeps-on_erasures m k = record {
    after = λ s h. elim (Option-cases s.erasures) [
      | inl missing ↦ subst P (sym (on_erasures_missing s m missing)) h
      | inr (e, found) ↦ subst P (sym (ap (λ x. x.1) (on_erasures_lem s e found m))) (k s e h found)
    ];
  }

  pub Keeps-on_durable :
      (m : Exec W A)
      → ((s : World W) → P s → P (record s { durable = (m s.durable).1 }))
      → Keeps P (on_durable m)
  unfolding on_durable
  Keeps-on_durable m k = record { after = k }
