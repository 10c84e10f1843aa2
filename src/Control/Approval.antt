-- ===== src/Control/Approval.antt =====
-- control.py: who may approve their own proposals.
use text.Mathlib.TextEquality.{eq_iff}
use coengram.Prelude.{
  String, ◌==◌, ==_iff, string_eq, pair_eq, list_eq, ◌≡◌, refl, Bool, true, not, ◌&&◌, some, arith,
  holds, contains, any, keep, map, List, [], ◌∷◌, inl, inr, Bool-cases,
}
use coengram.Prelude.Text.{str_leb}
use coengram.Prelude.Sort.{any-sort}
use coengram.Dict
use coengram.Dict.Laws.{any-items_of_get}
use coengram.Control.Identities.{Identities, MembershipRecord, get_membership, get_tenant}
use coengram.Control.Accounts.{
  permits_self_approval, list_active_human_member_ids, is_human_member, is_active_tenant,
}

abbrev ids : (MembershipRecord → Bool) → List ((String × String) × MembershipRecord) → List String
ids p xs = map (λ m. m.principal_id) (keep p (map (λ x. x.1) xs))

any-ids :
    (q : String → Bool) (p : MembershipRecord → Bool)
    → (xs : List ((String × String) × MembershipRecord))
    → any q (ids p xs) ≡ any (λ x. p x.1 && q x.1.principal_id) xs
unfolding any keep
any-ids q p [] = refl
any-ids q p (x ∷ xs) = ground (arith, any-ids q p xs)

-- every active human Member of an active Tenant is listed
listed :
    (s : Identities) (t : String) (k : String × String) (m : MembershipRecord) (q : String → Bool)
    → is_active_tenant (get_tenant s t) ≡ true
    → Dict.get s.memberships k ≡ some m
    → is_human_member s t m ≡ true
    → q m.principal_id ≡ true
    → any q (list_active_human_member_ids s t) ≡ true
unfolding list_active_human_member_ids Dict.values
listed s t k m q tenant found human hit =
    rw (tenant, any-sort str_leb, any-ids)
      (any-items_of_get (λ x. is_human_member s t x.1 && q x.1.principal_id) s.memberships k m found
        (ground (arith, human, hit)))

only :
    (s : Identities) (t id : String)
    → permits_self_approval s t id ≡ true
    → (list_active_human_member_ids s t ≡ id ∷ [])
      × (holds (λ m. contains "tenant_administrator" m.roles) (get_membership s t id) ≡ true)
unfolding permits_self_approval
only s t id h = ground (arith, ==_iff (list_active_human_member_ids s t) (id ∷ []))

active_tenant :
    (s : Identities) (t id : String)
    → list_active_human_member_ids s t ≡ id ∷ []
    → is_active_tenant (get_tenant s t) ≡ true
unfolding list_active_human_member_ids
active_tenant s t id h = ground arith

-- Whoever may approve alone is a Tenant Administrator, and every other active human Member of the Tenant
-- is the same Principal.
pub permits_self_approval-alone :
    (s : Identities) (t id : String) (k : String × String) (m : MembershipRecord)
    → permits_self_approval s t id ≡ true
    → Dict.get s.memberships k ≡ some m
    → is_human_member s t m ≡ true
    → (m.principal_id ≡ id)
      × (holds (λ n. contains "tenant_administrator" n.roles) (get_membership s t id) ≡ true)
unfolding any
permits_self_approval-alone s t id k m permit found human =
    let (single, admin) = only s t id permit in
    elim (Bool-cases (m.principal_id == id)) [
      | inl same ↦ ((eq_iff m.principal_id id).0 same, admin)
      | inr other ↦ absurd (
          ground (
            arith,
            single,
            listed s t k m (λ q. not (q == id)) (active_tenant s t id single) found human
                (ground (arith, other)),
            eq_iff id id,
          ))
    ]
