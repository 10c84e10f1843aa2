-- ===== src/Control/Regrant.antt =====
-- control.py: what a Membership's roles are once its last role was revoked and another one granted.
use text.Mathlib.TextEquality.{eq_iff}
use coengram.Prelude.{
  ℕ, String, string_eq, pair_eq, ◌≡◌, true, false, some, arith, contains, without, same_set,
  contains-with_element, [],
}
use coengram.Dict.Laws.{dict_laws}
use coengram.Exec.{ok}
use coengram.Control.Identities.{Identities, MembershipRecord, get_membership}
use coengram.Control.Identities.Revoke as Store
use coengram.Control.Accounts.{revoke_membership_role, grant_membership, granted_roles, valid_roles}

revoked_last :
    (t id a : String) (now : ℕ) (s : Identities) (m : MembershipRecord)
    → get_membership s t id ≡ some m
    → contains a m.roles ≡ true
    → same_set (without a m.roles) [] ≡ true
    → contains a valid_roles ≡ true
    → get_membership (revoke_membership_role t id a now s).1 t id
      ≡ some (record m { active = false })
unfolding revoke_membership_role Store.revoke_membership_role Store.disable_membership
    Store.cut_membership
revoked_last t id a now s m found has last valid =
    grind (arith, dict_laws, found, has, last, valid, eq_iff t t, eq_iff id id)

granted_to :
    (t id b : String) (s : Identities) (m n : MembershipRecord)
    → get_membership s t id ≡ some m
    → (grant_membership t id b s).0 ≡ ok n
    → n.roles ≡ granted_roles b (some m)
unfolding grant_membership
granted_to t id b s m n found done = ground (arith, found)

-- If the only role of a Membership, a valid one, is revoked, and a grant of any role returns next, the
-- Membership has the revoked role again.
pub revoke_membership_role-grant_membership :
    (t id a b : String) (now : ℕ) (s : Identities) (m n : MembershipRecord)
    → get_membership s t id ≡ some m
    → contains a m.roles ≡ true
    → same_set (without a m.roles) [] ≡ true
    → contains a valid_roles ≡ true
    → (grant_membership t id b (revoke_membership_role t id a now s).1).0 ≡ ok n
    → contains a n.roles ≡ true
revoke_membership_role-grant_membership t id a b now s m n found has last valid done =
    let s' = (revoke_membership_role t id a now s).1 in
    let at = revoked_last t id a now s m found has last valid in
    rw (granted_to t id b s' (record m { active = false }) n at done, contains-with_element)
      (ground (arith, has))
