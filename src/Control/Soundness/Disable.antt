-- ===== src/Control/Soundness/Disable.antt =====
-- control.py: the store's methods that disable, change or revoke keep the identities sound.
use coengram.Prelude.{
  ℕ, String, string_eq, option_eq, pair_eq, ◌≡◌, refl, false, some, inl, inr, arith, ◌⊎◌,
}
use coengram.Control.Identities.{
  Identities, PrincipalRecord, MembershipRecord, DelegationRecord, get_principal, get_membership,
  get_delegation,
}
use coengram.Control.Identities.Revoke.{
  cut_principal, cut_membership, cut_delegation, disable_principal, disable_membership,
  revoke_delegation,
}
use coengram.Control.Soundness.CutPrincipal.{cut_principal-IsSound}
use coengram.Control.Soundness.CutMembership.{cut_membership-IsSound, cut_delegation-IsSound}
use coengram.Control.Soundness.{IsSound}

abbrev pub off_principal : PrincipalRecord → PrincipalRecord
off_principal p = record p { active = false }

abbrev pub off_membership : MembershipRecord → MembershipRecord
off_membership m = record m { active = false }

abbrev pub off_delegation : DelegationRecord → DelegationRecord
off_delegation d = record d { active = false }

-- Disabling leaves the store alone, or cuts the record that it found.
pub disable_principal_cases :
    (id : String) (now : ℕ) (s : Identities)
    → ((disable_principal id now s).1 ≡ s)
      ⊎ ((c : PrincipalRecord) × (get_principal s id ≡ some c)
          × ((disable_principal id now s).1 ≡ cut_principal id (off_principal c) now s))
unfolding disable_principal
disable_principal_cases id now s = ground arith

pub disable_membership_cases :
    (t id : String) (now : ℕ) (s : Identities)
    → ((disable_membership t id now s).1 ≡ s)
      ⊎ ((c : MembershipRecord) × (get_membership s t id ≡ some c)
          × ((disable_membership t id now s).1 ≡ cut_membership t id (off_membership c) now s))
unfolding disable_membership
disable_membership_cases t id now s = ground arith

pub revoke_delegation_cases :
    (id : String) (now : ℕ) (s : Identities)
    → ((revoke_delegation id now s).1 ≡ s)
      ⊎ ((c : DelegationRecord) × (get_delegation s id ≡ some c)
          × ((revoke_delegation id now s).1 ≡ cut_delegation id (off_delegation c) now s))
unfolding revoke_delegation
revoke_delegation_cases id now s = ground arith

pub disable_principal-IsSound :
    (id : String) (now : ℕ) (s : Identities) → IsSound s → IsSound (disable_principal id now s).1
disable_principal-IsSound id now s h = elim (disable_principal_cases id now s) [
  | inl same ↦ rw same h
  | inr (c, _, cut) ↦ rw cut (cut_principal-IsSound id (off_principal c) now s h)
]

pub disable_membership-IsSound :
    (t id : String) (now : ℕ) (s : Identities)
    → IsSound s
    → IsSound (disable_membership t id now s).1
disable_membership-IsSound t id now s h = elim (disable_membership_cases t id now s) [
  | inl same ↦ rw same h
  | inr (c, found, cut) ↦
      rw cut (
        cut_membership-IsSound t id (off_membership c) now s h
          (h.memberships_keyed (t, id) c found))
]

pub revoke_delegation-IsSound :
    (id : String) (now : ℕ) (s : Identities) → IsSound s → IsSound (revoke_delegation id now s).1
revoke_delegation-IsSound id now s h = elim (revoke_delegation_cases id now s) [
  | inl same ↦ rw same h
  | inr (c, found, cut) ↦
      rw cut
        (cut_delegation-IsSound id (off_delegation c) now s h (h.delegations_keyed id c found) refl)
]
