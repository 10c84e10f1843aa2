-- ===== src/Tests/Policy.antt =====
-- Runs of the policies of the control module, and the instances of its theorems.
use coengram.Prelude.{
  string_eq, pair_eq, list_eq, bool_eq, ◌+◌, ◌*◌, ◌≡◌, ◌<◌, ◌≤◌, refl, true, false, none, some, [],
  ◌∷◌, holds, contains, subset, without, same_set, keep, with_element,
}
use coengram.Prelude.Sort.{sort, insert}
use coengram.Dict
use coengram.Exec.{ok, err, control_not_found}
use coengram.Models.{kind_eq, post_init}
use coengram.Auth
use coengram.Auth.{IssuedCredential, token_text}
use coengram.Control.Identities.{
  MembershipRecord, PrincipalRecord, get_membership, get_tenant, get_principal,
}
use coengram.Control.Identities.Revoke as Store
use coengram.Control.Accounts.{
  permits_self_approval, list_active_human_member_ids, revoke_membership_role, grant_membership,
  is_human_member, valid_roles,
}
use coengram.Control.Access.{issue_access_token}
use coengram.Control.Reachable
use coengram.Control.Reachable.{perform}
use coengram.Control.Reachable.Atomic.{perform_error}
use coengram.Control.Lifetimes.{allowed_days, recorded, own_session, issue_access_token-bounds}
use coengram.Control.Approval.{permits_self_approval-alone}
use coengram.Control.Regrant.{revoke_membership_role-grant_membership}
use coengram.Tests.Demo.{digest, is_decimal, demo, fresh}

abbrev issued : IssuedCredential
issued = record { token_id = "t3"; access_token = "mem1.t3.s3"; expires_at = 7776000001000 }

issues-t3 : (issue_access_token digest (fresh "t3" "s3") "acme" "ana" none 1000 demo).0 ≡ ok issued
unfolding issue_access_token Auth.issue Auth.build_record post_init token_text Dict.get Dict.lookup
issues-t3 = refl

issue_access_token-bounds_example :
    (p : PrincipalRecord) × (m : MembershipRecord) × (holds (λ t. t.active) (get_tenant demo "acme")
      ≡ true)
    × (get_principal demo "ana" ≡ some p)
    × (p.active ≡ true)
    × (get_membership demo "acme" "ana" ≡ some m)
    × (m.active ≡ true)
    × (1000 < issued.expires_at)
    × (issued.expires_at
        ≤ 1000
          + allowed_days (Dict.get demo.token_lifetime_days ("acme", (p.kind, false))) p.kind
            * (24 * 60 * 60 * 1000000))
    × (Dict.get
          (issue_access_token digest (fresh "t3" "s3") "acme" "ana" none 1000 demo).1.tokens
          "t3"
        ≡ some (
            recorded digest
              (fresh "t3" "s3")
              (own_session "acme" "ana" p m)
              issued.expires_at
              1000))
issue_access_token-bounds_example =
    issue_access_token-bounds digest (fresh "t3" "s3") "acme" "ana" none 1000 demo issued issues-t3

abbrev ana_member : MembershipRecord
ana_member = record {
  tenant_id = "acme";
  principal_id = "ana";
  roles = "tenant_administrator" ∷ [];
  active = true;
}

ana-permitted : permits_self_approval demo "acme" "ana" ≡ true
unfolding permits_self_approval list_active_human_member_ids Dict.values Dict.items Dict.distinct
    Dict.erase Dict.get Dict.lookup keep sort insert contains
ana-permitted = refl

ana-member : Dict.get demo.memberships ("acme", "ana") ≡ some ana_member
unfolding Dict.get Dict.lookup
ana-member = refl

ana-human : is_human_member demo "acme" ana_member ≡ true
unfolding Dict.get Dict.lookup
ana-human = refl

permits_self_approval-alone_example :
    (ana_member.principal_id ≡ "ana")
    × (holds (λ n. contains "tenant_administrator" n.roles) (get_membership demo "acme" "ana")
        ≡ true)
permits_self_approval-alone_example =
    permits_self_approval-alone demo "acme" "ana" ("acme", "ana") ana_member ana-permitted
      ana-member ana-human

abbrev regranted : MembershipRecord
regranted = record {
  tenant_id = "acme";
  principal_id = "ana";
  roles = "tenant_administrator" ∷ "tenant_member" ∷ [];
  active = true;
}

ana-only_role :
    (contains "tenant_administrator" ana_member.roles ≡ true)
    × (same_set (without "tenant_administrator" ana_member.roles) [] ≡ true)
    × (contains "tenant_administrator" valid_roles ≡ true)
unfolding contains without same_set subset
ana-only_role = (refl, refl, refl)

ana-regranted :
    (grant_membership "acme" "ana" "tenant_member"
      (revoke_membership_role "acme" "ana" "tenant_administrator" 2000 demo).1).0
    ≡ ok regranted
unfolding grant_membership revoke_membership_role Store.revoke_membership_role
    Store.disable_membership Store.cut_membership contains without same_set subset with_element
    Dict.get Dict.lookup Dict.put Dict.assign
ana-regranted = refl

revoke_membership_role-grant_membership_example :
    contains "tenant_administrator" regranted.roles ≡ true
revoke_membership_role-grant_membership_example =
    revoke_membership_role-grant_membership "acme" "ana" "tenant_administrator" "tenant_member" 2000
      demo ana_member regranted ana-member ana-only_role.0 ana-only_role.1 ana-only_role.2
      ana-regranted

eve-missing :
    (perform digest is_decimal (Reachable.disable_principal "eve" 2000) demo).0
    ≡ err (control_not_found "Principal not found")
unfolding perform Store.disable_principal Dict.get Dict.lookup
eve-missing = refl

perform_error_example :
    (perform digest is_decimal (Reachable.disable_principal "eve" 2000) demo).1 ≡ demo
perform_error_example =
    perform_error digest is_decimal (Reachable.disable_principal "eve" 2000) demo
      (control_not_found "Principal not found") eve-missing
