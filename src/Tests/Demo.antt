-- ===== src/Tests/Demo.antt =====
-- A small Control Store, filled by calls of `ControlModule`: a Tenant with an administrator and an
-- Agent that acts for her, by an access token and by Telegram.
use Prim.Native.Char.{code}
use coengram.Prelude.{
  String, ◌≡◌, refl, Bool, true, ◌&&◌, none, some, string_eq, pair_eq, contains, with_element, List,
  [], ◌∷◌, leb,
}
use coengram.Auth.{Bytes, Fresh}
use coengram.Auth
use coengram.Auth.{token_text}
use coengram.Dict
use coengram.Models.{user, agent, post_init}
use coengram.Control.Identities.{
  Identities, init, add_tenant, add_principal, save_delegation, save_channel_binding,
}
use coengram.Control.Identities.Tokens
use coengram.Control.Accounts.{create_tenant, create_principal, grant_membership}
use coengram.Control.Delegations.{
  create_delegation, create_channel_binding, require_active_delegation_bindings,
}
use coengram.Control.Access.{issue_access_token, issue_delegated_access_token}
use coengram.Control.Reachable.{Request, IsReachable, start, then_call, perform}
use coengram.Control.Reachable as Calls

-- stands for SHA-256: a text's characters
abbrev pub digest : String → Bytes
digest String.[] = []
digest (String.◌∷◌ c s) = code c ∷ digest s

abbrev pub is_decimal : String → Bool
is_decimal String.[] = true
is_decimal (String.◌∷◌ c s) = leb 48 (code c) && leb (code c) 57 && is_decimal s

abbrev pub run : List Request → Identities → Identities
run [] s = s
run (c ∷ cs) s = run cs (perform digest is_decimal c s).1

pub run-IsReachable :
    (cs : List Request) (s : Identities)
    → IsReachable digest is_decimal s
    → IsReachable digest is_decimal (run cs s)
run-IsReachable [] s r = r
run-IsReachable (c ∷ cs) s r = run-IsReachable cs (perform digest is_decimal c s).1 (then_call c r)

abbrev pub fresh : String → String → Fresh
fresh identifier secret = record { identifier = identifier; secret = secret }

abbrev pub calls : List Request
calls =
    Calls.create_tenant "acme" "Acme"
    ∷ Calls.create_principal "ana" "Ana" "user"
    ∷ Calls.create_principal "bot" "Bot" "agent"
    ∷ Calls.grant_membership "acme" "ana" "tenant_administrator"
    ∷ Calls.grant_membership "acme" "bot" "tenant_member"
    ∷ Calls.create_delegation "d1" "acme" "bot" "ana"
    ∷ Calls.create_channel_binding "b1" "telegram" "42" "d1"
    ∷ Calls.issue_access_token (fresh "t1" "s1") "acme" "ana" none 1000
    ∷ Calls.issue_delegated_access_token (fresh "t2" "s2") "d1" none 1000
    ∷ []

-- the store that the calls leave
abbrev pub demo : Identities
demo = record {
  tenants = record {
    entries = ("acme", record { tenant_id = "acme"; name = "Acme"; active = true }) ∷ [];
  };
  principals = record {
    entries =
        ("ana", record { principal_id = "ana"; name = "Ana"; kind = user; active = true })
        ∷ ("bot", record { principal_id = "bot"; name = "Bot"; kind = agent; active = true })
        ∷ [];
  };
  memberships = record {
    entries =
        (
          ("acme", "ana"),
          record {
            tenant_id = "acme";
            principal_id = "ana";
            roles = "tenant_administrator" ∷ [];
            active = true;
          },
        )
        ∷ (
          ("acme", "bot"),
          record {
            tenant_id = "acme";
            principal_id = "bot";
            roles = "tenant_member" ∷ [];
            active = true;
          },
        )
        ∷ [];
  };
  delegations = record {
    entries =
        (
          "d1",
          record {
            delegation_id = "d1";
            tenant_id = "acme";
            agent_id = "bot";
            subject_user_id = "ana";
            active = true;
          },
        )
        ∷ [];
  };
  channel_bindings = record {
    entries =
        (
          ("telegram", "42"),
          record {
            binding_id = "b1";
            channel = "telegram";
            external_id = "42";
            tenant_id = "acme";
            user_id = "ana";
            agent_id = "bot";
            delegation_id = "d1";
            active = true;
          },
        )
        ∷ [];
  };
  routes = record { entries = [] };
  tokens = record {
    entries =
        (
          "t1",
          record {
            token_id = "t1";
            verifier = 115 ∷ 49 ∷ [];
            session = record {
              tenant_id = "acme";
              actor_id = "ana";
              actor_kind = user;
              roles = "tenant_administrator" ∷ [];
              subject_user_id = none;
              delegation_id = none;
              token_id = some "t1";
            };
            expires_at = 7776000001000;
            issued_at = 1000;
            revoked_at = none;
            last_used_at = none;
          },
        )
        ∷ (
          "t2",
          record {
            token_id = "t2";
            verifier = 115 ∷ 50 ∷ [];
            session = record {
              tenant_id = "acme";
              actor_id = "bot";
              actor_kind = agent;
              roles = "tenant_member" ∷ [];
              subject_user_id = some "ana";
              delegation_id = some "d1";
              token_id = some "t2";
            };
            expires_at = 7776000001000;
            issued_at = 1000;
            revoked_at = none;
            last_used_at = none;
          },
        )
        ∷ [];
  };
  token_lifetime_days = record { entries = [] };
}

run-calls : run calls init ≡ demo
unfolding perform Auth.authenticate Dict.lookup Dict.get Dict.assign Dict.put create_tenant
    create_principal grant_membership add_tenant add_principal save_delegation save_channel_binding
    issue_access_token issue_delegated_access_token Auth.issue Auth.build_record token_text
    post_init Tokens.save contains with_element create_delegation create_channel_binding
    require_active_delegation_bindings
run-calls = refl

pub demo-IsReachable : IsReachable digest is_decimal demo
demo-IsReachable = rw (← run-calls) (run-IsReachable calls init start)
