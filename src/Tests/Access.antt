-- ===== src/Tests/Access.antt =====
-- Runs of the control module, and the instances of its theorems.
use coengram.Prelude.{
  string_eq, pair_eq, ◌≡◌, ◌≢◌, refl, true, false, none, some, [], ◌∷◌, contains, subset, inl,
  holds,
}
use coengram.Dict
use coengram.Exec.{ok}
use coengram.Models.{user, agent, TenantSession, post_init}
use coengram.Auth
use coengram.Auth.{split_dot, split_token, token_text}
use coengram.Control.Identities.{
  MembershipRecord, PrincipalRecord, DelegationRecord, get_membership, get_tenant,
}
use coengram.Control.Identities.Tokens
use coengram.Control.Identities.Revoke as Store
use coengram.Control.Delegations.{resolve_channel_session}
use coengram.Control.Access.{authenticate, reauthorize_session}
use coengram.Control.Soundness.{IsSound}
use coengram.Control.Reachable.Sound.{IsReachable-IsSound}
use coengram.Control.Reachable.Authorised.{authenticate-reauthorize_session}
use coengram.Control.Reachable.Resolved.{resolve_channel_session-reauthorize_session}
use coengram.Control.Reachable.Revoked.{
  disable_principal-Gives, disable_membership-Gives, revoke_delegation-Gives,
}
use coengram.Tests.Demo.{digest, is_decimal, demo, demo-IsReachable}

abbrev ana : TenantSession
ana = record {
  tenant_id = "acme";
  actor_id = "ana";
  actor_kind = user;
  roles = "tenant_administrator" ∷ [];
  subject_user_id = none;
  delegation_id = none;
  token_id = some "t1";
}

abbrev bot : TenantSession
bot = record {
  tenant_id = "acme";
  actor_id = "bot";
  actor_kind = agent;
  roles = "tenant_member" ∷ [];
  subject_user_id = some "ana";
  delegation_id = some "d1";
  token_id = none;
}

ana-accepted : (authenticate digest "mem1.t1.s1" 2000 demo).0 ≡ ok ana
unfolding authenticate Auth.authenticate split_dot split_token Dict.lookup Dict.get Tokens.get
    Tokens.is_live
ana-accepted = refl

bot-resolved : (resolve_channel_session "telegram" "42" demo).0 ≡ ok bot
unfolding resolve_channel_session Dict.get Dict.lookup post_init
bot-resolved = refl

tenant-active : holds (λ t. t.active) (get_tenant demo "acme") ≡ true
unfolding Dict.get Dict.lookup
tenant-active = refl

authenticate-reauthorize_session_example :
    (m : MembershipRecord) × (get_membership demo "acme" "ana" ≡ some m)
    × (subset ana.roles m.roles ≡ true)
    × (reauthorize_session ana (authenticate digest "mem1.t1.s1" 2000 demo).1
        ≡ (ok (record ana { roles = m.roles }), (authenticate digest "mem1.t1.s1" 2000 demo).1))
authenticate-reauthorize_session_example =
    authenticate-reauthorize_session digest is_decimal "mem1.t1.s1" 2000 demo ana demo-IsReachable
      ana-accepted

resolve_channel_session-reauthorize_session_example : reauthorize_session bot demo ≡ (ok bot, demo)
resolve_channel_session-reauthorize_session_example =
    resolve_channel_session-reauthorize_session digest is_decimal "telegram" "42" demo bot
      demo-IsReachable bot-resolved tenant-active

abbrev bot_disabled : PrincipalRecord
bot_disabled = record { principal_id = "bot"; name = "Bot"; kind = agent; active = false }

disables-bot : (Store.disable_principal "bot" 2000 demo).0 ≡ ok bot_disabled
unfolding Store.disable_principal Dict.get Dict.lookup
disables-bot = refl

ana-after-bot :
    (authenticate digest "mem1.t1.s1" 2000 (Store.disable_principal "bot" 2000 demo).1).0 ≡ ok ana
unfolding authenticate Auth.authenticate split_dot split_token Dict.lookup Dict.get Dict.assign
    Dict.put Dict.items Dict.distinct Dict.erase Dict.keys_of Dict.keys_where Dict.update
    Dict.map_items Tokens.get Tokens.is_live Store.disable_principal Store.cut_principal contains
ana-after-bot = refl

disable_principal-Gives_example : (ana.actor_id ≢ "bot") × (ana.subject_user_id ≢ some "bot")
disable_principal-Gives_example =
    disable_principal-Gives digest "bot" 2000 demo bot_disabled ana disables-bot
      (inl ("mem1.t1.s1", 2000, ana-after-bot))

abbrev bot_member : MembershipRecord
bot_member = record {
  tenant_id = "acme";
  principal_id = "bot";
  roles = "tenant_member" ∷ [];
  active = false;
}

disables-bot_member : (Store.disable_membership "acme" "bot" 2000 demo).0 ≡ ok bot_member
unfolding Store.disable_membership Dict.get Dict.lookup
disables-bot_member = refl

ana-after-bot_member :
    (authenticate digest "mem1.t1.s1" 2000 (Store.disable_membership "acme" "bot" 2000 demo).1).0
    ≡ ok ana
unfolding authenticate Auth.authenticate split_dot split_token Dict.lookup Dict.get Dict.assign
    Dict.put Dict.items Dict.distinct Dict.erase Dict.keys_of Dict.keys_where Dict.update
    Dict.map_items Tokens.get Tokens.is_live Store.disable_membership Store.cut_membership contains
ana-after-bot_member = refl

disable_membership-Gives_example : (ana.actor_id ≢ "bot") × (ana.subject_user_id ≢ some "bot")
disable_membership-Gives_example =
    disable_membership-Gives digest "acme" "bot" 2000 demo bot_member ana disables-bot_member
      (inl ("mem1.t1.s1", 2000, ana-after-bot_member)) refl

abbrev d1_revoked : DelegationRecord
d1_revoked = record {
  delegation_id = "d1";
  tenant_id = "acme";
  agent_id = "bot";
  subject_user_id = "ana";
  active = false;
}

revokes-d1 : (Store.revoke_delegation "d1" 2000 demo).0 ≡ ok d1_revoked
unfolding Store.revoke_delegation Dict.get Dict.lookup
revokes-d1 = refl

ana-after-d1 :
    (authenticate digest "mem1.t1.s1" 2000 (Store.revoke_delegation "d1" 2000 demo).1).0 ≡ ok ana
unfolding authenticate Auth.authenticate split_dot split_token Dict.lookup Dict.get Dict.assign
    Dict.put Dict.update Dict.map_items Tokens.get Tokens.is_live Store.revoke_delegation
    Store.cut_delegation
ana-after-d1 = refl

revoke_delegation-Gives_example : ana.delegation_id ≢ some "d1"
revoke_delegation-Gives_example =
    revoke_delegation-Gives digest "d1" 2000 demo d1_revoked ana revokes-d1
      (inl ("mem1.t1.s1", 2000, ana-after-d1))

IsReachable-IsSound_example : IsSound demo
IsReachable-IsSound_example = IsReachable-IsSound digest is_decimal demo-IsReachable
