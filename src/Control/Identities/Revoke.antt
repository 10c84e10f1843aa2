-- ===== src/Control/Identities/Revoke.antt =====
-- control.py, `InMemoryControlStore`: the methods that disable a Principal, a Membership or a
-- Delegation, with all that they revoke in turn.
use coengram.Prelude.{
  ℕ, String, ◌==◌, string_eq, option_eq, pair_eq, bool_eq, Bool, true, false, not, ◌&&◌, ◌||◌, some,
  List, [], if◌then◌else◌, is_some, contains, without, same_set,
}
use coengram.Exec.{Exec, control_not_found, raise_if, modify, gets, present, pure, ◌>>=◌, ◌>>◌}
use coengram.Dict
use coengram.Auth.{TokenRecord}
use coengram.Control.Identities.{
  Identities, PrincipalRecord, MembershipRecord, DelegationRecord, ChannelBindingRecord,
  get_principal, get_membership, get_delegation,
}

abbrev pub revoke_record : (TokenRecord → Bool) → ℕ → TokenRecord → TokenRecord
revoke_record p now r =
    if p r && not (is_some r.revoked_at) then record r { revoked_at = some now } else r

-- `_revoke_matching_tokens`
abbrev pub revoke_matching_tokens : (TokenRecord → Bool) → ℕ → Identities → Identities
revoke_matching_tokens p now s = record s {
  tokens = Dict.map_items (λ k r. revoke_record p now r) s.tokens;
}

abbrev pub deactivate_delegation : List String → String → DelegationRecord → DelegationRecord
deactivate_delegation ids id d = if contains id ids then record d { active = false } else d

abbrev pub deactivate_binding :
    (ChannelBindingRecord → Bool) → ChannelBindingRecord → ChannelBindingRecord
deactivate_binding p b = if p b then record b { active = false } else b

abbrev pub involves : String → DelegationRecord → Bool
involves id d = d.agent_id == id || d.subject_user_id == id

abbrev pub involves_in : String → String → DelegationRecord → Bool
involves_in tenant_id id d =
    d.tenant_id == tenant_id && (d.agent_id == id || d.subject_user_id == id)

-- the token acts as the Principal, or for it
abbrev pub token_of_principal : String → TokenRecord → Bool
token_of_principal id r = r.session.actor_id == id || r.session.subject_user_id == some id

abbrev pub token_in_tenant : String → String → TokenRecord → Bool
token_in_tenant tenant_id id r =
    r.session.tenant_id == tenant_id
    && (r.session.actor_id == id || r.session.subject_user_id == some id)

abbrev pub token_of_actor : String → String → TokenRecord → Bool
token_of_actor tenant_id id r = r.session.tenant_id == tenant_id && r.session.actor_id == id

abbrev pub token_of_delegation : String → TokenRecord → Bool
token_of_delegation id r = r.session.delegation_id == some id

-- The assignments of `disable_principal`, in order.
unfoldable pub cut_principal : String → PrincipalRecord → ℕ → Identities → Identities
cut_principal id disabled now s =
    let affected = Dict.keys_where (involves id) s.delegations in
    revoke_matching_tokens (token_of_principal id) now (record s {
      principals = Dict.put s.principals id disabled;
      memberships =
          Dict.map_items (λ k m. if m.principal_id == id then record m { active = false } else m)
            s.memberships;
      delegations = Dict.map_items (deactivate_delegation affected) s.delegations;
      channel_bindings =
          Dict.map_items
            (λ k.
              deactivate_binding
                (λ b. b.agent_id == id || b.user_id == id || contains b.delegation_id affected))
            s.channel_bindings;
    })

unfoldable pub disable_principal : String → ℕ → Exec Identities PrincipalRecord
unfolding cut_principal
disable_principal id now = do
  found ← gets (λ s. get_principal s id)
  current ← present found (control_not_found "Principal not found")
  let disabled = record current { active = false }
  modify (cut_principal id disabled now)
  pure disabled

unfoldable pub update_principal : String → String → Bool → ℕ → Exec Identities PrincipalRecord
unfolding disable_principal
update_principal id name active now = do
  found ← gets (λ s. get_principal s id)
  current ← present found (control_not_found "Principal not found")
  current' ← if active then pure current else disable_principal id now
  let updated = record current' { name = name; active = active }
  modify (λ s. record s { principals = Dict.put s.principals id updated })
  pure updated

-- The assignments of `disable_membership`, in order.
unfoldable pub cut_membership : String → String → MembershipRecord → ℕ → Identities → Identities
cut_membership tenant_id id disabled now s =
    let affected = Dict.keys_where (involves_in tenant_id id) s.delegations in
    revoke_matching_tokens (token_in_tenant tenant_id id) now (record s {
      memberships = Dict.put s.memberships (tenant_id, id) disabled;
      delegations = Dict.map_items (deactivate_delegation affected) s.delegations;
      channel_bindings =
          Dict.map_items (λ k. deactivate_binding (λ b. contains b.delegation_id affected))
            s.channel_bindings;
    })

unfoldable pub disable_membership : String → String → ℕ → Exec Identities MembershipRecord
unfolding cut_membership
disable_membership tenant_id id now = do
  found ← gets (λ s. get_membership s tenant_id id)
  current ← present found (control_not_found "Tenant Membership not found")
  let disabled = record current { active = false }
  modify (cut_membership tenant_id id disabled now)
  pure disabled

unfoldable pub update_membership : MembershipRecord → ℕ → Exec Identities MembershipRecord
unfolding disable_membership
update_membership r now = do
  found ← gets (λ s. get_membership s r.tenant_id r.principal_id)
  current ← present found (control_not_found "Tenant Membership not found")
  updated ← if r.active then pure r else (do
    disabled ← disable_membership r.tenant_id r.principal_id now
    pure (record disabled { roles = r.roles }))
  modify
      (λ s. record s { memberships = Dict.put s.memberships (r.tenant_id, r.principal_id) updated })
  modify (λ s.
      if not (same_set updated.roles current.roles) || not (updated.active == current.active)
      then revoke_matching_tokens (token_of_actor r.tenant_id r.principal_id) now s
      else s)
  pure updated

unfoldable pub revoke_membership_role :
    String → String → String → ℕ → Exec Identities MembershipRecord
unfolding disable_membership
revoke_membership_role tenant_id id role now = do
  found ← gets (λ s. get_membership s tenant_id id)
  current ← present found (control_not_found "Tenant Membership not found")
  raise_if (not (contains role current.roles))
      (control_not_found "Tenant Membership role not found")
  let remaining = without role current.roles
  let updated = record current { roles = remaining }
  if same_set remaining [] then disable_membership tenant_id id now else (do
    modify (λ s. record s { memberships = Dict.put s.memberships (tenant_id, id) updated })
    modify (revoke_matching_tokens (token_of_actor tenant_id id) now)
    pure updated)

-- The assignments of `revoke_delegation`, in order.
unfoldable pub cut_delegation : String → DelegationRecord → ℕ → Identities → Identities
cut_delegation id revoked now s = revoke_matching_tokens (token_of_delegation id) now (record s {
  delegations = Dict.put s.delegations id revoked;
  channel_bindings =
      Dict.map_items (λ k. deactivate_binding (λ b. b.delegation_id == id)) s.channel_bindings;
})

unfoldable pub revoke_delegation : String → ℕ → Exec Identities DelegationRecord
unfolding cut_delegation
revoke_delegation id now = do
  found ← gets (λ s. get_delegation s id)
  current ← present found (control_not_found "Delegation not found")
  let revoked = record current { active = false }
  modify (cut_delegation id revoked now)
  pure revoked

unfoldable pub update_delegation_active : String → Bool → ℕ → Exec Identities DelegationRecord
unfolding revoke_delegation
update_delegation_active id active now = do
  found ← gets (λ s. get_delegation s id)
  current ← present found (control_not_found "Delegation not found")
  let updated = record current { active = true }
  if active
      then (do
        modify (λ s. record s { delegations = Dict.put s.delegations id updated })
        pure updated)
      else revoke_delegation id now
