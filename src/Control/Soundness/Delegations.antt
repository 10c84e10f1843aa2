-- ===== src/Control/Soundness/Delegations.antt =====
-- control.py: every method on Delegations and Channel Bindings keeps the identities sound.
use text.Mathlib.TextEquality.{eq_iff}
use coengram.Prelude.{
  ℕ, String, string_eq, pair_eq, ◌≡◌, refl, Bool, true, false, none, subst, some, inl, inr, arith,
  if◌then◌else◌, ◌⊎◌,
}
use coengram.Dict
use coengram.Exec.{ok, ◌>>◌, pure}
use coengram.Exec.Reads.{reads_then}
use coengram.Control.Identities.{
  Identities, DelegationRecord, ChannelBindingRecord, get_delegation, get_channel_binding,
  delete_channel_binding, save_delegation,
}
use coengram.Control.Identities.Revoke as Store
use coengram.Control.Delegations.{
  require_active_delegation_bindings, create_delegation, update_delegation, inspect_delegation,
  create_channel_binding, disable_channel_binding,
}
use coengram.Control.Soundness.Put.{
  put_delegation-IsSound, put_binding-IsSound, pop_binding-IsSound,
}
use coengram.Control.Soundness.Disable.{revoke_delegation-IsSound}
use coengram.Control.Soundness.{IsSound, is_backed, is_bound}

abbrev pub delegation : String → String → String → String → DelegationRecord
delegation id t a u = record {
  delegation_id = id;
  tenant_id = t;
  agent_id = a;
  subject_user_id = u;
  active = true;
}

-- The checks change nothing, and pass only where a Delegation would be backed.
requires_backing :
    (id t a u : String) (s : Identities)
    → (require_active_delegation_bindings t a u s).0 ≡ ok tt
    → is_backed s (delegation id t a u) ≡ true
unfolding require_active_delegation_bindings is_backed
requires_backing id t a u s h = ground arith

requires_reads :
    (t a u : String) (s : Identities) → (require_active_delegation_bindings t a u s).1 ≡ s
unfolding require_active_delegation_bindings
requires_reads t a u s = ground arith

save_delegation_cases :
    (d : DelegationRecord) (s : Identities)
    → (((save_delegation d >> pure d) s).1 ≡ s)
      ⊎ ((get_delegation s d.delegation_id ≡ none)
          × (((save_delegation d >> pure d) s).1
              ≡ record s { delegations = Dict.put s.delegations d.delegation_id d }))
unfolding save_delegation
save_delegation_cases d s = ground arith

save_delegation-IsSound :
    (d : DelegationRecord) (s : Identities)
    → IsSound s
    → is_backed s d ≡ true
    → d.active ≡ true
    → IsSound ((save_delegation d >> pure d) s).1
save_delegation-IsSound d s h backed on = elim (save_delegation_cases d s) [
  | inl same ↦ rw same h
  | inr (absent, made) ↦
      rw made
        (put_delegation-IsSound s h d backed (λ c found. absurd (ground (arith, absent, found))) on)
]

pub create_delegation-IsSound :
    (id t a u : String) (s : Identities) → IsSound s → IsSound (create_delegation id t a u s).1
unfolding create_delegation
create_delegation-IsSound id t a u s h =
    let d = delegation id t a u in
    reads_then IsSound (require_active_delegation_bindings t a u) (λ _. save_delegation d >> pure d)
      s (requires_reads t a u s) h
      (λ _ checked. save_delegation-IsSound d s h (requires_backing id t a u s checked) refl)

abbrev on_delegation : DelegationRecord → DelegationRecord
on_delegation c = record c { active = true }

-- `update_delegation_active` revokes, or writes the Delegation back as active.
activate_cases :
    (id : String) (active : Bool) (now : ℕ) (s : Identities) (c : DelegationRecord)
    → get_delegation s id ≡ some c
    → (Store.update_delegation_active id active now s).1 ≡ (
        if active
        then record s { delegations = Dict.put s.delegations id (on_delegation c) }
        else (Store.revoke_delegation id now s).1)
unfolding Store.update_delegation_active
activate_cases id active now s c found = ground (arith, found)

inspect_found :
    (id : String) (s : Identities) (c : DelegationRecord)
    → (inspect_delegation id s).0 ≡ ok c
    → get_delegation s id ≡ some c
inspect_found id s c h = ground arith

activate-IsSound :
    (id : String) (now : ℕ) (s : Identities) (c : DelegationRecord)
    → IsSound s
    → get_delegation s id ≡ some c
    → (require_active_delegation_bindings c.tenant_id c.agent_id c.subject_user_id s).0 ≡ ok tt
    → IsSound (Store.update_delegation_active id true now s).1
activate-IsSound id now s c h found checked =
    let key = h.delegations_keyed id c found in
    rw (activate_cases id true now s c found) (
      subst (λ k. IsSound (record s { delegations = Dict.put s.delegations k (on_delegation c) }))
        key
        (put_delegation-IsSound s h (on_delegation c)
          (requires_backing c.delegation_id c.tenant_id c.agent_id c.subject_user_id s checked)
          (λ b at. ground (arith, found, key, at)) refl))

pub update_delegation-IsSound :
    (id : String) (active : Bool) (now : ℕ) (s : Identities)
    → IsSound s
    → IsSound (update_delegation id active now s).1
unfolding update_delegation
update_delegation-IsSound id true now s h =
    reads_then IsSound (inspect_delegation id)
      (λ c.
        require_active_delegation_bindings c.tenant_id c.agent_id c.subject_user_id
        >> Store.update_delegation_active id true now)
      s (ground arith) h
      (λ c ins.
        reads_then IsSound
          (require_active_delegation_bindings c.tenant_id c.agent_id c.subject_user_id)
          (λ _. Store.update_delegation_active id true now) s (requires_reads _ _ _ s) h
          (λ _ checked. activate-IsSound id now s c h (inspect_found id s c ins) checked))
update_delegation-IsSound id false now s h =
    reads_then IsSound (inspect_delegation id) (λ c. Store.update_delegation_active id false now) s
      (ground arith) h
      (λ c ins.
        rw (activate_cases id false now s c (inspect_found id s c ins))
          (revoke_delegation-IsSound id now s h))

create_channel_binding_cases :
    (dec : String → Bool) (bid ch ext did : String) (s : Identities)
    → ((create_channel_binding dec bid ch ext did s).1 ≡ s)
      ⊎ ((d : DelegationRecord) × (get_delegation s did ≡ some d)
          × (d.active ≡ true)
          × ((create_channel_binding dec bid ch ext did s).1 ≡ record s {
            channel_bindings =
                Dict.put s.channel_bindings
                  (ch, ext)
                  (record {
                    binding_id = bid;
                    channel = ch;
                    external_id = ext;
                    tenant_id = d.tenant_id;
                    user_id = d.subject_user_id;
                    agent_id = d.agent_id;
                    delegation_id = d.delegation_id;
                    active = true;
                  });
          }))
unfolding create_channel_binding
create_channel_binding_cases dec bid ch ext did s = grind arith

pub create_channel_binding-IsSound :
    (dec : String → Bool) (bid ch ext did : String) (s : Identities)
    → IsSound s
    → IsSound (create_channel_binding dec bid ch ext did s).1
unfolding is_bound
create_channel_binding-IsSound dec bid ch ext did s h =
    elim (create_channel_binding_cases dec bid ch ext did s) [
      | inl same ↦ rw same h
      | inr (d, found, on, made) ↦ rw made (
          put_binding-IsSound s h (ch, ext) _
            (λ _.
              rw (h.delegations_keyed did d found, found)
                (ground (
                  arith,
                  on,
                  eq_iff d.tenant_id d.tenant_id,
                  eq_iff d.agent_id d.agent_id,
                  eq_iff d.subject_user_id d.subject_user_id,
                ))))
    ]

abbrev off_binding : ChannelBindingRecord → ChannelBindingRecord
off_binding b = record b { active = false }

disable_channel_binding_cases :
    (ch ext : String) (s : Identities)
    → ((disable_channel_binding ch ext s).1 ≡ s)
      ⊎ ((b : ChannelBindingRecord) × (get_channel_binding s ch ext ≡ some b)
          × ((disable_channel_binding ch ext s).1 ≡ record s {
            channel_bindings =
                Dict.put s.channel_bindings (b.channel, b.external_id) (off_binding b);
          }))
unfolding disable_channel_binding
disable_channel_binding_cases ch ext s = grind arith

pub disable_channel_binding-IsSound :
    (ch ext : String) (s : Identities) → IsSound s → IsSound (disable_channel_binding ch ext s).1
disable_channel_binding-IsSound ch ext s h = elim (disable_channel_binding_cases ch ext s) [
  | inl same ↦ rw same h
  | inr (b, _, made) ↦ rw made (
      put_binding-IsSound s h (b.channel, b.external_id) (off_binding b)
        (λ on. absurd (ground (arith, on))))
]

pub delete_channel_binding-IsSound :
    (ch ext : String) (s : Identities) → IsSound s → IsSound (delete_channel_binding ch ext s).1
unfolding delete_channel_binding
delete_channel_binding-IsSound ch ext s h = pop_binding-IsSound s h (ch, ext)
