-- ===== src/Operators/Keyed.antt =====
-- control.py: Operators stay stored under their ids.
use coengram.Prelude.{ℕ, String, string_eq, bool_eq, ◌≡◌, Bool, Option, some, arith, inl, inr, ◌⊎◌}
use coengram.Dict
use coengram.Dict.{Dict}
use coengram.Dict.Laws.{get-put_cases}
use coengram.Exec.{◌>>=◌, ◌>>◌}
use coengram.Exec.Reads.{reads_then}
use coengram.Models.{Roles}
use coengram.Operators.{Operators, OperatorRecord}
use coengram.Operators.Store as Store
use coengram.Operators.Store.{get_operator}
use coengram.Operators.Module.{
  create_operator, update_operator, select_operator, require_other_admin, inspect_operator,
}
use coengram.Operators.Admins.{select_operator_reads, require_other_admin_reads}
use coengram.Operators.Revoked.{IsKeyed}

put-IsKeyed :
    (s s' : Operators) (id : String) (o : OperatorRecord)
    → IsKeyed s
    → o.operator_id ≡ id
    → s'.operators ≡ Dict.put s.operators id o
    → IsKeyed s'
put-IsKeyed s s' id o h named same = record {
  operators_keyed = λ k p found. elim (get-put_cases s.operators id k o p (rw (← same) found)) [
    | inl (at, is) ↦ rw (← is, ← at) named
    | inr old ↦ h.operators_keyed k p old
  ];
}

create_operator_cases :
    (id name : String) (roles : Roles) (s : Operators)
    → ((create_operator id name roles s).1 ≡ s)
      ⊎ ((o : OperatorRecord) × (o.operator_id ≡ id)
          × ((create_operator id name roles s).1.operators ≡ Dict.put s.operators id o))
unfolding create_operator Store.add_operator
create_operator_cases id name roles s = grind arith

store_update_cases :
    (id name : String) (roles : Roles) (active : Bool) (now : ℕ) (s : Operators)
    → ((Store.update_operator id name roles active now s).1 ≡ s)
      ⊎ ((c : OperatorRecord) × (get_operator s id ≡ some c)
          × ((Store.update_operator id name roles active now s).1.operators
              ≡ Dict.put s.operators id (record c { name = name; roles = roles; active = active })))
unfolding Store.update_operator Store.revoke_all
store_update_cases id name roles active now s = grind arith

store_update-IsKeyed :
    (id name : String) (roles : Roles) (active : Bool) (now : ℕ) (s : Operators)
    → IsKeyed s
    → IsKeyed (Store.update_operator id name roles active now s).1
store_update-IsKeyed id name roles active now s h =
    elim (store_update_cases id name roles active now s) [
      | inl same ↦ rw same h
      | inr (c, found, made) ↦
          put-IsKeyed s (Store.update_operator id name roles active now s).1 id _ h
            (h.operators_keyed id c found) made
    ]

create_operator-IsKeyed :
    (id name : String) (roles : Roles) (s : Operators)
    → IsKeyed s
    → IsKeyed (create_operator id name roles s).1
create_operator-IsKeyed id name roles s h = elim (create_operator_cases id name roles s) [
  | inl same ↦ rw same h
  | inr (o, named, made) ↦ put-IsKeyed s (create_operator id name roles s).1 id o h named made
]

update_operator-IsKeyed :
    (id : String) (name : Option String) (roles : Option Roles) (active : Option Bool) (now : ℕ)
    → (s : Operators) → IsKeyed s
    → IsKeyed (update_operator id name roles active now s).1
unfolding update_operator
update_operator-IsKeyed id name roles active now s h =
    reads_then IsKeyed (inspect_operator id)
      (λ c. select_operator c name roles active >>= λ x.
        require_other_admin c x.1.0 x.1.1 >> Store.update_operator id x.0 x.1.0 x.1.1 now)
      s (ground arith) h
      λ c _.
        reads_then IsKeyed (select_operator c name roles active)
          (λ x. require_other_admin c x.1.0 x.1.1 >> Store.update_operator id x.0 x.1.0 x.1.1 now) s
          (select_operator_reads c name roles active s) h
          λ x _.
            reads_then IsKeyed (require_other_admin c x.1.0 x.1.1)
              (λ _. Store.update_operator id x.0 x.1.0 x.1.1 now) s
              (require_other_admin_reads c x.1.0 x.1.1 s) h
              λ _ _. store_update-IsKeyed id x.0 x.1.0 x.1.1 now s h

-- `create_operator` and `update_operator` keep Operators stored under their ids, whether they return
-- or raise.
pub kept-IsKeyed :
    (s : Operators)
    → IsKeyed s
    → ((id name : String) (roles : Roles) → IsKeyed (create_operator id name roles s).1)
      × ((id : String) (name : Option String) (roles : Option Roles) (active : Option Bool)
            (now : ℕ)
          → IsKeyed (update_operator id name roles active now s).1)
kept-IsKeyed s h = (
  λ id name roles. create_operator-IsKeyed id name roles s h,
  λ id name roles active now. update_operator-IsKeyed id name roles active now s h,
)
