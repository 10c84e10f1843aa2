-- ===== src/Operators/Admins.antt =====
-- control.py: the service never loses its last active administrator among the Operators.
use coengram.Prelude.{
  ℕ, String, string_eq, bool_eq, ◌≡◌, ◌≤◌, ◌+◌, Bool, false, ◌&&◌, Option, some, arith, holds, leb,
}
use coengram.Dict
use coengram.Dict.Count.{count-put, one_if}
use coengram.Exec.{ok, ◌>>=◌, ◌>>◌}
use coengram.Exec.Reads.{reads_then}
use coengram.Models.{Roles}
use coengram.Operators.{Operators, OperatorRecord}
use coengram.Operators.Store as Store
use coengram.Operators.Store.{get_operator, count_active_operator_admins, is_active_admin}
use coengram.Operators.Module.{
  update_operator, select_operator, require_other_admin, removes_admin, inspect_operator,
}

put_operator_count :
    (s : Operators) (id : String) (o : OperatorRecord)
    → count_active_operator_admins (record s { operators = Dict.put s.operators id o })
        + one_if (holds is_active_admin (get_operator s id))
      ≡ count_active_operator_admins s + one_if (is_active_admin o)
unfolding count_active_operator_admins
put_operator_count s id o = count-put is_active_admin s.operators id o

-- the store that `update_operator` leaves
update_operator_cases :
    (id name : String) (roles : Roles) (active : Bool) (now : ℕ) (s : Operators)
    (c : OperatorRecord)
    → get_operator s id ≡ some c
    → count_active_operator_admins (Store.update_operator id name roles active now s).1
      ≡ count_active_operator_admins (record s {
        operators =
            Dict.put s.operators id (record c { name = name; roles = roles; active = active });
      })
unfolding Store.update_operator Store.revoke_all count_active_operator_admins
update_operator_cases id name roles active now s c found = ground (arith, found)

pub select_operator_reads :
    (c : OperatorRecord) (name : Option String) (roles : Option Roles) (active : Option Bool)
    → (s : Operators) → (select_operator c name roles active s).1 ≡ s
unfolding select_operator
select_operator_reads c name roles active s = ground arith

pub require_other_admin_reads :
    (c : OperatorRecord) (rs : Roles) (a : Bool) (s : Operators)
    → (require_other_admin c rs a s).1 ≡ s
unfolding require_other_admin
require_other_admin_reads c rs a s = ground arith

require_other_admin_ok :
    (c : OperatorRecord) (rs : Roles) (a : Bool) (s : Operators)
    → (require_other_admin c rs a s).0 ≡ ok tt
    → (removes_admin c rs a && leb (count_active_operator_admins s) 1) ≡ false
unfolding require_other_admin
require_other_admin_ok c rs a s h = ground arith

guarded :
    (s : Operators) (id n : String) (rs : Roles) (a : Bool) (c : OperatorRecord)
    → get_operator s id ≡ some c
    → (removes_admin c rs a && leb (count_active_operator_admins s) 1) ≡ false
    → 1 ≤ count_active_operator_admins s
    → 1
      ≤ count_active_operator_admins (record s {
        operators = Dict.put s.operators id (record c { name = n; roles = rs; active = a });
      })
guarded s id n rs a c found guard some_admin =
    let o : OperatorRecord = record c { name = n; roles = rs; active = a } in
    ground (arith, found, guard, put_operator_count s id o)

-- There is an active Operator with the role operator_admin.
abbrev pub HasAdmin : Operators → Type 0
HasAdmin s = 1 ≤ count_active_operator_admins s

inspect_found :
    (id : String) (s : Operators) (c : OperatorRecord)
    → (inspect_operator id s).0 ≡ ok c
    → get_operator s id ≡ some c
inspect_found id s c h = ground arith

-- Whatever `update_operator` is asked for, and whether it returns or raises, there is an active
-- operator_admin afterwards if there was one before.
pub update_operator-HasAdmin :
    (id : String) (name : Option String) (roles : Option Roles) (active : Option Bool) (now : ℕ)
    → (s : Operators) → HasAdmin s
    → HasAdmin (update_operator id name roles active now s).1
unfolding update_operator
update_operator-HasAdmin id name roles active now s h =
    reads_then HasAdmin (inspect_operator id)
      (λ c. select_operator c name roles active >>= λ x.
        require_other_admin c x.1.0 x.1.1 >> Store.update_operator id x.0 x.1.0 x.1.1 now)
      s (ground arith) h
      λ c ins.
        reads_then HasAdmin (select_operator c name roles active)
          (λ x. require_other_admin c x.1.0 x.1.1 >> Store.update_operator id x.0 x.1.0 x.1.1 now) s
          (select_operator_reads c name roles active s) h
          λ x _.
            reads_then HasAdmin (require_other_admin c x.1.0 x.1.1)
              (λ _. Store.update_operator id x.0 x.1.0 x.1.1 now) s
              (require_other_admin_reads c x.1.0 x.1.1 s) h
              λ _ passed.
                let found = inspect_found id s c ins in
                rw (update_operator_cases id x.0 x.1.0 x.1.1 now s c found) (
                  guarded s id x.0 x.1.0 x.1.1 c found
                    (require_other_admin_ok c x.1.0 x.1.1 s passed) h)
