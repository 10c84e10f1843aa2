-- ===== src/Memory/Archive/Depth.antt =====
-- archive.py, `order_correction_history`: the walk along the corrections ends.
use text.Mathlib.TextEquality.{eq_iff}
use coengram.Prelude.{
  ℕ, zero, suc, ◌≤◌, ◌<◌, String, ◌==◌, string_eq, ◌≡◌, ◌≢◌, refl, subst, ◌⊎◌, inl, inr, false, not,
  Option, none, some, List, [], ◌∷◌, arith, contains, map, keep, length, Bool-cases, Option-cases,
}
use coengram.Prelude.Members.{◌∈◌, length-keep-le}
use coengram.Dict
use coengram.Dict.{Dict}
use coengram.Dict.Laws.{get-put, get-put_self, get-put_cases}
use coengram.Exec.{Error, Result, ok, err}
use coengram.Models.Items.{MemoryItem}
use coengram.Memory.Archive.{
  Visit, visit, visit_all, parent_of, enter, finish, put_all, by_id, unvisited,
  order_correction_history,
}

abbrev pub ids : List MemoryItem → List String
ids = map (λ x. x.id)

-- What an index over items finds is one of them, under its own id.
pub record IsIndex (items : List MemoryItem) (index : Dict String MemoryItem) : Type 0 where
  pub known : (k : String) (p : MemoryItem) → Dict.get index k ≡ some p → (p ∈ items) × (p.id ≡ k)
  pub complete : (k : String) → k ∈ ids items → (p : MemoryItem) × (Dict.get index k ≡ some p)

put_all_cases :
    (xs : List MemoryItem) (d : Dict String MemoryItem) (k : String) (p : MemoryItem)
    → Dict.get (put_all xs d) k ≡ some p
    → (p ∈ xs) × (p.id ≡ k) ⊎ (Dict.get d k ≡ some p)
unfolding put_all
put_all_cases [] d k p h = inr h
put_all_cases (x ∷ xs) d k p h = elim (put_all_cases xs (Dict.put d x.id x) k p h) [
  | inl (m, e) ↦ inl (inr m, e)
  | inr old ↦ elim (get-put_cases d x.id k x p old) [
    | inl (same, e) ↦ inl (inl e, ground arith)
    | inr before ↦ inr before
  ]
]

put_all-keeps :
    (xs : List MemoryItem) (d : Dict String MemoryItem) (k : String) (p : MemoryItem)
    → Dict.get d k ≡ some p
    → (q : MemoryItem) × (Dict.get (put_all xs d) k ≡ some q)
unfolding put_all
put_all-keeps [] d k p h = (p, h)
put_all-keeps (x ∷ xs) d k p h = elim (Bool-cases (x.id == k)) [
  | inl same ↦ put_all-keeps xs (Dict.put d x.id x) k x (ground (arith, get-put d x.id k x, same))
  | inr other ↦ put_all-keeps xs (Dict.put d x.id x) k p (ground (arith, get-put d x.id k x, other))
]

put_all_complete :
    (xs : List MemoryItem) (d : Dict String MemoryItem) (k : String)
    → k ∈ ids xs
    → (q : MemoryItem) × (Dict.get (put_all xs d) k ≡ some q)
unfolding put_all
put_all_complete [] d k m = absurd m
put_all_complete (x ∷ xs) d k (inl e) =
    put_all-keeps xs (Dict.put d x.id x) k x
      (subst (λ j. Dict.get (Dict.put d x.id x) j ≡ some x) e (get-put_self d x.id x))
put_all_complete (x ∷ xs) d k (inr m) = put_all_complete xs (Dict.put d x.id x) k m

pub by_id-IsIndex : (items : List MemoryItem) → IsIndex items (by_id items)
unfolding Dict.get Dict.lookup
by_id-IsIndex items = record {
  known = λ k p h. elim (put_all_cases items Dict.empty k p h) [
    | inl found ↦ found
    | inr nothing ↦ absurd (cc)
  ];
  complete = put_all_complete items Dict.empty;
}

pub parent_of-mem :
    {items : List MemoryItem} {index : Dict String MemoryItem}
    → IsIndex items index
    → (x p : MemoryItem) → parent_of index x ≡ some p
    → (p ∈ items) × (x.supersedes_id ≡ some p.id)
parent_of-mem {index} i x p h = elim (Option-cases x.supersedes_id) [
  | inl root ↦ absurd (ground arith)
  | inr (id, e) ↦ let (m, same) = i.known id p (ground arith) in (m, ground arith)
]

-- the items that the walk has not entered
abbrev pub waiting : List MemoryItem → List String → List MemoryItem
waiting items visiting = keep (λ i. not (contains i.id visiting)) items

waiting-enter-le :
    (id : String) (visiting : List String) (xs : List MemoryItem)
    → length (waiting xs (id ∷ visiting)) ≤ length (waiting xs visiting)
unfolding keep contains
waiting-enter-le id visiting [] = omega arith
waiting-enter-le id visiting (x ∷ xs) = ground (arith, waiting-enter-le id visiting xs)

-- Entering an item leaves fewer.
waiting-enter :
    (item : MemoryItem) (visiting : List String) (xs : List MemoryItem)
    → item ∈ xs
    → contains item.id visiting ≡ false
    → length (waiting xs (item.id ∷ visiting)) < length (waiting xs visiting)
unfolding keep contains
waiting-enter item visiting [] m h = absurd m
waiting-enter item visiting (x ∷ xs) (inl e) h =
    ground (arith, e, eq_iff item.id x.id, waiting-enter-le item.id visiting xs)
waiting-enter item visiting (x ∷ xs) (inr m) h = ground (arith, waiting-enter item visiting xs m h)

pub outcome_cases :
    (r : Option (Result Visit))
    → (r ≡ none) ⊎ ((e : Error) × (r ≡ some (err e))) ⊎ ((v : Visit) × (r ≡ some (ok v)))
outcome_cases none = inl refl
outcome_cases (some (err e)) = inr (inl (e, refl))
outcome_cases (some (ok v)) = inr (inr (v, refl))

finish-total : (item : MemoryItem) (r : Option (Result Visit)) → r ≢ none → finish item r ≢ none
finish-total item none h = λ e. h refl
finish-total item (some (ok v)) h = λ e. absurd (cc)
finish-total item (some (err x)) h = λ e. absurd (cc)

module _ {items : List MemoryItem} {index : Dict String MemoryItem} (i : IsIndex items index) where
  -- Fuel for every item that is not entered yet is enough.
  pub visit-total :
      (fuel : ℕ) (item : MemoryItem) (v : Visit)
      → item ∈ items
      → length (waiting items v.visiting) < fuel
      → visit fuel index item v ≢ none
  unfolding visit
  visit-total zero item v m h = absurd (omega arith)
  visit-total (suc fuel) item v m h = elim (Bool-cases (contains item.id v.permanent)) [
    | inl done ↦ rw done (λ e. absurd (cc))
    | inr fresh ↦ elim (Bool-cases (contains item.id v.visiting)) [
      | inl cycle ↦ rw (fresh, cycle) (λ e. absurd (cc))
      | inr new ↦ elim (Option-cases (parent_of index item)) [
        | inl root ↦ rw (fresh, new, root) (λ e. absurd (cc))
        | inr (p, above) ↦
            let less = waiting-enter item v.visiting items m new in
            rw (fresh, new, above)
              (finish-total item _
                (visit-total fuel p (enter item v) (parent_of-mem i item p above).0 (omega arith)))
      ]
    ]
  ]

  pub visit_all-total :
      (fuel : ℕ) (xs : List MemoryItem) (v : Visit)
      → ((a : MemoryItem) → a ∈ xs → a ∈ items)
      → length items < fuel
      → visit_all fuel index xs v ≢ none
  unfolding visit_all
  visit_all-total fuel [] v sub h = λ e. absurd (cc)
  visit_all-total fuel (x ∷ xs) v sub h = elim (outcome_cases (visit fuel index x v)) [
    | inl out ↦ absurd (
        visit-total fuel x v (sub x (inl refl))
          (omega (arith, length-keep-le (λ j. not (contains j.id v.visiting)) items)) out)
    | inr (inl (y, e)) ↦ rw (e, visit_all) (λ t. absurd (cc))
    | inr (inr (w, e)) ↦ rw (e, visit_all) (visit_all-total fuel xs w (λ a k. sub a (inr k)) h)
  ]

-- The order of an archive's items is found with the fuel that it is given: the walk along the
-- corrections ends, also where they run in a circle.
pub order_correction_history-total :
    (items : List MemoryItem) → order_correction_history items ≢ none
unfolding order_correction_history
order_correction_history-total items =
    elim (outcome_cases (visit_all (suc (length items)) (by_id items) items unvisited)) [
      | inl out ↦ absurd (
          visit_all-total (by_id-IsIndex items) (suc (length items)) items unvisited (λ a m. m)
            (omega arith) out)
      | inr (inl (y, e)) ↦ rw e (λ t. absurd (cc))
      | inr (inr (w, e)) ↦ rw e (λ t. absurd (cc))
    ]
