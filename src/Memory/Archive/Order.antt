-- ===== src/Memory/Archive/Order.antt =====
-- archive.py, `order_correction_history`: its result, and when there is one.
use text.Mathlib.TextEquality.{eq_iff}
use coengram.Prelude.{
  ℕ, zero, suc, String, ◌==◌, string_eq, ◌≡◌, refl, sym, ap, subst, ◌⊎◌, inl, inr, true, false,
  Option, none, some, List, [], ◌∷◌, ◌++◌, arith, contains, length, Bool-cases, Option-cases,
}
use coengram.Prelude.Members.{◌∈◌, mem-append_cases}
use coengram.Dict.{Dict}
use coengram.Exec.{Result, ok, err}
use coengram.Models.Items.{MemoryItem}
use coengram.Memory.Archive.{
  Visit, visit, visit_all, parent_of, enter, leave, finish, by_id, unvisited,
  order_correction_history,
}
use coengram.Memory.Archive.Depth.{ids, IsIndex, by_id-IsIndex, parent_of-mem, outcome_cases}

-- Every item comes after the item that it corrects, where the archive holds that one.
abbrev pub IsRooted : List MemoryItem → List String → List MemoryItem → Type 0
IsRooted items seen [] = Unit
IsRooted items seen (x ∷ xs) =
    ((id : String) → x.supersedes_id ≡ some id → id ∈ ids items → id ∈ seen)
    × IsRooted items (x.id ∷ seen) xs

-- No identifier stands twice.
abbrev pub IsDistinct : List String → Type 0
IsDistinct [] = Unit
IsDistinct (x ∷ xs) = ¬ (x ∈ xs) × IsDistinct xs

IsRooted-append :
    (items : List MemoryItem) (seen : List String) (xs : List MemoryItem) (x : MemoryItem)
    → IsRooted items seen xs
    → ((id : String) → x.supersedes_id ≡ some id → id ∈ ids items → (id ∈ ids xs) ⊎ (id ∈ seen))
    → IsRooted items seen (xs ++ x ∷ [])
IsRooted-append items seen [] x h above =
    (λ id e m. elim (above id e m) [ inl nowhere ↦ absurd nowhere | inr s ↦ s ], tt)
IsRooted-append items seen (y ∷ ys) x h above = (
  h.0,
  IsRooted-append items (y.id ∷ seen) ys x h.1 (λ id e m. elim (above id e m) [
    | inl (inl here) ↦ inr (inl here)
    | inl (inr later) ↦ inl later
    | inr s ↦ inr (inr s)
  ]),
)

ids-append_mem :
    (id : String) (xs ys : List MemoryItem) → (id ∈ ids xs) ⊎ (id ∈ ids ys) → id ∈ ids (xs ++ ys)
ids-append_mem id [] ys (inl m) = absurd m
ids-append_mem id [] ys (inr m) = m
ids-append_mem id (x ∷ xs) ys (inl (inl e)) = inl e
ids-append_mem id (x ∷ xs) ys (inl (inr m)) = inr (ids-append_mem id xs ys (inl m))
ids-append_mem id (x ∷ xs) ys (inr m) = inr (ids-append_mem id xs ys (inr m))

ids-append_cases :
    (id : String) (xs : List MemoryItem) (x : MemoryItem)
    → id ∈ ids (xs ++ x ∷ [])
    → (id ∈ ids xs) ⊎ (x.id ≡ id)
ids-append_cases id [] x (inl e) = inr e
ids-append_cases id [] x (inr m) = absurd m
ids-append_cases id (y ∷ ys) x (inl e) = inl (inl e)
ids-append_cases id (y ∷ ys) x (inr m) = elim (ids-append_cases id ys x m) [
  | inl l ↦ inl (inr l)
  | inr e ↦ inr e
]

IsDistinct-append :
    (xs : List MemoryItem) (x : MemoryItem)
    → IsDistinct (ids xs)
    → ¬ (x.id ∈ ids xs)
    → IsDistinct (ids (xs ++ x ∷ []))
IsDistinct-append [] x d new = (λ m. m, tt)
IsDistinct-append (y ∷ ys) x d new = (
  λ m. elim (ids-append_cases y.id ys x m) [ inl l ↦ d.0 l | inr e ↦ new (inl (sym e)) ],
  IsDistinct-append ys x d.1 (λ m. new (inr m)),
)

pub mem-ids : (x : MemoryItem) (xs : List MemoryItem) → x ∈ xs → x.id ∈ ids xs
mem-ids x [] m = m
mem-ids x (y ∷ ys) (inl e) = inl (ap (λ z. z.id) e)
mem-ids x (y ∷ ys) (inr m) = inr (mem-ids x ys m)

-- The state between two visits: what is placed, and in which order.
record IsPlaced (items : List MemoryItem) (v : Visit) : Type 0 where
  placed : (id : String) → contains id v.permanent ≡ true → id ∈ ids v.ordered
  rooted : IsRooted items [] v.ordered
  known : (a : MemoryItem) → a ∈ v.ordered → a ∈ items
  listed : (id : String) → id ∈ ids v.ordered → contains id v.permanent ≡ true
  distinct : IsDistinct (ids v.ordered)

-- What a visit of an item adds.
record Visited (items : List MemoryItem) (item : MemoryItem) (v v' : Visit) : Type 0 where
  valid : IsPlaced items v'
  here : contains item.id v'.permanent ≡ true
  grows : (id : String) → contains id v.permanent ≡ true → contains id v'.permanent ≡ true
  -- an item whose visit has begun and not ended is not placed by another visit
  spares :
      (id : String)
      → contains id v.visiting ≡ true
      → contains id v.permanent ≡ false
      → contains id v'.permanent ≡ false

module _ {items : List MemoryItem} where
  enter-IsPlaced :
      (item : MemoryItem) (v : Visit) → IsPlaced items v → IsPlaced items (enter item v)
  enter-IsPlaced item v h = record {
    placed = h.placed;
    rooted = h.rooted;
    known = h.known;
    listed = h.listed;
    distinct = h.distinct;
  }

  leave-Visited :
      (item : MemoryItem) (v v' : Visit)
      → IsPlaced items v'
      → item ∈ items
      → ((id : String) → item.supersedes_id ≡ some id → id ∈ ids items → id ∈ ids v'.ordered)
      → ((id : String) → contains id v.permanent ≡ true → contains id v'.permanent ≡ true)
      → contains item.id v.visiting ≡ false
      → contains item.id v.permanent ≡ false
      → ((id : String)
          → contains id (enter item v).visiting ≡ true
          → contains id v.permanent ≡ false
          → contains id v'.permanent ≡ false)
      → Visited items item v (leave item v')
  unfolding contains
  leave-Visited item v v' h m above old out fresh spared = record {
    valid = record {
      placed = λ id c. elim (Bool-cases (item.id == id)) [
        | inl same ↦
            ids-append_mem id v'.ordered (item ∷ []) (inr (inl ((eq_iff item.id id).0 same)))
        | inr other ↦
            ids-append_mem id v'.ordered (item ∷ []) (inl (h.placed id (ground (arith, other))))
      ];
      rooted = IsRooted-append items [] v'.ordered item h.rooted (λ id e k. inl (above id e k));
      known = λ a k. elim (mem-append_cases a v'.ordered (item ∷ []) k) [
        | inl before ↦ h.known a before
        | inr (inl e) ↦ subst (λ x. x ∈ items) e m
        | inr (inr nowhere) ↦ absurd nowhere
      ];
      listed = λ id k. elim (ids-append_cases id v'.ordered item k) [
        | inl before ↦ ground (arith, h.listed id before)
        | inr same ↦ ground (arith, eq_iff item.id id)
      ];
      distinct = IsDistinct-append v'.ordered item h.distinct (λ k.
          let twice : contains item.id v'.permanent ≡ true = h.listed item.id k in
          let unplaced : contains item.id v'.permanent ≡ false =
            spared item.id (ground (arith, eq_iff item.id item.id)) fresh in
          absurd (cc));
    };
    here = ground (arith, eq_iff item.id item.id);
    grows = λ id c. ground (arith, old id c);
    spares = λ id begun unplaced. elim (Bool-cases (item.id == id)) [
      | inl same ↦
          let e : item.id ≡ id = (eq_iff item.id id).0 same in
          let begun' : contains item.id v.visiting ≡ true =
            subst (λ j. contains j v.visiting ≡ true) (sym e) begun in
          absurd (cc)
      | inr other ↦ ground (arith, other, spared id (ground (arith, other, begun)) unplaced)
    ];
  }

finish_ok :
    (item : MemoryItem) (r : Option (Result Visit)) (v : Visit)
    → finish item r ≡ some (ok v)
    → (w : Visit) × (r ≡ some (ok w)) × (v ≡ leave item w)
finish_ok item none v h = absurd (cc)
finish_ok item (some (err x)) v h = absurd (cc)
finish_ok item (some (ok w)) v h = (w, refl, cc)

module _ {items : List MemoryItem} {index : Dict String MemoryItem} (i : IsIndex items index) where
  no_ancestor :
      (item : MemoryItem)
      → parent_of index item ≡ none
      → (id : String) → item.supersedes_id ≡ some id
      → id ∈ ids items
      → ⊥
  no_ancestor item root id e k = let (q, found) = i.complete id k in ground arith

  visit-Visited :
      (fuel : ℕ) (item : MemoryItem) (v v' : Visit)
      → item ∈ items
      → IsPlaced items v
      → visit fuel index item v ≡ some (ok v')
      → Visited items item v v'
  unfolding visit
  visit-Visited zero item v v' m h = λ r. absurd (cc)
  visit-Visited (suc fuel) item v v' m h = elim (Bool-cases (contains item.id v.permanent)) [
    | inl done ↦ rw done (λ r.
        let same : v ≡ v' = cc in
        subst (Visited items item v) same
          (record { valid = h; here = done; grows = λ id c. c; spares = λ id b c. c }))
    | inr fresh ↦ elim (Bool-cases (contains item.id v.visiting)) [
      | inl cycle ↦ rw (fresh, cycle) (λ r. absurd (cc))
      | inr new ↦ elim (Option-cases (parent_of index item)) [
        | inl root ↦
            rw (fresh, new, root)
              (λ r.
                let same : leave item (enter item v) ≡ v' = cc in
                subst (Visited items item v) same (
                  leave-Visited item v (enter item v) (enter-IsPlaced item v h) m
                    (λ id e k. absurd (no_ancestor item root id e k)) (λ id c. c) new fresh
                    (λ id b c. c)))
        | inr (p, above) ↦
            rw (fresh, new, above)
              (λ r.
                let (w, ran, same) = finish_ok item _ v' r in
                let (mp, named) = parent_of-mem i item p above in
                let up = visit-Visited fuel p (enter item v) w mp (enter-IsPlaced item v h) ran in
                subst (Visited items item v) (sym same) (
                  leave-Visited item v w up.valid m
                    (λ id e k.
                      let same_id : p.id ≡ id = cc in
                      subst (λ j. j ∈ ids w.ordered) same_id (up.valid.placed p.id up.here))
                    up.grows new fresh up.spares))
      ]
    ]
  ]

  visit_all-IsPlaced :
      (fuel : ℕ) (xs : List MemoryItem) (v v' : Visit)
      → ((a : MemoryItem) → a ∈ xs → a ∈ items)
      → IsPlaced items v
      → visit_all fuel index xs v ≡ some (ok v')
      → IsPlaced items v'
        × ((id : String)
            → (contains id v.permanent ≡ true) ⊎ (id ∈ ids xs)
            → contains id v'.permanent ≡ true)
  unfolding visit_all
  visit_all-IsPlaced fuel [] v v' sub h = λ r.
      let same : v ≡ v' = cc in
      subst
        (λ w.
          IsPlaced items w
          × ((id : String)
              → (contains id v.permanent ≡ true) ⊎ (id ∈ ids [])
              → contains id w.permanent ≡ true))
        same (h, λ id. elim [ inl c ↦ c | inr nowhere ↦ absurd nowhere ])
  visit_all-IsPlaced fuel (x ∷ xs) v v' sub h = elim (outcome_cases (visit fuel index x v)) [
    | inl out ↦ rw (out, visit_all) (λ t. absurd (cc))
    | inr (inl (y, e)) ↦ rw (e, visit_all) (λ t. absurd (cc))
    | inr (inr (w, e)) ↦
        rw (e, visit_all)
          (λ t.
            let up = visit-Visited fuel x v w (sub x (inl refl)) h e in
            let (valid, all) = visit_all-IsPlaced fuel xs w v' (λ a k. sub a (inr k)) up.valid t in
            (
              valid,
              λ id. elim [
                | inl c ↦ all id (inl (up.grows id c))
                | inr (inl same) ↦
                    all id (inl (subst (λ j. contains j w.permanent ≡ true) same up.here))
                | inr (inr later) ↦ all id (inr later)
              ],
            ))
  ]

unvisited-IsPlaced : (items : List MemoryItem) → IsPlaced items unvisited
unfolding contains
unvisited-IsPlaced items = record {
  placed = λ id c. absurd (cc);
  rooted = tt;
  known = λ a m. absurd m;
  listed = λ id m. absurd m;
  distinct = tt;
}

-- Where the order is found, it holds only items of the archive, exactly one for each identifier
-- there, and each of them after the item that it corrects if the archive holds that one.
pub order_correction_history-IsRooted :
    (items ordered : List MemoryItem)
    → order_correction_history items ≡ some (ok ordered)
    → IsRooted items [] ordered
      × ((a : MemoryItem) → a ∈ ordered → a ∈ items)
      × ((a : MemoryItem) → a ∈ items → a.id ∈ ids ordered)
      × IsDistinct (ids ordered)
unfolding order_correction_history
order_correction_history-IsRooted items ordered =
    elim (outcome_cases (visit_all (suc (length items)) (by_id items) items unvisited)) [
      | inl out ↦ rw out (λ t. absurd (cc))
      | inr (inl (y, e)) ↦ rw e (λ t. absurd (cc))
      | inr (inr (w, e)) ↦ rw e (λ t.
          let same : w.ordered ≡ ordered = cc in
          let (valid, all) =
            visit_all-IsPlaced (by_id-IsIndex items) (suc (length items)) items unvisited w
              (λ a m. m) (unvisited-IsPlaced items) e in
          subst
            (λ o.
              IsRooted items [] o
              × ((a : MemoryItem) → a ∈ o → a ∈ items)
              × ((a : MemoryItem) → a ∈ items → a.id ∈ ids o)
              × IsDistinct (ids o))
            same
            (
              valid.rooted,
              valid.known,
              λ a m. valid.placed a.id (all a.id (inr (mem-ids a items m))),
              valid.distinct,
            ))
    ]
