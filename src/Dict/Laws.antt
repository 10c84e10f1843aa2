-- ===== src/Dict/Laws.antt =====
-- What `get` returns after each operation of a `dict`, and what its iteration visits.
use coengram.Prelude.{
  Eq, ◌==◌, ==_refl, ◌≡◌, refl, Bool, true, false, not, ◌&&◌, Option, none, some, List, [], ◌∷◌,
  arith, any, contains, holds, if◌then◌else◌, ◌⊎◌, inl, inr, Bool-cases,
}
use coengram.Dict.{
  Dict, empty, lookup, assign, erase, update, distinct, get, put, pop, map_items, items, keys_of,
  keys_where,
}

abbrev pub map_some {ℓ} : {A B : Type ℓ} → (A → B) → Option A → Option B
map_some f none = none
map_some f (some a) = some (f a)

pub get-empty {ℓ} : {K V : Type ℓ} ⦃e : Eq K⦄ (k : K) → get (empty {K = K} {V = V}) k ≡ none
unfolding get
get-empty k = refl

module _ {ℓ} {K V : Type ℓ} ⦃e : Eq K⦄ where
  lookup-assign :
      (k j : K) (v : V) (r : List (K × V))
      → lookup j (assign k v r) ≡ (if k == j then some v else lookup j r)
  unfolding lookup assign
  lookup-assign k j v [] = refl
  lookup-assign k j v ((i, w) ∷ r) =
      ground (arith, e.beq_iff i k, e.beq_iff i j, e.beq_iff k j, lookup-assign k j v r)

  lookup-erase :
      (k j : K) (r : List (K × V)) → lookup j (erase k r) ≡ (if k == j then none else lookup j r)
  unfolding lookup erase
  lookup-erase k j [] = ground arith
  lookup-erase k j ((i, w) ∷ r) =
      ground (arith, e.beq_iff i k, e.beq_iff i j, e.beq_iff k j, lookup-erase k j r)

  lookup-update :
      (f : K → V → V) (j : K) (r : List (K × V))
      → lookup j (update f r) ≡ map_some (f j) (lookup j r)
  unfolding lookup update
  lookup-update f j [] = refl
  lookup-update f j ((i, w) ∷ r) = ground (arith, e.beq_iff i j, lookup-update f j r)

  pub get-put :
      (d : Dict K V) (k j : K) (v : V) → get (put d k v) j ≡ (if k == j then some v else get d j)
  unfolding get put
  get-put d k j v = lookup-assign k j v d.entries

  pub get-pop : (d : Dict K V) (k j : K) → get (pop d k) j ≡ (if k == j then none else get d j)
  unfolding get pop
  get-pop d k j = lookup-erase k j d.entries

  pub get-map_items :
      (f : K → V → V) (d : Dict K V) (j : K) → get (map_items f d) j ≡ map_some (f j) (get d j)
  unfolding get map_items
  get-map_items f d j = lookup-update f j d.entries

  pub get-put_self : (d : Dict K V) (k : K) (v : V) → get (put d k v) k ≡ some v
  get-put_self d k v = simp (get-put, ==_refl)

module _ {ℓ} {K V : Type ℓ} ⦃e : Eq K⦄ where
  lookup-erase-some :
      (k j : K) (r : List (K × V)) {v : V}
      → lookup j (erase k r) ≡ some v
      → (lookup j r ≡ some v) × ((k == j) ≡ false)
  lookup-erase-some k j r h = ground (arith, lookup-erase k j r)

  -- What iteration finds is what `get` returns.
  pub lookup-distinct : (k : K) (r : List (K × V)) → lookup k (distinct r) ≡ lookup k r
  unfolding lookup distinct
  lookup-distinct k [] = refl
  lookup-distinct k ((j, w) ∷ r) =
      ground (arith, lookup-erase j k (distinct r), lookup-distinct k r)

  any_of_lookup :
      (p : K × V → Bool) (k : K) (v : V) (r : List (K × V))
      → lookup k r ≡ some v
      → p (k, v) ≡ true
      → any p r ≡ true
  unfolding lookup any
  any_of_lookup p k v [] h t = ground arith
  any_of_lookup p k v ((j, w) ∷ r) h t = ground (arith, e.beq_iff j k, any_of_lookup p k v r)

  any-erase :
      (p : K × V → Bool) (j : K) (r : List (K × V))
      → any p (erase j r) ≡ any (λ x. p x && not (x.0 == j)) r
  unfolding any erase
  any-erase p j [] = refl
  any-erase p j ((i, w) ∷ r) = ground (arith, any-erase p j r)

  lookup_of_any :
      (p : K × V → Bool) (r : List (K × V))
      → any p (distinct r) ≡ true
      → (k : K) × (v : V) × (lookup k r ≡ some v) × (p (k, v) ≡ true)
  unfolding lookup any distinct
  lookup_of_any p [] h = absurd (ground arith)
  lookup_of_any p ((j, w) ∷ r) h = elim (Bool-cases (p (j, w))) [
    | inl hit ↦ (j, w, rw ==_refl, hit)
    | inr miss ↦
        let (k, v, found, passed) =
          lookup_of_any (λ x. p x && not (x.0 == j)) r
            (ground (arith, any-erase p j (distinct r))) in
        (k, v, ground (arith, e.beq_iff j k, e.beq_iff k j), ground arith)
  ]

  -- An entry that `get` returns is visited.
  pub any-items_of_get :
      (p : K × V → Bool) (d : Dict K V) (k : K) (v : V)
      → get d k ≡ some v
      → p (k, v) ≡ true
      → any p (items d) ≡ true
  unfolding get items
  any-items_of_get p d k v h t = any_of_lookup p k v (distinct d.entries) (rw lookup-distinct h) t

  -- What is visited is an entry that `get` returns.
  pub get_of_any-items :
      (p : K × V → Bool) (d : Dict K V)
      → any p (items d) ≡ true
      → (k : K) × (v : V) × (get d k ≡ some v) × (p (k, v) ≡ true)
  unfolding get items
  get_of_any-items p d h = lookup_of_any p d.entries h

  contains-keys_of-erase :
      (p : V → Bool) (k j : K) (r : List (K × V))
      → contains k (keys_of p (erase j r)) ≡ (not (j == k) && contains k (keys_of p r))
  unfolding keys_of contains erase
  contains-keys_of-erase p k j [] = ground arith
  contains-keys_of-erase p k j ((i, w) ∷ r) =
      ground (arith, contains-keys_of-erase p k j r, e.beq_iff i k, e.beq_iff i j, e.beq_iff j k)

  contains-keys_of-distinct :
      (p : V → Bool) (k : K) (r : List (K × V))
      → contains k (keys_of p (distinct r)) ≡ holds p (lookup k r)
  unfolding keys_of contains distinct lookup
  contains-keys_of-distinct p k [] = refl
  contains-keys_of-distinct p k ((j, w) ∷ r) = ground (
    arith,
    contains-keys_of-distinct p k r,
    contains-keys_of-erase p k j (distinct r),
    e.beq_iff j k,
  )

  -- A key is collected exactly when its value passes the test.
  pub contains-keys_where :
      (p : V → Bool) (d : Dict K V) (k : K) → contains k (keys_where p d) ≡ holds p (get d k)
  unfolding keys_where get
  contains-keys_where p d k = contains-keys_of-distinct p k d.entries

module _ {ℓ} {K V : Type ℓ} ⦃e : Eq K⦄ where
  -- After a write, what `get` returns is the value written or an old one.
  pub get-put_cases :
      (d : Dict K V) (k j : K) (v w : V)
      → get (put d k v) j ≡ some w
      → ((k ≡ j) × (v ≡ w)) ⊎ (get d j ≡ some w)
  get-put_cases d k j v w h = elim (Bool-cases (k == j)) [
    | inl same ↦ inl ((e.beq_iff k j).0 same, ground (arith, get-put d k j v))
    | inr other ↦ inr (ground (arith, get-put d k j v))
  ]

pub ruleset dict_laws = (get-empty, get-put, get-pop, get-map_items, contains-keys_where)
