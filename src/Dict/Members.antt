-- ===== src/Dict/Members.antt =====
-- The values that a `dict` iterates over, as members of a list.
use coengram.Prelude.{
  Eq, ◌==◌, ◌≡◌, ap, false, inl, inr, some, List, [], ◌∷◌, map, arith, Bool-cases,
}
use coengram.Prelude.Members.{◌∈◌}
use coengram.Dict.{Dict, lookup, erase, distinct, get, items, values}

module _ {K V : Type 0} ⦃e : Eq K⦄ where
  mem_of_erase :
      (k j : K) (v : V) (r : List (K × V)) → (k, v) ∈ erase j r → ((k, v) ∈ r) × ((j == k) ≡ false)
  unfolding erase
  mem_of_erase k j v [] = λ m. absurd m
  mem_of_erase k j v ((i, w) ∷ r) = elim (Bool-cases (i == j)) [
    | inl same ↦ rw same (λ m. let (l, ne) = mem_of_erase k j v r m in (inr l, ne))
    | inr other ↦ rw other (λ m. elim m [
      | inl here ↦ (inl here, ground (arith, e.beq_iff i j, e.beq_iff j k, ap (λ x. x.0) here))
      | inr later ↦ (let (l, ne) = mem_of_erase k j v r later in (inr l, ne))
    ])
  ]

  lookup_of_mem : (k : K) (v : V) (r : List (K × V)) → (k, v) ∈ distinct r → lookup k r ≡ some v
  unfolding lookup distinct
  lookup_of_mem k v [] m = absurd m
  lookup_of_mem k v ((i, w) ∷ r) (inl here) =
      ground (arith, e.beq_iff i k, ap (λ x. x.0) here, ap (λ x. x.1) here)
  lookup_of_mem k v ((i, w) ∷ r) (inr later) =
      let (l, ne) = mem_of_erase k i v (distinct r) later in ground (arith, lookup_of_mem k v r l)

  mem_of_map : (v : V) (r : List (K × V)) → v ∈ map (λ x. x.1) r → (k : K) × ((k, v) ∈ r)
  mem_of_map v [] m = absurd m
  mem_of_map v ((i, w) ∷ r) (inl here) = (i, inl (ap (λ x. (i, x)) here))
  mem_of_map v ((i, w) ∷ r) (inr later) = let (k, m) = mem_of_map v r later in (k, inr m)

  -- A value that iteration visits is one that `get` returns.
  pub get_of_mem-values : (d : Dict K V) (v : V) → v ∈ values d → (k : K) × (get d k ≡ some v)
  unfolding get values items
  get_of_mem-values d v m =
      let (k, found) = mem_of_map v (distinct d.entries) m in (k, lookup_of_mem k v d.entries found)
