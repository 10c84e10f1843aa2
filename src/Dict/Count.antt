-- ===== src/Dict/Count.antt =====
-- How many values of a `dict` pass a test, before and after a write.
use coengram.Prelude.{
  ℕ, ◌+◌, Eq, ◌==◌, ◌≡◌, Bool, false, List, [], ◌∷◌, map, arith, keep, length, if◌then◌else◌, holds,
  Bool-cases, inl, inr,
}
use coengram.Dict.{Dict, lookup, assign, erase, distinct, get, put, items, values}
use coengram.Dict.Laws.{lookup-distinct}

abbrev pub one_if : Bool → ℕ
one_if b = if b then 1 else 0

module _ {ℓ} {K V : Type ℓ} ⦃e : Eq K⦄ where
  erase-assign :
      (k j : K) (v : V) (r : List (K × V))
      → (k == j) ≡ false
      → erase j (assign k v r) ≡ assign k v (erase j r)
  unfolding erase assign
  erase-assign k j v [] h = ground arith
  erase-assign k j v ((i, w) ∷ r) h =
      ground (arith, erase-assign k j v r, e.beq_iff i j, e.beq_iff i k, e.beq_iff k j)

  -- A write to the entries that are seen is the write to all of them.
  distinct-assign :
      (k : K) (v : V) (r : List (K × V)) → distinct (assign k v r) ≡ assign k v (distinct r)
  unfolding distinct assign
  distinct-assign k v [] = ground arith
  distinct-assign k v ((j, w) ∷ r) = elim (Bool-cases (j == k)) [
    | inl same ↦ ground (arith, same)
    | inr other ↦ ground (
      arith,
      other,
      distinct-assign k v r,
      erase-assign k j v (distinct r),
      e.beq_iff j k,
      e.beq_iff k j,
    )
  ]

module _ {ℓ} {K V : Type ℓ} ⦃e : Eq K⦄ (p : V → Bool) where
  abbrev tally : List (K × V) → ℕ
  tally xs = length (keep p (map (λ x. x.1) xs))

  tally-assign :
      (k : K) (v : V) (r : List (K × V))
      → tally (assign k v r) + one_if (holds p (lookup k r)) ≡ tally r + one_if (p v)
  unfolding assign lookup keep
  tally-assign k v [] = ground arith
  tally-assign k v ((j, w) ∷ r) = ground (arith, tally-assign k v r)

  -- how many values pass
  abbrev pub count : Dict K V → ℕ
  count d = length (keep p (values d))

module _ {ℓ} {K V : Type ℓ} ⦃e : Eq K⦄ where
  -- A write takes away the old value under the key, and adds the new one.
  pub count-put :
      (p : V → Bool) (d : Dict K V) (k : K) (v : V)
      → count p (put d k v) + one_if (holds p (get d k)) ≡ count p d + one_if (p v)
  unfolding values items get put
  count-put p d k v =
      rw (distinct-assign, ← lookup-distinct k d.entries) (tally-assign p k v (distinct d.entries))
