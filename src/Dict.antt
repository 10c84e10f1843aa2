-- ===== src/Dict.antt =====
-- Python's `dict` over a key type with `==`, in insertion order. The keys of a `dict` are distinct,
-- so of two entries for one key only the first is ever seen, by `get` and by `items` alike.
pub mod Laws
pub mod Count
pub mod Members
use coengram.Prelude.{
  Eq, ◌==◌, Bool, not, ◌&&◌, Option, none, some, List, [], ◌∷◌, map, if◌then◌else◌,
}
use coengram.Prelude.Sort.{sort}

pub record Dict {ℓ} (K V : Type ℓ) : Type ℓ where
  pub entries : List (K × V)

module _ {ℓ} {K V : Type ℓ} where
  abbrev pub empty : Dict K V
  empty = record { entries = [] }

module _ {ℓ} {K V : Type ℓ} ⦃e : Eq K⦄ where
  unfoldable pub lookup : K → List (K × V) → Option V
  lookup k [] = none
  lookup k ((j, v) ∷ r) = if j == k then some v else lookup k r

  -- `d[k] = v`: a key that is there keeps its place
  unfoldable pub assign : K → V → List (K × V) → List (K × V)
  assign k v [] = (k, v) ∷ []
  assign k v ((j, w) ∷ r) = let rest = assign k v r in if j == k then (j, v) ∷ r else (j, w) ∷ rest

  unfoldable pub erase : K → List (K × V) → List (K × V)
  erase k [] = []
  erase k ((j, w) ∷ r) = let rest = erase k r in if j == k then rest else (j, w) ∷ rest

  unfoldable pub update : (K → V → V) → List (K × V) → List (K × V)
  update f [] = []
  update f ((j, w) ∷ r) = (j, f j w) ∷ update f r

  -- the entries that are seen
  unfoldable pub distinct : List (K × V) → List (K × V)
  unfolding erase
  distinct [] = []
  distinct ((j, w) ∷ r) = (j, w) ∷ erase j (distinct r)

  -- `d.get(k)`
  unfoldable pub get : Dict K V → K → Option V
  unfolding lookup
  get d k = lookup k d.entries

  -- `d[k] = v`
  unfoldable pub put : Dict K V → K → V → Dict K V
  unfolding assign
  put d k v = record { entries = assign k v d.entries }

  -- `d.pop(k, None)`
  unfoldable pub pop : Dict K V → K → Dict K V
  unfolding erase
  pop d k = record { entries = erase k d.entries }

  -- `for k, v in tuple(d.items()): d[k] = f(k, v)`
  unfoldable pub map_items : (K → V → V) → Dict K V → Dict K V
  unfolding update
  map_items f d = record { entries = update f d.entries }

  -- `d.items()`
  unfoldable pub items : Dict K V → List (K × V)
  unfolding distinct
  items d = distinct d.entries

  -- `d.values()`
  unfoldable pub values : Dict K V → List V
  unfolding items
  values d = map (λ x. x.1) (items d)

  unfoldable pub keys_of : (V → Bool) → List (K × V) → List K
  keys_of p [] = []
  keys_of p ((j, w) ∷ r) = let rest = keys_of p r in if p w then j ∷ rest else rest

  -- `{k for k, v in d.items() if p(v)}`
  unfoldable pub keys_where : (V → Bool) → Dict K V → List K
  unfolding items keys_of
  keys_where p d = keys_of p (items d)

  -- `d[k] for k in sorted(d)`
  unfoldable pub sorted_values : (K → K → Bool) → Dict K V → List V
  unfolding items
  sorted_values le d = map (λ x. x.1) (sort (λ x y. le x.0 y.0) (items d))
