-- ===== src/Memory/Terms.antt =====
-- stores/memory.py, `_terms` and `_score`: how well a text answers a query.
use Prim.Native.Char.{Char, code}
use coengram.Prelude.{
  ℕ, String, ◌==◌, string_eq, nat_eq, Bool, true, false, List, [], ◌∷◌, map, contains, keep, length,
  if◌then◌else◌,
}
use coengram.Prelude.Text.{is_space, strip_chars}

-- the characters of `.,:;!?()[]{}"'`
abbrev pub is_punctuation : Char → Bool
is_punctuation c =
    contains (code c) (46 ∷ 44 ∷ 58 ∷ 59 ∷ 33 ∷ 63 ∷ 40 ∷ 41 ∷ 91 ∷ 93 ∷ 123 ∷ 125 ∷ 34 ∷ 39 ∷ [])

-- a word that begins, in front of the words of the rest
abbrev join : Char → List String → List String
join c [] = String.◌∷◌ c "" ∷ []
join c (w ∷ ws) = String.◌∷◌ c w ∷ ws

-- `s.split(sep)` for each character that `is_space` accepts, with the empty words
unfoldable pub pieces : String → List String
pieces String.[] = "" ∷ []
pieces (String.◌∷◌ c s) = let rest = pieces s in if is_space c then "" ∷ rest else join c rest

-- `s.split()`: the words between runs of spaces
unfoldable pub split : String → List String
unfolding pieces keep
split s = keep (λ w. if w == "" then false else true) (pieces s)

-- the elements of a set, each once
unfoldable pub elements : List String → List String
unfolding contains
elements [] = []
elements (x ∷ xs) = let rest = elements xs in if contains x rest then rest else x ∷ rest

module _ (casefold : String → String) where
  -- `_terms`
  unfoldable pub terms : String → List String
  unfolding split strip_chars elements
  terms value = elements (map (λ term. casefold (strip_chars is_punctuation term)) (split value))

  -- `_score`, of an item's content
  unfoldable pub score : String → String → ℕ
  unfolding terms contains keep
  score content query = length (keep (λ t. contains t (terms content)) (terms query))
