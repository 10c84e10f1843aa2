-- ===== src/Memory/Archive/Json.antt =====
-- The values that `json` reads and writes, as archive.py compares them, and the lines of a file.
use Prim.Native.Char.{Char, code}
use Prim.Native.String.{◌++◌ as append_text}
use coengram.Prelude.{
  ℕ, suc, String, ◌==◌, string_eq, nat_eq, bool_eq, Bool, true, false, ◌&&◌, Option, none, some,
  List, [], ◌∷◌, holds, nat_beq, if◌then◌else◌,
}

mutual
  pub data Json : Type 0 where
    null : Json
    boolean : Bool → Json
    number : ℕ → Json
    -- a number with a sign, a fraction or an exponent, by its text, and the natural number it equals
    real : String → Option ℕ → Json
    text : String → Json
    array : Items → Json
    object : Fields → Json

  pub data Items : Type 0 where
    nil : Items
    cons : Json → Items → Items

  -- a `dict` of texts, its keys distinct and in the order that `sort_keys` writes
  pub data Fields : Type 0 where
    done : Fields
    field : String → Json → Fields → Fields

-- `d.get(k)`
unfoldable pub lookup_field : String → Fields → Option Json
lookup_field k done = none
lookup_field k (field j v fs) = if j == k then some v else lookup_field k fs

unfoldable pub field_names : Fields → List String
field_names done = []
field_names (field k v fs) = k ∷ field_names fs

unfoldable pub size : Fields → ℕ
size done = 0
size (field k v fs) = suc (size fs)

-- the number that `True` and `False` are
abbrev number_of : Bool → ℕ
number_of false = 0
number_of true = 1

-- `a == b`; the order of a `dict` plays no part, and two numbers with fractions are never compared
unfoldable mutual
  unfolding lookup_field size

  pub json_beq : Json → Json → Bool
  json_beq null null = true
  json_beq (boolean a) (boolean b) = a == b
  json_beq (number a) (number b) = a == b
  json_beq (boolean a) (number n) = number_of a == n
  json_beq (number n) (boolean a) = n == number_of a
  json_beq (real s a) (number n) = holds (nat_beq n) a
  json_beq (number n) (real s a) = holds (nat_beq n) a
  json_beq (real s a) (real t b) = s == t
  json_beq (text a) (text b) = a == b
  json_beq (array a) (array b) = items_beq a b
  json_beq (object a) (object b) = size a == size b && fields_in a b
  json_beq _ _ = false

  pub items_beq : Items → Items → Bool
  items_beq nil nil = true
  items_beq (cons a as') (cons b bs) = json_beq a b && items_beq as' bs
  items_beq _ _ = false

  pub fields_in : Fields → Fields → Bool
  fields_in done gs = true
  fields_in (field k v fs) gs = holds (json_beq v) (lookup_field k gs) && fields_in fs gs

abbrev pub newline : String
newline = "\n"

-- a character in front of the first line
abbrev pub push : Char → List String → List String
push c [] = String.◌∷◌ c "" ∷ []
push c (l ∷ ls) = String.◌∷◌ c l ∷ ls

-- what follows a carriage return: a newline there belongs to it, and has made a line of its own
abbrev after_return : String → List String → List String
after_return String.[] rest = "" ∷ rest
after_return (String.◌∷◌ c s) rest = if nat_beq (code c) 10 then rest else "" ∷ rest

-- `data.splitlines()`; of a carriage return and the newline after it, the pair ends one line
unfoldable pub split_lines : String → List String
split_lines String.[] = []
split_lines (String.◌∷◌ c s) =
    let rest = split_lines s in
    if nat_beq (code c) 10
    then "" ∷ rest
    else if nat_beq (code c) 13
    then after_return s rest
    else push c rest

-- `"\n".join(lines) + "\n"`
unfoldable pub joined : List String → String
joined [] = newline
joined (l ∷ []) = append_text l newline
joined (l ∷ m ∷ ms) = append_text l (append_text newline (joined (m ∷ ms)))
