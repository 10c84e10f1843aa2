-- ===== src/Prelude/Text.antt =====
-- Python's `str.strip` and the order of texts.
use Prim.Native.Char.{Char, code}
use Prim.Native.Nat.{Ordering}
use Prim.Native.String.{String, compare, ◌++◌ as str_append}
use mathlib.Core.Bool.{Bool, true, false, ◌&&◌, ◌||◌}
use mathlib.Core.Option.{Option, none, some}
use coengram.Prelude.Tests.{leb, nat_beq, if◌then◌else◌}
use coengram.Prelude.Equality.{◌==◌, string_eq}

-- the characters that `str.isspace` accepts
abbrev pub is_space : Char → Bool
is_space c =
    leb 9 (code c) && leb (code c) 13
    || leb 28 (code c) && leb (code c) 32
    || nat_beq (code c) 133
    || nat_beq (code c) 160
    || nat_beq (code c) 5760
    || leb 8192 (code c) && leb (code c) 8202
    || nat_beq (code c) 8232
    || nat_beq (code c) 8233
    || nat_beq (code c) 8239
    || nat_beq (code c) 8287
    || nat_beq (code c) 12288

module _ (p : Char → Bool) where
  unfoldable pub lstrip : String → String
  lstrip String.[] = ""
  lstrip (String.◌∷◌ c s) = let rest = lstrip s in if p c then rest else String.◌∷◌ c s

  unfoldable pub rstrip : String → String
  rstrip String.[] = ""
  rstrip (String.◌∷◌ c s) =
      let rest = rstrip s in if p c && rest == "" then "" else String.◌∷◌ c rest

  -- `s.strip(cs)`, where `p` tells the characters of `cs`
  unfoldable pub strip_chars : String → String
  unfolding lstrip rstrip
  strip_chars s = rstrip (lstrip s)

-- `s.strip()`
unfoldable pub strip : String → String
unfolding strip_chars
strip = strip_chars is_space

-- the identifier that a mapping holds, unless it is empty: `if id := keys.get(key)`
abbrev pub found_id : Option String → Option String
found_id none = none
found_id (some id) = if id == "" then none else some id

-- `a or b`, where `a` may be `None`
abbrev pub or_else : Option String → String → String
or_else none b = b
or_else (some a) b = if a == "" then b else a

-- `a <= b`
abbrev pub str_leb : String → String → Bool
str_leb a b = elim (compare a b) [ Ordering.gt ↦ false | _ ↦ true ]

-- `s.replace(a, b)` where `a` is one character
unfoldable pub replace_char : Char → String → String → String
replace_char a b String.[] = ""
replace_char a b (String.◌∷◌ c s) =
    let rest = replace_char a b s in
    if nat_beq (code a) (code c) then str_append b rest else String.◌∷◌ c rest
