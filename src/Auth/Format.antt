-- ===== src/Auth/Format.antt =====
-- The text of a credential, `prefix.identifier.secret`, and `text.split(".", maxsplit=2)`.
use Prim.Native.Char.{Char, code}
use Prim.Native.String.{◌++◌ as str_append}
use Prim.Native.String.append
use coengram.Prelude.{
  String, ◌≡◌, ap, ◌∙◌, Bool, true, not, ◌&&◌, Option, none, some, arith, nat_beq, if◌then◌else◌,
}

abbrev pub is_dot : Char → Bool
is_dot c = nat_beq (code c) b'.'

abbrev dot : Char
dot = "."

-- the text up to the first dot and the text after it
unfoldable pub split_dot : String → Option (String × String)
split_dot String.[] = none
split_dot (String.◌∷◌ c s) =
    let rest = split_dot s in
    if is_dot c
    then some ("", s)
    else elim rest [ none ↦ none | some (a, b) ↦ some (String.◌∷◌ c a, b) ]

-- `prefix, identifier, secret = text.split(".", maxsplit=2)`, `none` where Python cannot unpack
unfoldable pub split_token : String → Option (String × String × String)
unfolding split_dot
split_token text = elim (split_dot text) [
  | none ↦ none
  | some (a, rest) ↦ elim (split_dot rest) [ none ↦ none | some (b, c) ↦ some (a, b, c) ]
]

-- `f"{prefix}.{identifier}.{secret}"`
unfoldable pub token_text : String → String → String → String
token_text a b c = str_append a (str_append "." (str_append b (str_append "." c)))

-- no dot in the text, as in a UUID
unfoldable pub dotless : String → Bool
dotless String.[] = true
dotless (String.◌∷◌ c s) = not (is_dot c) && dotless s

dot-append : (b : String) → str_append "." b ≡ String.◌∷◌ dot b
dot-append b = append.cons dot "" b ∙ ap (String.◌∷◌ dot) (append.nil b)

split_dot-append :
    (a b : String) → dotless a ≡ true → split_dot (str_append a (str_append "." b)) ≡ some (a, b)
unfolding split_dot dotless
split_dot-append String.[] b h = rw (append.nil, dot-append)
split_dot-append (String.◌∷◌ c a) b h = rw append.cons (ground (arith, split_dot-append a b))

-- A credential's text splits into the parts that it was made of, if the first two have no dot.
pub split_token-token_text :
    (a b c : String)
    → dotless a ≡ true
    → dotless b ≡ true
    → split_token (token_text a b c) ≡ some (a, b, c)
unfolding split_token token_text
split_token-token_text a b c ha hb =
    rw (split_dot-append a (str_append b (str_append "." c)) ha, split_token)
      (rw (split_dot-append b c hb))
