-- ===== src/Memory/Archive/Lines.antt =====
-- archive.py: lines that are joined are split again.
use Prim.Native.Char.{code}
use Prim.Native.String.{◌++◌ as append_text}
use Prim.Native.String.append
use text.Mathlib.TextLemmas.{append_assoc}
use coengram.Prelude.{
  String, Bool, true, not, ◌&&◌, List, [], ◌∷◌, ◌++◌, ◌≡◌, refl, sym, ap, ◌∙◌, arith, nat_beq,
}
use coengram.Prelude.Members.{All}
use coengram.Memory.Archive.Json.{split_lines, joined, newline}

-- no character of the text ends a line
unfoldable pub is_one_line : String → Bool
is_one_line String.[] = true
is_one_line (String.◌∷◌ c s) =
    not (nat_beq (code c) 10) && not (nat_beq (code c) 13) && is_one_line s

abbrev pub IsOneLine : String → Type 0
IsOneLine s = is_one_line s ≡ true

newline-append : (s : String) → append_text newline s ≡ String.◌∷◌ "\n" s
newline-append s = append.cons "\n" "" s ∙ ap (String.◌∷◌ "\n") (append.nil s)

pub split_lines-line :
    (l rest : String)
    → IsOneLine l
    → split_lines (append_text l (append_text newline rest)) ≡ l ∷ split_lines rest
unfolding split_lines is_one_line
split_lines-line String.[] rest h = rw (append.nil, newline-append) refl
split_lines-line (String.◌∷◌ c s) rest h = rw append.cons (ground (arith, split_lines-line s rest))

joined-append :
    (l m : String) (ms : List String) (rest : String)
    → append_text (joined (l ∷ m ∷ ms)) rest
      ≡ append_text l (append_text newline (append_text (joined (m ∷ ms)) rest))
unfolding joined
joined-append l m ms rest =
    append_assoc l (append_text newline (joined (m ∷ ms))) rest
    ∙ ap (append_text l) (append_assoc newline (joined (m ∷ ms)) rest)

pub split_lines-joined :
    (l : String) (ls : List String) (rest : String)
    → All IsOneLine (l ∷ ls)
    → split_lines (append_text (joined (l ∷ ls)) rest) ≡ (l ∷ ls) ++ split_lines rest
unfolding joined
split_lines-joined l [] rest h =
    ap split_lines (append_assoc l newline rest) ∙ split_lines-line l rest h.0
split_lines-joined l (m ∷ ms) rest h =
    ap split_lines (joined-append l m ms rest)
    ∙ split_lines-line l (append_text (joined (m ∷ ms)) rest) h.0
    ∙ ap (l ∷◌) (split_lines-joined m ms rest h.1)

pub split_lines-last : (l : String) → IsOneLine l → split_lines (append_text l newline) ≡ l ∷ []
unfolding split_lines
split_lines-last l h =
    ap (λ s. split_lines (append_text l s)) (sym (newline-append "")) ∙ split_lines-line l "" h
