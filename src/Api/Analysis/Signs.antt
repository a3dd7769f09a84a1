-- ===== src/Api/Analysis/Signs.antt =====
-- services/api/src/analysis.ts: the regular expressions that look for endless loops and for errors
-- of the code, over code points, and the count of the lines that are not blank.
use cloud_code_execution_eng.Prelude.{
  ℕ, ◌+◌, String, Bool, true, false, ◌&&◌, ◌||◌, not, List, [], ◌∷◌, any, keep, length, ◌≡◌, refl,
  leb, ◌==◌, if◌then◌else◌, is_blank, codes, finds_text,
}

-- What a regular expression here is made of: a character, with `i` given in either case, `\s*`, and
-- `\s+`.
pub data Piece : Type 0 where
  char any_case : ℕ → Piece
  blanks some_blanks : Piece

lower : ℕ → ℕ
lower c = if leb b'A' c && leb c b'Z' then c + 32 else c

-- The match begins at the start of the text.
matches_here : List Piece → List ℕ → Bool
unfolding lower is_blank
matches_here [] text = true
matches_here (char p ∷ ps) [] = false
matches_here (char p ∷ ps) (c ∷ text) = p == c && matches_here ps text
matches_here (any_case p ∷ ps) [] = false
matches_here (any_case p ∷ ps) (c ∷ text) = lower p == lower c && matches_here ps text
matches_here (blanks ∷ ps) [] = matches_here ps []
matches_here (blanks ∷ ps) (c ∷ text) =
    matches_here ps (c ∷ text) || (is_blank c && matches_here (blanks ∷ ps) text)
matches_here (some_blanks ∷ ps) [] = false
matches_here (some_blanks ∷ ps) (c ∷ text) = is_blank c && matches_here (blanks ∷ ps) text

matches : List Piece → List ℕ → Bool
unfolding matches_here
matches ps [] = matches_here ps []
matches ps (c ∷ text) = matches_here ps (c ∷ text) || matches ps text

-- `/while\s*\(\s*true\s*\)/i`, `/for\s*\(\s*;\s*;\s*\)/` and `/while\s+True\s*:/`.
abbrev loop_patterns : List (List Piece)
loop_patterns =
    (any_case b'w'
      ∷ any_case b'h'
      ∷ any_case b'i'
      ∷ any_case b'l'
      ∷ any_case b'e'
      ∷ blanks
      ∷ any_case b'('
      ∷ blanks
      ∷ any_case b't'
      ∷ any_case b'r'
      ∷ any_case b'u'
      ∷ any_case b'e'
      ∷ blanks
      ∷ any_case b')'
      ∷ [])
    ∷ (char b'f'
        ∷ char b'o'
        ∷ char b'r'
        ∷ blanks
        ∷ char b'('
        ∷ blanks
        ∷ char b';'
        ∷ blanks
        ∷ char b';'
        ∷ blanks
        ∷ char b')'
        ∷ [])
    ∷ (char b'w'
        ∷ char b'h'
        ∷ char b'i'
        ∷ char b'l'
        ∷ char b'e'
        ∷ some_blanks
        ∷ char b'T'
        ∷ char b'r'
        ∷ char b'u'
        ∷ char b'e'
        ∷ blanks
        ∷ char b':'
        ∷ [])
    ∷ []

unfoldable pub has_endless_loop : String → Bool
unfolding matches
has_endless_loop source = any (λ ps. matches ps (codes source)) loop_patterns

abbrev error_names : List String
error_names =
    "syntaxerror" ∷ "traceback" ∷ "nameerror" ∷ "referenceerror" ∷ "exception in thread" ∷ "javac"
    ∷ []

-- The six regular expressions with the flag `i`.
unfoldable pub has_code_error : String → Bool
unfolding finds_text
has_code_error stderr = any (λ name. finds_text name stderr) error_names

split_lines : List ℕ → List (List ℕ)
split_lines [] = [] ∷ []
split_lines (c ∷ text) = if c == 10 then [] ∷ split_lines text else onto c (split_lines text)
  where
    onto : ℕ → List (List ℕ) → List (List ℕ)
    onto c [] = (c ∷ []) ∷ []
    onto c (line ∷ lines) = (c ∷ line) ∷ lines

-- `!line.trim()`.
all_blank : List ℕ → Bool
unfolding is_blank
all_blank [] = true
all_blank (c ∷ text) = is_blank c && all_blank text

unfoldable pub non_empty_lines : String → ℕ
unfolding split_lines all_blank
non_empty_lines source = length (keep (λ line. not (all_blank line)) (split_lines (codes source)))

loops_found :
    has_endless_loop "while (TRUE )"
      && has_endless_loop "x; for( ; ;\t)"
      && has_endless_loop "while  True :"
      && not (has_endless_loop "while true: while True)")
    ≡ true
unfolding has_endless_loop
loops_found = refl

lines_counted : non_empty_lines "a\n \n\nb\n" ≡ 2
unfolding non_empty_lines
lines_counted = refl
