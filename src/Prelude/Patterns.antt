-- ===== src/Prelude/Patterns.antt =====
-- Regular expressions with the flag `i` whose letters are ASCII, over the code points of a text.
-- JavaScript without the flag `u` folds no other character to an ASCII letter.
use Prim.Native.Char.{code}
use Prim.Native.Nat.{ℕ, ◌+◌}
use Prim.Native.String.{String}
use mathlib.Core.Bool.{Bool, true, false, ◌&&◌, ◌||◌}
use mathlib.Core.Option.{Option, none, some}
use mathlib.Core.List.{List, [], ◌∷◌}
use cloud_code_execution_eng.Prelude.Tests.{leb, ◌==◌, if◌then◌else◌}

abbrev pub codes : String → List ℕ
codes String.[] = []
codes (String.◌∷◌ c s) = code c ∷ codes s

fold_case : ℕ → ℕ
fold_case c = if leb b'A' c && leb c b'Z' then c + 32 else c

has_prefix : List ℕ → List ℕ → Bool
unfolding fold_case
has_prefix [] text = true
has_prefix (p ∷ ps) [] = false
has_prefix (p ∷ ps) (c ∷ text) = fold_case p == fold_case c && has_prefix ps text

-- `/piece/i.test(text)`.
finds : List ℕ → List ℕ → Bool
unfolding has_prefix
finds piece [] = has_prefix piece []
finds piece (c ∷ text) = has_prefix piece (c ∷ text) || finds piece text

-- What `.` does not match.
ends_line : ℕ → Bool
ends_line c = c == 10 || c == 13 || c == 8232 || c == 8233

first_line : List ℕ → List ℕ
unfolding ends_line
first_line [] = []
first_line (c ∷ text) = let rest = first_line text in if ends_line c then [] else c ∷ rest

without : List ℕ → List ℕ → Option (List ℕ)
unfolding fold_case
without [] text = some text
without (p ∷ ps) [] = none
without (p ∷ ps) (c ∷ text) = if fold_case p == fold_case c then without ps text else none

ends_with_gap : List ℕ → Option (List ℕ) → Bool
unfolding finds first_line
ends_with_gap piece none = false
ends_with_gap piece (some rest) = finds piece (first_line rest)

-- `/first.*second/i.test(text)`.
finds_gap : List ℕ → List ℕ → List ℕ → Bool
unfolding without ends_with_gap
finds_gap first second [] = false
finds_gap first second (c ∷ text) =
    ends_with_gap second (without first (c ∷ text)) || finds_gap first second text

unfoldable pub finds_text : String → String → Bool
unfolding finds
finds_text piece text = finds (codes piece) (codes text)

unfoldable pub finds_texts : String → String → String → Bool
unfolding finds_gap
finds_texts first second text = finds_gap (codes first) (codes second) (codes text)
