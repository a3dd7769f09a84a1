-- ===== src/Runner/Scan.antt =====
-- The two regular expressions of services/runner/src/language-profiles.ts, as the matcher runs them.
-- What follows a `\s*` or a `\s+` in them begins with no blank, so no match is lost by taking all.
pub mod Laws
use Prim.Native.Char.{Char, code}
use Prim.Native.String
use cloud_code_execution_eng.Prelude.{
  ℕ, String, Bool, true, false, ◌&&◌, ◌||◌, not, Option, none, some, leb, ◌==◌, if◌then◌else◌,
  is_blank, skip_blanks,
}

is_letter : ℕ → Bool
is_letter c = (leb b'A' c && leb c b'Z') || (leb b'a' c && leb c b'z') || c == b'_'

-- `\w`.
unfoldable pub is_word : ℕ → Bool
unfolding is_letter
is_word c = is_letter c || (leb b'0' c && leb c b'9')

-- A line begins behind one of these.
ends_line : ℕ → Bool
ends_line c = c == 10 || c == 13 || c == 8232 || c == 8233

drop_prefix : String → String → Option String
drop_prefix String.[] s = some s
drop_prefix (String.◌∷◌ p ps) String.[] = none
drop_prefix (String.◌∷◌ p ps) (String.◌∷◌ c s) = if code p == code c then drop_prefix ps s else none

-- `\s+`.
skip_some_blanks : String → Option String
unfolding skip_blanks
skip_some_blanks String.[] = none
skip_some_blanks (String.◌∷◌ c s) = if is_blank (code c) then some (skip_blanks s) else none

take_word : String → String
unfolding is_word
take_word String.[] = ""
take_word (String.◌∷◌ c s) =
    let rest = take_word s in if is_word (code c) then String.◌∷◌ c rest else ""

-- `[A-Za-z_][A-Za-z0-9_]*`.
identifier : String → Option String
unfolding take_word
identifier String.[] = none
identifier (String.◌∷◌ c s) = if is_letter (code c) then some (String.◌∷◌ c (take_word s)) else none

infixl 5 ◌>>=◌
abbrev ◌>>=◌ : {A B : Type 0} → Option A → (A → Option B) → Option B
none >>= f = none
some a >>= f = f a

class_here : String → Option String
unfolding drop_prefix skip_some_blanks identifier
class_here s = do
  behind_public ← drop_prefix "public" s
  at_class ← skip_some_blanks behind_public
  behind_class ← drop_prefix "class" at_class
  at_name ← skip_some_blanks behind_class
  identifier at_name

abbrev or_try : Option String → Option String → Option String
or_try (some name) later = some name
or_try none later = later

-- `sourceCode.match(/public\s+class\s+([A-Za-z_][A-Za-z0-9_]*)/)?.[1]`: the leftmost match.
unfoldable pub class_match : String → Option String
unfolding class_here
class_match String.[] = class_here ""
class_match (String.◌∷◌ c s) = or_try (class_here (String.◌∷◌ c s)) (class_match s)

-- `\b` behind a word character.
abbrev at_boundary : String → Bool
at_boundary String.[] = true
at_boundary (String.◌∷◌ c s) = not (is_word (code c))

abbrev found : Option String → Bool
found none = false
found (some rest) = at_boundary rest

package_here : String → Bool
package_here s = found (do
  behind_package ← drop_prefix "package" (skip_blanks s)
  at_main ← skip_some_blanks behind_package
  drop_prefix "main" at_main)

-- The starts of the lines behind the first.
package_later : String → Bool
unfolding ends_line
package_later String.[] = false
package_later (String.◌∷◌ c s) = (ends_line (code c) && package_here s) || package_later s

-- `/^\s*package\s+main\b/m.test(sourceCode)`.
unfoldable pub has_package_main : String → Bool
unfolding package_later package_here drop_prefix skip_blanks skip_some_blanks is_word
has_package_main s = package_here s || package_later s
