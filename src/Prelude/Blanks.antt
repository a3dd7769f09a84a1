-- ===== src/Prelude/Blanks.antt =====
-- White space as JavaScript counts it, in `\s` and in `trim`, and pieces of a text in UTF-16 units.
use Prim.Native.Char.{Char, code}
use Prim.Native.Nat.{ℕ, ◌-◌}
use Prim.Native.String.{String}
use mathlib.Core.Bool.{Bool, ◌&&◌, ◌||◌}
use cloud_code_execution_eng.Prelude.Tests.{leb, ltb, ◌==◌, ◌===◌, if◌then◌else◌}

-- `\s`.
unfoldable pub is_blank : ℕ → Bool
is_blank c =
    (leb 9 c && leb c 13)
    || c == 32
    || c == 160
    || c == 5760
    || (leb 8192 c && leb c 8202)
    || c == 8232
    || c == 8233
    || c == 8239
    || c == 8287
    || c == 12288
    || c == 65279

-- `text.trimStart()`, and what is behind a `\s*`.
unfoldable pub skip_blanks : String → String
unfolding is_blank
skip_blanks String.[] = ""
skip_blanks (String.◌∷◌ c s) =
    let rest = skip_blanks s in if is_blank (code c) then rest else String.◌∷◌ c s

unfoldable pub trim_end : String → String
unfolding is_blank
trim_end String.[] = ""
trim_end (String.◌∷◌ c s) =
    let rest = trim_end s in if is_blank (code c) && rest === "" then "" else String.◌∷◌ c rest

-- `text.trim()`.
unfoldable pub trim : String → String
unfolding skip_blanks trim_end
trim s = trim_end (skip_blanks s)

-- `c.length`.
abbrev pub width : Char → ℕ
width c = if ltb (code c) 65536 then 1 else 2

-- `text.slice(0, n)`. Half of a pair at the end is stored as U+FFFD.
unfoldable pub first_units : ℕ → String → String
first_units n String.[] = ""
first_units n (String.◌∷◌ c s) =
    let rest = first_units (n - width c) s in
    if leb (width c) n then String.◌∷◌ c rest else if n == 0 then "" else "�"
