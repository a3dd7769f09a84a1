-- ===== src/Prelude/Search.antt =====
-- Searching a text for pieces: a regular expression that is an alternation of literals.
use Prim.Native.String.{String}
use mathlib.Core.Bool.{Bool, true, false, ◌||◌}
use mathlib.Core.Option.{Option, none, some}
use mathlib.Core.List.{List, [], ◌∷◌}
use text.Mathlib.Text.{find?}

abbrev is_found {ℓ} : {A : Type ℓ} → Option A → Bool
is_found none = false
is_found (some a) = true

-- `text.includes(piece)`.
unfoldable pub includes : String → String → Bool
includes text piece = is_found (find? text piece)

-- `/piece1|piece2|…/.test(text)`.
unfoldable pub matches_any : String → List String → Bool
unfolding includes
matches_any text [] = false
matches_any text (piece ∷ pieces) = includes text piece || matches_any text pieces
