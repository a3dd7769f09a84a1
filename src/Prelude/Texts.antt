-- ===== src/Prelude/Texts.antt =====
-- Texts without some character.
use Prim.Native.Char.{Char, code}
use Prim.Native.Nat.{ℕ}
use Prim.Native.String.{String, ◌++◌}
use Prim.Native.String.append
use mathlib.Core.Bool.{Bool, true, false, not, ◌&&◌}
use mathlib.Core.Path.{◌≡◌}
use native.Mathlib.Omega.{arith}
use cloud_code_execution_eng.Prelude.Tests.{◌==◌}

-- The text does not hold the character with this code.
abbrev pub lacks : ℕ → String → Bool
lacks x String.[] = true
lacks x (String.◌∷◌ c s) = not (code c == x) && lacks x s

pub lacks-append :
    (x : ℕ) (s t : String) → lacks x s ≡ true → lacks x t ≡ true → lacks x (s ++ t) ≡ true
lacks-append x String.[] t h k = rw (append.nil t) k
lacks-append x (String.◌∷◌ c s) t h k = rw (append.cons c s t) (ground (arith, lacks-append x s t))

pub lacks-tail :
    (x : ℕ) (c : Char) (s : String)
    → lacks x (String.◌∷◌ c s) ≡ true
    → ((code c == x) ≡ false) × (lacks x s ≡ true)
lacks-tail x c s h = (ground arith, ground arith)
