-- ===== src/Prelude/Decimal.antt =====
-- `String(n)` of an integer that is not negative, below 10 ^ 21.
use Prim.Native.Nat.{ℕ, zero, suc, ◌/◌, ◌%◌}
use Prim.Native.String.{String, ◌++◌}
use mathlib.Core.Bool.{true}
use mathlib.Core.Logic.{inl, inr}
use mathlib.Core.Path.{◌≡◌, refl}
use cloud_code_execution_eng.Prelude.Texts.{lacks, lacks-append}
use cloud_code_execution_eng.Prelude.Tests.{Bool-cases, ltb, if◌then◌else◌}

abbrev digit : ℕ → String
digit zero = "0"
digit (suc zero) = "1"
digit (suc (suc zero)) = "2"
digit (suc (suc (suc zero))) = "3"
digit (suc (suc (suc (suc zero)))) = "4"
digit (suc (suc (suc (suc (suc zero))))) = "5"
digit (suc (suc (suc (suc (suc (suc zero)))))) = "6"
digit (suc (suc (suc (suc (suc (suc (suc zero))))))) = "7"
digit (suc (suc (suc (suc (suc (suc (suc (suc zero)))))))) = "8"
digit (suc (suc (suc (suc (suc (suc (suc (suc (suc n))))))))) = "9"

-- Enough fuel is any number from the number of digits on: a division by 10 loses one digit.
digits_from : ℕ → ℕ → String
digits_from zero n = ""
digits_from (suc fuel) n =
    let more = digits_from fuel (n / 10) ++ digit (n % 10) in if ltb n 10 then digit n else more

unfoldable pub show : ℕ → String
unfolding digits_from
show n = digits_from 21 n

digit-lacks : (n : ℕ) → lacks 10 (digit n) ≡ true
digit-lacks zero = refl
digit-lacks (suc zero) = refl
digit-lacks (suc (suc zero)) = refl
digit-lacks (suc (suc (suc zero))) = refl
digit-lacks (suc (suc (suc (suc zero)))) = refl
digit-lacks (suc (suc (suc (suc (suc zero))))) = refl
digit-lacks (suc (suc (suc (suc (suc (suc zero)))))) = refl
digit-lacks (suc (suc (suc (suc (suc (suc (suc zero))))))) = refl
digit-lacks (suc (suc (suc (suc (suc (suc (suc (suc zero)))))))) = refl
digit-lacks (suc (suc (suc (suc (suc (suc (suc (suc (suc n))))))))) = refl

digits_from-lacks : (fuel n : ℕ) → lacks 10 (digits_from fuel n) ≡ true
unfolding digits_from
digits_from-lacks zero n = refl
digits_from-lacks (suc fuel) n = elim (Bool-cases (ltb n 10)) [
  | inl small ↦ rw small (digit-lacks n)
  | inr large ↦ rw large (
      lacks-append 10 (digits_from fuel (n / 10)) (digit (n % 10)) (digits_from-lacks fuel (n / 10))
        (digit-lacks (n % 10)))
]

-- A number is written on one line.
pub show-lacks : (n : ℕ) → lacks 10 (show n) ≡ true
unfolding show
show-lacks n = digits_from-lacks 21 n
