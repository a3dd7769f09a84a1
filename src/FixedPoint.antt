-- ===== src/FixedPoint.antt =====
-- Fixed-point numbers in units of 10 ^ -12, cut off below, which satisfy the laws of `Floats`.
use native.Mathlib.Nat.{le_refl, le_trans, mul-le-mul, div-le_of_le-mul, mul_comm}
use cloud_code_execution_eng.Prelude.{ℕ, ◌+◌, ◌*◌, ◌/◌, ◌^◌, ◌≤◌, ◌<◌, arith, show, ap}
use cloud_code_execution_eng.Floats.{Floats}

abbrev pub one : ℕ
one = 10 ^ 12

pub quotient_mono : (a b n : ℕ) → 0 < n → a ≤ b → a / n ≤ b / n
quotient_mono a b n h k = grind arith

pub div-num : (a b n : ℕ) → 0 < n → a ≤ b → a * one / (n * one) ≤ b * one / (n * one)
div-num a b n h k = quotient_mono (a * one) (b * one) (n * one) (omega arith) (omega arith)

pub decimal-le-num : (n k m : ℕ) → n ≤ m * 10 ^ k → n * one / 10 ^ k ≤ m * one
decimal-le-num n k m h =
    div-le_of_le-mul (10 ^ k) (omega (arith, ap (λ (t : ℕ). t * one) (mul_comm m (10 ^ k)), raised))
  where
    raised : n * one ≤ m * 10 ^ k * one
    raised = omega (arith, h)

pub product_mono : (a b c d : ℕ) → a ≤ b → c ≤ d → a * c / one ≤ b * d / one
product_mono a b c d h k = quotient_mono (a * c) (b * d) one (omega arith) (mul-le-mul h k)

abbrev pub fixed_point : Floats
fixed_point = record {
  F = ℕ;
  num = λ n. n * one;
  decimal = λ n k. n * one / 10 ^ k;
  add = λ a b. a + b;
  mul = λ a b. a * b / one;
  div = λ a b. a * one / b;
  round8 = λ a. a / 10 ^ 4 * 10 ^ 4;
  round6 = λ a. a / 10 ^ 6 * 10 ^ 6;
  round2 = λ a. a / 10 ^ 10 * 10 ^ 10;
  fixed8 = λ a. show (a / 10 ^ 4);
  Le = ◌≤◌;
  le_refl = λ a. le_refl a;
  le_trans = λ h k. le_trans h k;
  num_mono = λ m n h. omega arith;
  zero-le-decimal = λ n k. omega arith;
  decimal-le = decimal-le-num;
  add_mono = λ h k. omega arith;
  mul_mono = λ {a} {b} {c} {d} _ h _ k. product_mono a b c d h k;
  zero-le-mul = λ h k. omega arith;
  zero-le-add = λ h k. omega arith;
  div_mono = λ {a} {b} n h k. div-num a b n h k;
  zero-le-div = λ n h k. omega arith;
  round8_mono = λ {a} {b} h. omega arith;
}
