-- ===== src/Floats.antt =====
-- JavaScript numbers, as far as costs and averages need them. IEEE 754 rounds each result to
-- a nearest number, so every operation is monotone on numbers that are not negative.
use cloud_code_execution_eng.Prelude.{ℕ, ◌≤◌, ◌<◌, ◌*◌, ◌^◌, String}

pub record Floats : Type 1 where
  pub F : Type 0
  -- The integer n, and the literal that is nearest to n / 10 ^ k.
  pub num : ℕ → F
  pub decimal : ℕ → ℕ → F
  pub add : F → F → F
  pub mul : F → F → F
  pub div : F → F → F
  -- `Number(x.toFixed(8))`, and for 6 and 2; and `x.toFixed(8)`.
  pub round8 : F → F
  pub round6 : F → F
  pub round2 : F → F
  pub fixed8 : F → String
  pub Le : F → F → Type 0
  pub le_refl : (a : F) → Le a a
  pub le_trans : {a b c : F} → Le a b → Le b c → Le a c
  pub num_mono : (m n : ℕ) → m ≤ n → Le (num m) (num n)
  pub zero-le-decimal : (n k : ℕ) → Le (num 0) (decimal n k)
  pub decimal-le : (n k m : ℕ) → n ≤ m * 10 ^ k → Le (decimal n k) (num m)
  pub add_mono : {a b c d : F} → Le a b → Le c d → Le (add a c) (add b d)
  pub mul_mono :
      {a b c d : F} → Le (num 0) a → Le a b → Le (num 0) c → Le c d → Le (mul a c) (mul b d)
  pub zero-le-mul : {a b : F} → Le (num 0) a → Le (num 0) b → Le (num 0) (mul a b)
  pub zero-le-add : {a b : F} → Le (num 0) a → Le (num 0) b → Le (num 0) (add a b)
  pub div_mono : {a b : F} (n : ℕ) → 0 < n → Le a b → Le (div a (num n)) (div b (num n))
  pub zero-le-div : {a : F} (n : ℕ) → 0 < n → Le (num 0) a → Le (num 0) (div a (num n))
  pub round8_mono : {a b : F} → Le a b → Le (round8 a) (round8 b)
