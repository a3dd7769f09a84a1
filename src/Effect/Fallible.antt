-- ===== src/Effect/Fallible.antt =====
-- Code that may throw and calls nothing remote.
use cloud_code_execution_eng.Prelude.{◌≡◌, refl, ◌⊎◌, inl, inr, String}
use cloud_code_execution_eng.Effect.{Result, ok, err}

infixl 5 ◌>>=◌
abbrev pub ◌>>=◌ : {A B : Type 0} → Result A → (A → Result B) → Result B
ok a >>= f = f a
err message >>= f = err message

-- `try { r } catch (error) { h(error.message) }`.
abbrev pub caught : {A : Type 0} → Result A → (String → Result A) → Result A
caught (ok a) h = ok a
caught (err message) h = h message

pub Result-cases :
    {A : Type 0} (m : Result A) → ((a : A) × (m ≡ ok a)) ⊎ ((e : String) × (m ≡ err e))
Result-cases (ok a) = inl (a, refl)
Result-cases (err e) = inr (e, refl)

pub ok-injective : {A : Type 0} {a b : A} → ◌≡◌ {A = Result A} (ok a) (ok b) → a ≡ b
ok-injective e = cc

pub bind-eq-ok :
    {A B : Type 0} (m : Result A) (f : A → Result B) (b : B)
    → (m >>= f) ≡ ok b
    → (a : A) × (m ≡ ok a) × (f a ≡ ok b)
bind-eq-ok (ok a) f b h = (a, refl, h)
bind-eq-ok (err message) f b h = cc
