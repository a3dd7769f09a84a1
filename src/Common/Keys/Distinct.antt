-- ===== src/Common/Keys/Distinct.antt =====
-- The keys of packages/common/src/index.ts do not meet. A date key is the ten characters that
-- `toISOString().slice(0, 10)` gives, of which the only fact used is their number.
use Prim.Native.String.{◌++◌, count}
use text.Mathlib.TextLemmas.{
  append_cancel_left, append_cancel_right, append_inj, append_assoc, length-append,
}
use cloud_code_execution_eng.Prelude.{String, ◌≡◌, ◌≢◌, refl, sym, ap, ◌∙◌, arith, ne_of_test}
use cloud_code_execution_eng.Common.Keys.{
  redis_job_key, tenant_active_jobs_key, tenant_daily_jobs_key, tenant_daily_cost_key,
  tenant_job_history_key,
}

-- Texts that end alike, by ends of one length, have one beginning and one end.
ends_equal :
    (s₁ s₂ t₁ t₂ : String) → s₁ ++ t₁ ≡ s₂ ++ t₂ → count t₁ ≡ count t₂ → (s₁ ≡ s₂) × (t₁ ≡ t₂)
ends_equal s₁ s₂ t₁ t₂ e c = append_inj e lengths
  where
    lengths : count s₁ ≡ count s₂
    lengths = omega (arith, ap count e, length-append s₁ t₁, length-append s₂ t₂, c)

unfoldable pub IsDateKey : String → Type 0
IsDateKey d = count d ≡ 10

pub tenant_active_jobs_key-injective :
    (a b : String) → tenant_active_jobs_key a ≡ tenant_active_jobs_key b → a ≡ b
unfolding tenant_active_jobs_key
tenant_active_jobs_key-injective a b e =
    append_cancel_right a b ":active_jobs" (append_cancel_left "tenant:" _ _ e)

-- A key that ends in a date, regrouped so that the date is the end.
dated :
    (a label d b label' d' : String)
    → "tenant:" ++ (a ++ (label ++ d)) ≡ "tenant:" ++ (b ++ (label' ++ d'))
    → count d ≡ count d'
    → (a ++ label ≡ b ++ label') × (d ≡ d')
dated a label d b label' d' e c = ends_equal (a ++ label) (b ++ label') d d' regrouped c
  where
    regrouped : (a ++ label) ++ d ≡ (b ++ label') ++ d'
    regrouped =
        append_assoc a label d ∙ append_cancel_left "tenant:" _ _ e ∙ sym (append_assoc b label' d')

-- Daily counters of different tenants or days have different keys, for dates of ten characters.
pub tenant_daily_jobs_key-injective :
    (a b d d' : String)
    → IsDateKey d
    → IsDateKey d'
    → tenant_daily_jobs_key a d ≡ tenant_daily_jobs_key b d'
    → (a ≡ b) × (d ≡ d')
unfolding tenant_daily_jobs_key IsDateKey
tenant_daily_jobs_key-injective a b d d' h h' e =
    let (heads, dates) = dated a ":daily_jobs:" d b ":daily_jobs:" d' e (h ∙ sym h') in
    (append_cancel_right a b ":daily_jobs:" heads, dates)

pub active-ne-daily_jobs :
    (a b d : String) → IsDateKey d → tenant_active_jobs_key a ≢ tenant_daily_jobs_key b d
unfolding tenant_active_jobs_key tenant_daily_jobs_key IsDateKey
active-ne-daily_jobs a b d h e =
    let (heads, _) = dated a ":a" "ctive_jobs" b ":daily_jobs:" d e (sym h) in
    let regrouped = heads ∙ sym (append_assoc b ":daily_job" "s:") in
    ne_of_test ":a" "s:" refl (ends_equal a (b ++ ":daily_job") ":a" "s:" regrouped refl).1

pub daily_cost-ne-daily_jobs :
    (a b d d' : String)
    → IsDateKey d
    → IsDateKey d'
    → tenant_daily_cost_key a d ≢ tenant_daily_jobs_key b d'
unfolding tenant_daily_cost_key tenant_daily_jobs_key IsDateKey
daily_cost-ne-daily_jobs a b d d' h h' e =
    let (heads, _) = dated a ":daily_cost:" d b ":daily_jobs:" d' e (h ∙ sym h') in
    ne_of_test _ _ refl (ends_equal a b ":daily_cost:" ":daily_jobs:" heads refl).1

pub active-ne-daily_cost :
    (a b d : String) → IsDateKey d → tenant_active_jobs_key a ≢ tenant_daily_cost_key b d
unfolding tenant_active_jobs_key tenant_daily_cost_key IsDateKey
active-ne-daily_cost a b d h e =
    let (heads, _) = dated a ":a" "ctive_jobs" b ":daily_cost:" d e (sym h) in
    let regrouped = heads ∙ sym (append_assoc b ":daily_cos" "t:") in
    ne_of_test ":a" "t:" refl (ends_equal a (b ++ ":daily_cos") ":a" "t:" regrouped refl).1

pub active-ne-job_history : (a b : String) → tenant_active_jobs_key a ≢ tenant_job_history_key b
unfolding tenant_active_jobs_key tenant_job_history_key
active-ne-job_history a b e =
    let cut = append_cancel_left "tenant:" (a ++ ":active_jobs") (b ++ ":job_history") e in
    ne_of_test _ _ refl (ends_equal a b ":active_jobs" ":job_history" cut refl).1

-- The keys that hold a job's hash begin otherwise than those that hold a tenant's data.
pub job-ne-active : (j a : String) → redis_job_key j ≢ tenant_active_jobs_key a
unfolding redis_job_key tenant_active_jobs_key
job-ne-active j a e =
    ne_of_test "j" "t" refl
      (append_inj {s₁ = "j"} {s₂ = "t"}
        (sym (append_assoc "j" "ob:" j) ∙ e ∙ append_assoc "t" "enant:" (a ++ ":active_jobs"))
        refl).0

pub redis_job_key-injective : (i j : String) → redis_job_key i ≡ redis_job_key j → i ≡ j
unfolding redis_job_key
redis_job_key-injective i j e = append_cancel_left "job:" i j e
