-- ===== src/Runner/Execute/Clock.antt =====
-- How long an execution of executeUserCode in services/runner/src/index.ts may take.

use cloud_code_execution_eng.Prelude.{
  ℕ, suc, ◌+◌, ◌-◌, ◌*◌, ◌≤◌, ◌≡◌, String, Option, List, [], ◌∷◌, arith, inl, inr, max, length,
}
use native.Mathlib.Nat.{le_refl, mul-le-mul}
use cloud_code_execution_eng.Effect.{Result, ok}
use cloud_code_execution_eng.Common.Jobs.{
  SupportedLanguage, java, python, go, javascript, typescript, cpp, csharp, JobRequest,
  ExecutionResult,
}
use cloud_code_execution_eng.Runner.Plans.{RuntimeStep, get_runtime_plan}
use cloud_code_execution_eng.Runner.Execute.{ChildRun, execute_user_code}
use cloud_code_execution_eng.Runner.Execute.Trace.{Ran}
use cloud_code_execution_eng.Runner.Execute.Account.{steps_of, execute_user_code-IsAccount}

-- A plan has one command or two.
pub steps_of-length : (request : JobRequest) → length (steps_of request) ≤ 2
unfolding get_runtime_plan
steps_of-length request =
    counted request.language request.source_code request.stdin request.memory_mb
  where
    counted :
        (language : SupportedLanguage) (source_code stdin : String) (memory_mb : ℕ)
        → length ((get_runtime_plan language source_code stdin memory_mb).steps) ≤ 2
    counted java _ _ _ = omega arith
    counted python _ _ _ = omega arith
    counted go _ _ _ = omega arith
    counted javascript _ _ _ = omega arith
    counted typescript _ _ _ = omega arith
    counted cpp _ _ _ = omega arith
    counted csharp _ _ _ = omega arith

slack : (n grace : ℕ) → suc n * (100 + grace) ≡ n * (100 + grace) + (100 + grace)
slack n grace = omega arith

last_bound :
    (clock deadline grace elapsed n end : ℕ)
    → end ≤ clock + elapsed
    → elapsed ≤ max 100 (deadline - clock) + grace
    → end ≤ max clock deadline + suc n * (100 + grace)
last_bound clock deadline grace elapsed n end h k = omega (arith, slack n grace)

rest_bound :
    (clock deadline grace elapsed n end : ℕ)
    → end ≤ max (clock + elapsed) deadline + n * (100 + grace)
    → elapsed ≤ max 100 (deadline - clock) + grace
    → end ≤ max clock deadline + suc n * (100 + grace)
rest_bound clock deadline grace elapsed n end h k = omega (arith, slack n grace)

total_bound :
    (started_at write_ms timeout_ms grace n end duration : ℕ)
    → n ≤ 2
    → end ≤ max (started_at + write_ms) (started_at + timeout_ms) + n * (100 + grace)
    → duration ≡ end - started_at
    → duration ≤ max write_ms timeout_ms + 2 * (100 + grace)
total_bound started_at write_ms timeout_ms grace n end duration few h e =
    omega (arith, mul-le-mul few (le_refl (100 + grace)))

module _ (spawn : String → List String → Option String → ℕ → Result ChildRun)
    (max_stdio_bytes : ℕ) where
  -- A child is closed within `grace` of its timer.
  abbrev pub ClosesWithin : ℕ → Type 0
  ClosesWithin grace =
      (command : String) (args : List String) (stdin : Option String) (timeout_ms : ℕ)
      (r : ChildRun)
      → spawn command args stdin timeout_ms ≡ ok r
      → r.elapsed ≤ timeout_ms + grace

  Ran-end :
      (grace deadline : ℕ) (steps : List RuntimeStep) (clock : ℕ) (runs : List ChildRun) (end : ℕ)
      → ClosesWithin grace
      → Ran spawn max_stdio_bytes deadline steps clock runs end
      → end ≤ max clock deadline + length steps * (100 + grace)
  Ran-end grace deadline [] clock [] end h ran = ground arith
  Ran-end grace deadline [] clock (r ∷ runs) end h ran = elim ran [ ]
  Ran-end grace deadline (step ∷ steps) clock [] end h ran = elim ran [ ]
  Ran-end grace deadline (step ∷ steps) clock (r ∷ runs) end h (e, next) =
      let bound = h _ _ _ _ r e in
      elim next [
        | inl (_, _, last) ↦
            last_bound clock deadline grace r.elapsed (length steps) end (omega (arith, last)) bound
        | inr (_, rest) ↦
            let ih = Ran-end grace deadline steps (clock + r.elapsed) runs end h rest in
            rest_bound clock deadline grace r.elapsed (length steps) end ih bound
      ]

  -- If each child is closed within a grace time of its timer, the whole execution lasts at most
  -- the time limit of the request, or the time that writing the file takes if that is longer, plus
  -- twice 100 ms and the grace.
  pub execute_user_code-duration :
      (grace started_at write_ms : ℕ) (request : JobRequest) (result : ExecutionResult)
      → ClosesWithin grace
      → execute_user_code spawn max_stdio_bytes started_at write_ms request ≡ ok result
      → result.duration_ms ≤ max write_ms request.timeout_ms + 2 * (100 + grace)
  execute_user_code-duration grace started_at write_ms request result h e =
      let a =
        execute_user_code-IsAccount spawn max_stdio_bytes started_at write_ms request result e in
      let bound =
        Ran-end grace (started_at + request.timeout_ms) (steps_of request) (started_at + write_ms)
          a.runs a.end h a.ran in
      let few = steps_of-length request in
      total_bound started_at write_ms request.timeout_ms grace (length (steps_of request)) a.end
        result.duration_ms few bound a.duration_is
