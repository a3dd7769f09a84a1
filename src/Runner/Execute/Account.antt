-- ===== src/Runner/Execute/Account.antt =====
-- What a result of executeUserCode in services/runner/src/index.ts says of the processes that ran.
use cloud_code_execution_eng.Prelude.{
  ℕ, ◌+◌, ◌-◌, ◌≡◌, refl, ◌∙◌, String, Bool, true, false, ◌&&◌, not, Option, none, List, [], ◌∷◌,
  arith, if◌then◌else◌, Bool-cases, inl, inr, ◌↔◌, ap, sym, subst,
}
use text.Mathlib.TextLemmas.{nil-append}
use cloud_code_execution_eng.Effect.{Result, ok}
use cloud_code_execution_eng.Effect.Fallible.{bind-eq-ok, ok-injective}
use cloud_code_execution_eng.Common.Jobs.{JobRequest, ExecutionResult, ResultStatus}
use cloud_code_execution_eng.Runner.Plans.{RuntimeStep, get_runtime_plan}
use cloud_code_execution_eng.Runner.Execute.{
  ChildRun, Progress, is_zero, run_steps, start, result_of, run_plan, execute_user_code, outcome,
  breaks,
}
use cloud_code_execution_eng.Runner.Execute.Output.{stdout_of, stderr_of, last_succeeds}
use cloud_code_execution_eng.Runner.Execute.Trace.{Ran, Loop, run_steps-Loop, run_steps-ok, step_to}
use cloud_code_execution_eng.Truncate.{truncate}
use cloud_code_execution_eng.Truncate.Laws.{truncate_idempotent, truncate_empty}

abbrev pub steps_of : JobRequest → List RuntimeStep
steps_of request =
    (get_runtime_plan request.language request.source_code request.stdin request.memory_mb).steps

status_lem :
    (b : Bool)
    → ((if b then ResultStatus.succeeded else ResultStatus.failed) ≡ ResultStatus.succeeded)
      ↔ (b ≡ true)
status_lem b = ground arith

module _ (spawn : String → List String → Option String → ℕ → Result ChildRun)
    (max_stdio_bytes : ℕ) where
  -- The runs that a result speaks of, and when the last of them ended.
  pub record IsAccount (started_at write_ms : ℕ) (request : JobRequest) (result : ExecutionResult)
      : Type 0 where
    pub runs : List ChildRun
    pub end : ℕ
    pub ran :
        Ran spawn max_stdio_bytes
          (started_at + request.timeout_ms)
          (steps_of request)
          (started_at + write_ms)
          runs
          end
    pub stdout_is : result.stdout ≡ truncate (stdout_of runs) max_stdio_bytes
    pub stderr_is : result.stderr ≡ truncate (stderr_of runs) max_stdio_bytes
    pub succeeds_when : (result.status ≡ ResultStatus.succeeded) ↔ (last_succeeds false runs ≡ true)
    pub duration_is : result.duration_ms ≡ end - started_at
    pub unbroken : result.runner_error ≡ none

  result_of-IsAccount :
      (started_at write_ms : ℕ) (request : JobRequest) (p : Progress)
      → Loop spawn max_stdio_bytes
          (started_at + request.timeout_ms)
          (steps_of request)
          ""
          ""
          (start spawn max_stdio_bytes (started_at + write_ms))
          p
      → IsAccount started_at write_ms request (result_of spawn max_stdio_bytes started_at p)
  result_of-IsAccount started_at write_ms request p loop = record {
    runs = loop.runs;
    end = p.clock;
    ran = loop.ran;
    stdout_is =
        ap (λ u. truncate u max_stdio_bytes) loop.out_kept
        ∙ ap (λ u. truncate (truncate u max_stdio_bytes) max_stdio_bytes)
            (nil-append (stdout_of loop.runs))
        ∙ truncate_idempotent (stdout_of loop.runs) max_stdio_bytes;
    stderr_is =
        ap (λ u. truncate u max_stdio_bytes) loop.errs_kept
        ∙ ap (λ u. truncate (truncate u max_stdio_bytes) max_stdio_bytes)
            (nil-append (stderr_of loop.runs))
        ∙ truncate_idempotent (stderr_of loop.runs) max_stdio_bytes;
    succeeds_when =
        subst
          (λ b.
            (result_of spawn max_stdio_bytes started_at p).status ≡ ResultStatus.succeeded
            ↔ b ≡ true)
          loop.ended (status_lem (is_zero p.final_code && not p.timed_out));
    duration_is = refl;
    unbroken = refl;
  }

  -- A result of executeUserCode accounts for the processes that ran: its outputs are the texts of
  -- all chunks that they wrote, each chunk decoded by itself, put together and truncated once; it
  -- succeeded exactly when the last process did; its duration is the time from before the file was
  -- written to the end of the last.
  pub execute_user_code-IsAccount :
      (started_at write_ms : ℕ) (request : JobRequest) (result : ExecutionResult)
      → execute_user_code spawn max_stdio_bytes started_at write_ms request ≡ ok result
      → IsAccount started_at write_ms request result
  unfolding execute_user_code run_plan
  execute_user_code-IsAccount started_at write_ms request result h =
      let (p, e, k) =
        bind-eq-ok
          (run_steps spawn max_stdio_bytes (started_at + request.timeout_ms) (steps_of request)
            (start spawn max_stdio_bytes (started_at + write_ms)))
          (λ p. ok (result_of spawn max_stdio_bytes started_at p)) result h in
      subst (IsAccount started_at write_ms request) (ok-injective k) (
        result_of-IsAccount started_at write_ms request p (
          run_steps-Loop spawn max_stdio_bytes (started_at + request.timeout_ms) (steps_of request)
            (start spawn max_stdio_bytes (started_at + write_ms)) p "" ""
            (sym (truncate_empty max_stdio_bytes)) (sym (truncate_empty max_stdio_bytes)) refl e))

  -- Every process that is asked for starts.
  abbrev pub AlwaysStarts : Type 0
  AlwaysStarts =
      (command : String) (args : List String) (stdin : Option String) (timeout_ms : ℕ)
      → (r : ChildRun) × (spawn command args stdin timeout_ms ≡ ok r)

  run_steps-total :
      (deadline : ℕ) (steps : List RuntimeStep) (p : Progress)
      → AlwaysStarts
      → (q : Progress) × (run_steps spawn max_stdio_bytes deadline steps p ≡ ok q)
  unfolding run_steps
  run_steps-total deadline [] p h = (p, refl)
  run_steps-total deadline (step ∷ steps) p h =
      let (r, e) = h _ _ _ _ in
      let rest = run_steps-total deadline steps (step_to spawn max_stdio_bytes p r) h in
      let unrolled = run_steps-ok spawn max_stdio_bytes deadline step steps p r e in
      elim (Bool-cases (breaks spawn max_stdio_bytes (outcome spawn max_stdio_bytes r))) [
        | inl stops ↦ (step_to spawn max_stdio_bytes p r, unrolled ∙ rw stops)
        | inr goes ↦ (rest.0, unrolled ∙ rw goes rest.1)
      ]

  -- If every process that is asked for starts and ends, the execution gives a result.
  pub execute_user_code-total :
      (started_at write_ms : ℕ) (request : JobRequest)
      → AlwaysStarts
      → (result : ExecutionResult) × (execute_user_code spawn max_stdio_bytes started_at write_ms
            request
          ≡ ok result)
  unfolding execute_user_code run_plan
  execute_user_code-total started_at write_ms request h =
      let (p, e) =
        run_steps-total (started_at + request.timeout_ms) (steps_of request)
          (start spawn max_stdio_bytes (started_at + write_ms)) h in
      (result_of spawn max_stdio_bytes started_at p, rw e)
