-- ===== src/Runner/Execute/Trace.antt =====
-- The child processes behind a result of executeUserCode in services/runner/src/index.ts.
use Prim.Native.String.{◌++◌}
use text.Mathlib.TextLemmas.{append_assoc, append-nil}
use cloud_code_execution_eng.Prelude.{
  ℕ, ◌+◌, ◌≡◌, refl, sym, ap, subst, ◌∙◌, String, true, false, ◌&&◌, not, Option, List, [], ◌∷◌,
  arith, if◌then◌else◌, Bool-cases, inl, inr, ◌⊎◌,
}
use cloud_code_execution_eng.Effect.{Result, ok, err}
use cloud_code_execution_eng.Effect.Fallible.{Result-cases, ok-injective}
use cloud_code_execution_eng.Runner.Plans.{RuntimeStep}
use cloud_code_execution_eng.Runner.Execute.{
  ChildRun, Progress, capture, is_zero, spawn_step, outcome, run_limited_process, advance, breaks,
  remaining_ms, run_steps,
}
use cloud_code_execution_eng.Runner.Execute.Output.{
  stdout_of, stderr_of, is_success, last_succeeds, capture-empty,
}
use cloud_code_execution_eng.Decode.{Buffer, decoded}
use cloud_code_execution_eng.Truncate.{truncate}
use cloud_code_execution_eng.Truncate.Laws.{truncate-append_both}

module _ (spawn : String → List String → Option String → ℕ → Result ChildRun)
    (max_stdio_bytes : ℕ) where
  -- The steps from `clock` on ran as `runs`, until `end`: each was given at least 100 ms and else
  -- the time left, and all but the last succeeded.
  abbrev pub Ran : ℕ → List RuntimeStep → ℕ → List ChildRun → ℕ → Type 0
  Ran deadline [] clock [] end = end ≡ clock
  Ran deadline [] clock (r ∷ rs) end = ⊥
  Ran deadline (step ∷ steps) clock [] end = ⊥
  Ran deadline (step ∷ steps) clock (r ∷ rs) end =
      (spawn_step spawn max_stdio_bytes step (remaining_ms spawn max_stdio_bytes deadline clock)
        ≡ ok r)
      × ((is_success r ≡ false) × (rs ≡ []) × (end ≡ clock + r.elapsed)
          ⊎ (is_success r ≡ true) × Ran deadline steps (clock + r.elapsed) rs end)

  -- The runs that led from one progress of the loop to another, where `out` and `errs` is all that
  -- was written before.
  pub record Loop (deadline : ℕ) (steps : List RuntimeStep) (out errs : String) (p q : Progress)
      : Type 0 where
    pub runs : List ChildRun
    pub ran : Ran deadline steps p.clock runs q.clock
    pub out_kept : q.combined_stdout ≡ truncate (out ++ stdout_of runs) max_stdio_bytes
    pub errs_kept : q.combined_stderr ≡ truncate (errs ++ stderr_of runs) max_stdio_bytes
    pub ended :
        (is_zero q.final_code && not q.timed_out) ≡ last_succeeds (is_zero p.final_code) runs

  abbrev pub step_to : Progress → ChildRun → Progress
  step_to p r = advance spawn max_stdio_bytes p (outcome spawn max_stdio_bytes r, r.elapsed)

  gathered :
      (all : String) (kept : String) (chunks : List Buffer)
      → kept ≡ truncate all max_stdio_bytes
      → truncate (kept ++ capture max_stdio_bytes "" chunks) max_stdio_bytes
        ≡ truncate (all ++ decoded chunks) max_stdio_bytes
  gathered all kept chunks e =
      ap (λ u. truncate (u ++ capture max_stdio_bytes "" chunks) max_stdio_bytes) e
      ∙ ap (λ u. truncate (truncate all max_stdio_bytes ++ u) max_stdio_bytes)
          (capture-empty max_stdio_bytes chunks)
      ∙ truncate-append_both all (decoded chunks) max_stdio_bytes

  regroup : (s t u : String) (n : ℕ) → truncate ((s ++ t) ++ u) n ≡ truncate (s ++ (t ++ u)) n
  regroup s t u n = ap (λ x. truncate x n) (append_assoc s t u)

  run_steps-err :
      (deadline : ℕ) (step : RuntimeStep) (steps : List RuntimeStep) (p : Progress) (m : String)
      → spawn_step spawn max_stdio_bytes step (remaining_ms spawn max_stdio_bytes deadline p.clock)
        ≡ err m
      → run_steps spawn max_stdio_bytes deadline (step ∷ steps) p ≡ err m
  unfolding run_steps run_limited_process
  run_steps-err deadline step steps p m e = rw e

  pub run_steps-ok :
      (deadline : ℕ) (step : RuntimeStep) (steps : List RuntimeStep) (p : Progress) (r : ChildRun)
      → spawn_step spawn max_stdio_bytes step (remaining_ms spawn max_stdio_bytes deadline p.clock)
        ≡ ok r
      → run_steps spawn max_stdio_bytes deadline (step ∷ steps) p ≡ (
          if breaks spawn max_stdio_bytes (outcome spawn max_stdio_bytes r)
          then ok (step_to p r)
          else run_steps spawn max_stdio_bytes deadline steps (step_to p r))
  unfolding run_steps run_limited_process
  run_steps-ok deadline step steps p r e = rw e

  success-code : (r : ChildRun) → is_success r ≡ true → is_zero r.code ≡ true
  success-code r h = ground arith

  success-timed_out : (r : ChildRun) → is_success r ≡ true → r.timed_out ≡ false
  success-timed_out r h = ground arith

  -- The last run, which fails.
  stopped :
      (deadline : ℕ) (step : RuntimeStep) (steps : List RuntimeStep) (p : Progress) (r : ChildRun)
      (out errs : String)
      → p.combined_stdout ≡ truncate out max_stdio_bytes
      → p.combined_stderr ≡ truncate errs max_stdio_bytes
      → p.timed_out ≡ false
      → spawn_step spawn max_stdio_bytes step (remaining_ms spawn max_stdio_bytes deadline p.clock)
        ≡ ok r
      → is_success r ≡ false
      → Loop deadline (step ∷ steps) out errs p (step_to p r)
  stopped deadline step steps p r out errs ho he ht e badly = record {
    runs = r ∷ [];
    ran = (e, inl (badly, refl, refl));
    out_kept =
        gathered out p.combined_stdout r.stdout_chunks ho
        ∙ ap (λ u. truncate (out ++ u) max_stdio_bytes)
            (sym (append-nil (decoded r.stdout_chunks)));
    errs_kept =
        gathered errs p.combined_stderr r.stderr_chunks he
        ∙ ap (λ u. truncate (errs ++ u) max_stdio_bytes)
            (sym (append-nil (decoded r.stderr_chunks)));
    ended = ground arith;
  }

  -- A run that succeeds, before those that are known.
  continued :
      (deadline : ℕ) (step : RuntimeStep) (steps : List RuntimeStep) (p q : Progress) (r : ChildRun)
      (out errs : String)
      → spawn_step spawn max_stdio_bytes step (remaining_ms spawn max_stdio_bytes deadline p.clock)
        ≡ ok r
      → is_success r ≡ true
      → Loop deadline steps
          (out ++ decoded r.stdout_chunks)
          (errs ++ decoded r.stderr_chunks)
          (step_to p r)
          q
      → Loop deadline (step ∷ steps) out errs p q
  continued deadline step steps p q r out errs e well rest = record {
    runs = r ∷ rest.runs;
    ran = (e, inr (well, rest.ran));
    out_kept =
        rest.out_kept ∙ regroup out (decoded r.stdout_chunks) (stdout_of rest.runs) max_stdio_bytes;
    errs_kept =
        rest.errs_kept
        ∙ regroup errs (decoded r.stderr_chunks) (stderr_of rest.runs) max_stdio_bytes;
    ended = rest.ended ∙ ap (λ b. last_succeeds b rest.runs) (success-code r well ∙ sym well);
  }

  pub run_steps-Loop :
      (deadline : ℕ) (steps : List RuntimeStep) (p q : Progress) (out errs : String)
      → p.combined_stdout ≡ truncate out max_stdio_bytes
      → p.combined_stderr ≡ truncate errs max_stdio_bytes
      → p.timed_out ≡ false
      → run_steps spawn max_stdio_bytes deadline steps p ≡ ok q
      → Loop deadline steps out errs p q
  unfolding run_steps
  run_steps-Loop deadline [] p q out errs ho he ht h =
      let same : p ≡ q = ok-injective h in
      subst (λ x. Loop deadline [] out errs p x) same
        (record {
          runs = [];
          ran = refl;
          out_kept = ho ∙ ap (λ u. truncate u max_stdio_bytes) (sym (append-nil out));
          errs_kept = he ∙ ap (λ u. truncate u max_stdio_bytes) (sym (append-nil errs));
          ended = ground arith;
        })
  run_steps-Loop deadline (step ∷ steps) p q out errs ho he ht h =
      elim (Result-cases (
        spawn_step spawn max_stdio_bytes step
          (remaining_ms spawn max_stdio_bytes deadline p.clock))) [
            | inr (message, e) ↦
                (let wrong : ◌≡◌ {A = Result Progress} (err message) (ok q) =
                    sym (run_steps-err deadline step steps p message e) ∙ h in
                  absurd cc)
            | inl (r, e) ↦ elim (Bool-cases (is_success r)) [
              | inl well ↦ continued deadline step steps p q r out errs e well (
                  run_steps-Loop deadline steps (step_to p r) q (out ++ decoded r.stdout_chunks)
                    (errs ++ decoded r.stderr_chunks)
                    (gathered out p.combined_stdout r.stdout_chunks ho)
                    (gathered errs p.combined_stderr r.stderr_chunks he)
                    (let t : r.timed_out ≡ false = success-timed_out r well in ground arith)
                    (let goes : breaks spawn max_stdio_bytes (outcome spawn max_stdio_bytes r)
                          ≡ false =
                        ground arith in
                      sym (
                        run_steps-ok deadline step steps p r e
                        ∙ ap
                            (λ b.
                              if b
                              then ok (step_to p r)
                              else run_steps spawn max_stdio_bytes deadline steps (step_to p r))
                            goes)
                      ∙ h))
              | inr badly ↦
                  let stops : breaks spawn max_stdio_bytes (outcome spawn max_stdio_bytes r)
                      ≡ true =
                    ground arith in
                  let same : step_to p r ≡ q = ok-injective (
                    sym (
                      run_steps-ok deadline step steps p r e
                      ∙ ap
                          (λ b.
                            if b
                            then ok (step_to p r)
                            else run_steps spawn max_stdio_bytes deadline steps (step_to p r))
                          stops)
                    ∙ h) in
                  subst (λ x. Loop deadline (step ∷ steps) out errs p x) same
                    (stopped deadline step steps p r out errs ho he ht e badly)
            ]
          ]
