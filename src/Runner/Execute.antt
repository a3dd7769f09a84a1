-- ===== src/Runner/Execute.antt =====
-- services/runner/src/index.ts: runLimitedProcess and executeUserCode. The child process is a
-- parameter: for a command line, its input and its time limit, what it writes and how it ends.
-- Decoding the job, the directories and the file are input and output: of these only the time that
-- the file takes is kept.
pub mod Trace
pub mod Output
pub mod Account
pub mod Clock
use Prim.Native.String.{◌++◌}
use cloud_code_execution_eng.Prelude.{
  ℕ, ◌+◌, ◌-◌, ◌/◌, String, Bool, true, false, ◌&&◌, ◌||◌, not, Option, none, some, List, [], ◌∷◌,
  max, show, if◌then◌else◌, ◌==◌,
}
use cloud_code_execution_eng.Effect.{Result, ok, err}
use cloud_code_execution_eng.Effect.Fallible.{◌>>=◌}
use cloud_code_execution_eng.Common.Jobs.{JobRequest, ExecutionResult, ResultStatus}
use cloud_code_execution_eng.Runner.Plans.{RuntimeStep, RuntimePlan, get_runtime_plan}
use cloud_code_execution_eng.Decode.{Buffer, decode}
use cloud_code_execution_eng.Truncate.{truncate}

-- What a child process does: the bytes that it writes, as the chunks in which they arrive, its
-- exit, whether the timer ran out before it closed, and the time until it closed.
pub record ChildRun : Type 0 where
  pub stdout_chunks : List Buffer
  pub stderr_chunks : List Buffer
  pub code : Option ℕ
  pub signal : Option String
  pub timed_out : Bool
  pub elapsed : ℕ

pub record ProcessOutcome : Type 0 where
  pub code : Option ℕ
  pub signal : Option String
  pub stdout : String
  pub stderr : String
  pub timed_out : Bool

-- The handler of `data`: `out += chunk.toString("utf8"); out = truncate(out, max)`.
unfoldable pub capture : ℕ → String → List Buffer → String
capture max_bytes out [] = out
capture max_bytes out (chunk ∷ chunks) =
    capture max_bytes (truncate (out ++ decode chunk) max_bytes) chunks

unfoldable pub cpu_seconds : ℕ → ℕ
cpu_seconds timeout_ms = max 1 ((timeout_ms + 999) / 1000 + 1)

abbrev pub prlimit_args : ℕ → String → List String → List String
prlimit_args timeout_ms command args =
    ("--cpu=" ++ show (cpu_seconds timeout_ms))
    ∷ "--nproc=128"
    ∷ "--fsize=16777216"
    ∷ "--"
    ∷ command
    ∷ args

-- How far the loop over the steps has come.
pub record Progress : Type 0 where
  pub combined_stdout : String
  pub combined_stderr : String
  pub final_code : Option ℕ
  pub final_signal : Option String
  pub timed_out : Bool
  pub clock : ℕ

abbrev pub is_zero : Option ℕ → Bool
is_zero none = false
is_zero (some n) = n == 0

module _ (spawn : String → List String → Option String → ℕ → Result ChildRun)
    (max_stdio_bytes : ℕ) where
  abbrev pub spawn_step : RuntimeStep → ℕ → Result ChildRun
  spawn_step step timeout_ms =
      spawn "prlimit" (prlimit_args timeout_ms step.command step.args) step.stdin timeout_ms

  abbrev pub outcome : ChildRun → ProcessOutcome
  outcome r = record {
    code = r.code;
    signal = r.signal;
    stdout = capture max_stdio_bytes "" r.stdout_chunks;
    stderr = capture max_stdio_bytes "" r.stderr_chunks;
    timed_out = r.timed_out;
  }

  -- The outcome, and the time that the process took.
  pub run_limited_process : RuntimeStep → ℕ → Result (ProcessOutcome × ℕ)
  run_limited_process step timeout_ms = do r ← spawn_step step timeout_ms; ok (outcome r, r.elapsed)

  abbrev pub advance : Progress → ProcessOutcome × ℕ → Progress
  advance p (o, elapsed) = record {
    combined_stdout = truncate (p.combined_stdout ++ o.stdout) max_stdio_bytes;
    combined_stderr = truncate (p.combined_stderr ++ o.stderr) max_stdio_bytes;
    final_code = o.code;
    final_signal = o.signal;
    timed_out = if o.timed_out then true else p.timed_out;
    clock = p.clock + elapsed;
  }

  -- The loop ends at a step that runs out of time or fails.
  abbrev pub breaks : ProcessOutcome → Bool
  breaks o = o.timed_out || not (is_zero o.code)

  abbrev pub remaining_ms : ℕ → ℕ → ℕ
  remaining_ms deadline clock = max 100 (deadline - clock)

  pub run_steps : ℕ → List RuntimeStep → Progress → Result Progress
  run_steps deadline [] p = ok p
  run_steps deadline (step ∷ steps) p = do
    r ← run_limited_process step (remaining_ms deadline p.clock)
    if breaks r.0 then ok (advance p r) else run_steps deadline steps (advance p r)

  abbrev pub start : ℕ → Progress
  start now = record {
    combined_stdout = "";
    combined_stderr = "";
    final_code = none;
    final_signal = none;
    timed_out = false;
    clock = now;
  }

  abbrev pub result_of : ℕ → Progress → ExecutionResult
  result_of started_at p = record {
    status =
        if is_zero p.final_code && not p.timed_out
        then ResultStatus.succeeded
        else ResultStatus.failed;
    exit_code = p.final_code;
    signal = p.final_signal;
    timed_out = p.timed_out;
    stdout = truncate p.combined_stdout max_stdio_bytes;
    stderr = truncate p.combined_stderr max_stdio_bytes;
    duration_ms = p.clock - started_at;
    runner_error = none;
  }

  -- From `startedAt` on: the file takes `write_ms` to be written, and counts against the deadline.
  pub run_plan : ℕ → ℕ → ℕ → List RuntimeStep → Result ExecutionResult
  run_plan started_at write_ms timeout_ms steps = do
    p ← run_steps (started_at + timeout_ms) steps (start (started_at + write_ms))
    ok (result_of started_at p)

  unfoldable pub execute_user_code : ℕ → ℕ → JobRequest → Result ExecutionResult
  unfolding run_plan run_steps run_limited_process
  execute_user_code started_at write_ms request =
      run_plan started_at write_ms request.timeout_ms
        (get_runtime_plan request.language request.source_code request.stdin
          request.memory_mb).steps
