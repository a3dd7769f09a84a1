-- ===== src/Worker/Local.antt =====
-- services/worker/src/runners/local-runner.ts. The docker process is a parameter: what the command
-- line given to it writes and its exit code, or the error that it cannot be started with.
pub mod Protocol
use Prim.Native.Char.{Char, code}
use Prim.Native.String
use Prim.Native.String.{◌++◌}
use cloud_code_execution_eng.Prelude.{
  ℕ, ◌+◌, ◌*◌, ◌/◌, ◌%◌, ◌==◌, String, Bool, true, false, ◌||◌, not, Option, none, some, List, [],
  ◌∷◌, show, max, ltb, if◌then◌else◌, ◌===◌, keep, map, finds_text,
}
use cloud_code_execution_eng.Effect.{Result, ok, err}
use cloud_code_execution_eng.Effect.Fallible.{◌>>=◌}
use cloud_code_execution_eng.Common.Jobs.{QueueJobPayload, ExecutionResult, ResultStatus}
use cloud_code_execution_eng.Runner.Execute.{capture}
use cloud_code_execution_eng.Decode.{Buffer}
use cloud_code_execution_eng.Truncate.{truncate}

abbrev pub lead : Char → List String → List String
lead c [] = String.◌∷◌ c String.[] ∷ []
lead c (line ∷ lines) = String.◌∷◌ c line ∷ lines

-- `text.split("\n")`.
abbrev pub split_lines : String → List String
split_lines String.[] = "" ∷ []
split_lines (String.◌∷◌ c s) =
    let rest = split_lines s in if code c == 10 then "" ∷ rest else lead c rest

abbrev pub is_blank : String → Bool
is_blank line = line === ""

abbrev pub last : List String → Option String
last [] = none
last (line ∷ []) = some line
last (line ∷ next ∷ lines) = last (next ∷ lines)

abbrev pub bind_option : {A B : Type 0} → Option A → (A → Option B) → Option B
bind_option none f = none
bind_option (some a) f = f a

-- `trim` is that of JavaScript, and `parse` is `JSON.parse` and the schema of results.
module _ (trim : String → String) (parse : String → Option ExecutionResult) where
  unfoldable pub parse_result_from_stdout : String → Option ExecutionResult
  parse_result_from_stdout stdout =
      bind_option (last (keep (λ line. not (is_blank line)) (map trim (split_lines stdout)))) parse

-- What the docker process does: the bytes that it writes, as the chunks in which they arrive.
pub record DockerRun : Type 0 where
  pub stdout_chunks : List Buffer
  pub stderr_chunks : List Buffer
  pub exit_code : Option ℕ

abbrev padded : ℕ → String
padded n = if ltb n 10 then "00" ++ show n else if ltb n 100 then "0" ++ show n else show n

-- `Math.max(cpuMillicores / 1000, 0.125).toFixed(3)`.
unfoldable pub cpu_cores : ℕ → String
cpu_cores cpu_millicores =
    show (max cpu_millicores 125 / 1000) ++ ("." ++ padded (max cpu_millicores 125 % 1000))

abbrev pub exit_text : Option ℕ → String
exit_text none = "null"
exit_text (some n) = show n

abbrev pub is_broken_exit : Option ℕ → Bool
is_broken_exit none = true
is_broken_exit (some n) = n == 125

unfoldable pub likely_infra_failure : Option ℕ → String → Bool
likely_infra_failure exit_code stderr =
    is_broken_exit exit_code
    || finds_text "Cannot connect to the Docker daemon" stderr
    || finds_text "No such image" stderr
    || finds_text "OCI runtime" stderr
    || finds_text "containerd" stderr

-- `encode` is base64 of the payload's JSON.
module _ (encode : QueueJobPayload → String) (trim : String → String)
    (parse : String → Option ExecutionResult) (docker : List String → Result DockerRun) where
  unfoldable pub docker_args : QueueJobPayload → String → ℕ → List String
  unfolding cpu_cores
  docker_args payload runner_image max_stdio_bytes =
      "run"
      ∷ "--rm"
      ∷ "--network"
      ∷ "none"
      ∷ "--read-only"
      ∷ "--user"
      ∷ "1000:1000"
      ∷ "--pids-limit"
      ∷ "128"
      ∷ "--cpus"
      ∷ cpu_cores payload.request.cpu_millicores
      ∷ "--memory"
      ∷ (show payload.request.memory_mb ++ "m")
      ∷ "--tmpfs"
      ∷ "/tmp:rw,noexec,nosuid,size=64m"
      ∷ "--tmpfs"
      ∷ "/workspace:rw,exec,nosuid,nodev,size=256m,uid=1000,gid=1000,mode=1770"
      ∷ "--security-opt"
      ∷ "no-new-privileges"
      ∷ "--cap-drop"
      ∷ "ALL"
      ∷ "-e"
      ∷ "RESULT_BACKEND=stdout"
      ∷ "-e"
      ∷ "RUN_ROOT=/workspace"
      ∷ "-e"
      ∷ ("MAX_STDIO_BYTES=" ++ show max_stdio_bytes)
      ∷ "-e"
      ∷ ("JOB_DATA_B64=" ++ encode payload)
      ∷ runner_image
      ∷ []

  abbrev pub without_result : ℕ → Option ℕ → String → String → Result ExecutionResult
  without_result max_stdio_bytes exit_code stdout stderr =
      if likely_infra_failure exit_code stderr
      then err (
          "Runner infrastructure failure (exit="
          ++ (exit_text exit_code ++ ("): " ++ truncate stderr 400)))
      else ok (record {
        status = ResultStatus.failed;
        exit_code = exit_code;
        signal = none;
        timed_out = false;
        stdout = truncate stdout max_stdio_bytes;
        stderr = truncate stderr max_stdio_bytes;
        duration_ms = 0;
        runner_error = some "Runner did not return a valid result payload";
      })

  abbrev pub else_result : Option ExecutionResult → Result ExecutionResult → Result ExecutionResult
  else_result none r = r
  else_result (some result) r = ok result

  unfoldable pub execute_local_runner : QueueJobPayload → String → ℕ → Result ExecutionResult
  unfolding docker_args
  execute_local_runner payload runner_image max_stdio_bytes = do
    run ← docker (docker_args payload runner_image max_stdio_bytes)
    let stdout = capture (max_stdio_bytes * 2) "" run.stdout_chunks
    let stderr = capture max_stdio_bytes "" run.stderr_chunks
    else_result (parse_result_from_stdout trim parse stdout)
        (without_result max_stdio_bytes run.exit_code stdout stderr)
