-- ===== src/Worker/Local/Protocol.antt =====
-- How services/worker/src/runners/local-runner.ts reads what services/runner/src/index.ts prints.
use Prim.Native.Char.{code}
use Prim.Native.String.{◌++◌}
use Prim.Native.String.append
use cloud_code_execution_eng.Prelude.{
  All, eq_iff, ℕ, ◌*◌, ◌≤◌, ◌≡◌, ◌≢◌, refl, ap, ◌∙◌, String, Option, some, List, [], ◌∷◌, arith,
  len,
}
use cloud_code_execution_eng.Effect.{Result, ok}
use cloud_code_execution_eng.Common.Jobs.{QueueJobPayload, ExecutionResult}
use cloud_code_execution_eng.Runner.Execute.{capture}
use cloud_code_execution_eng.Runner.Execute.Output.{capture-empty}
use cloud_code_execution_eng.Decode.{IsWhole, decode, all_bytes, decoded-whole}
use cloud_code_execution_eng.Truncate.{truncate}
use cloud_code_execution_eng.Worker.Local.{
  split_lines, parse_result_from_stdout, DockerRun, docker_args, execute_local_runner,
}

abbrev pub IsLine : String → Type 0
IsLine String.[] = Unit
IsLine (String.◌∷◌ c s) = (code c ≢ 10) × IsLine s

split_lines-line : (s : String) → IsLine s → split_lines (s ++ "\n") ≡ s ∷ "" ∷ []
split_lines-line String.[] h = refl
split_lines-line (String.◌∷◌ c s) (g, h) =
    rw (append.cons c s "\n", split_lines-line s h) (ground arith)

truncate-fits : (s : String) (n : ℕ) → len s ≤ n → truncate s n ≡ s
unfolding truncate
truncate-fits s n h = ground arith

module _ (encode : QueueJobPayload → String) (trim : String → String)
    (parse : String → Option ExecutionResult) (docker : List String → Result DockerRun) where
  parse-line :
      (line : String) (result : ExecutionResult)
      → IsLine line
      → trim line ≡ line
      → trim "" ≡ ""
      → line ≢ ""
      → parse line ≡ some result
      → parse_result_from_stdout trim parse (line ++ "\n") ≡ some result
  unfolding parse_result_from_stdout
  parse-line line result h t u full e =
      rw (split_lines-line line h, t, u) (ground (arith, eq_iff line ""))

  -- If docker starts and prints the bytes of one line, not empty and with nothing to trim, that
  -- parses as a result and fits into twice the limit, and no chunk ends within a character, the
  -- worker reads that result, into however many chunks the bytes were cut.
  pub execute_local_runner-reads :
      (payload : QueueJobPayload) (runner_image line : String) (max_stdio_bytes : ℕ)
      (result : ExecutionResult) (run : DockerRun)
      → IsLine line
      → trim line ≡ line
      → trim "" ≡ ""
      → line ≢ ""
      → parse line ≡ some result
      → docker (docker_args encode trim parse docker payload runner_image max_stdio_bytes) ≡ ok run
      → All IsWhole run.stdout_chunks
      → decode (all_bytes run.stdout_chunks) ≡ line ++ "\n"
      → len (line ++ "\n") ≤ max_stdio_bytes * 2
      → execute_local_runner encode trim parse docker payload runner_image max_stdio_bytes
        ≡ ok result
  unfolding execute_local_runner
  execute_local_runner-reads payload image line n result run h t u full e d cut c fits =
      rw (d, whole, parse-line line result h t u full e)
    where
      whole : capture (n * 2) "" run.stdout_chunks ≡ line ++ "\n"
      whole =
          capture-empty (n * 2) run.stdout_chunks
          ∙ ap (λ s. truncate s (n * 2)) (decoded-whole run.stdout_chunks cut ∙ c)
          ∙ truncate-fits (line ++ "\n") (n * 2) fits
