-- ===== src/Runner/Execute/Output.antt =====
-- What is captured of the outputs of processes in services/runner/src/index.ts.
use Prim.Native.String.{◌++◌}
use text.Mathlib.TextLemmas.{append_assoc, append-nil, nil-append}
use cloud_code_execution_eng.Prelude.{ℕ, ◌≡◌, sym, ap, ◌∙◌, String, Bool, ◌||◌, not, List, [], ◌∷◌}
use cloud_code_execution_eng.Runner.Execute.{ChildRun, capture, is_zero}
use cloud_code_execution_eng.Decode.{Buffer, decode, decoded}
use cloud_code_execution_eng.Truncate.{truncate}
use cloud_code_execution_eng.Truncate.Laws.{truncate-append, truncate_empty}

-- What is captured chunk by chunk is the text of all chunks, truncated once.
pub capture-truncate :
    (n : ℕ) (s : String) (chunks : List Buffer)
    → capture n (truncate s n) chunks ≡ truncate (s ++ decoded chunks) n
unfolding capture
capture-truncate n s [] = ap (λ u. truncate u n) (sym (append-nil s))
capture-truncate n s (chunk ∷ chunks) =
    ap (λ u. capture n u chunks) (truncate-append s (decode chunk) n)
    ∙ capture-truncate n (s ++ decode chunk) chunks
    ∙ ap (λ u. truncate u n) (append_assoc s (decode chunk) (decoded chunks))

abbrev pub stdout_of : List ChildRun → String
stdout_of [] = ""
stdout_of (r ∷ rs) = decoded r.stdout_chunks ++ stdout_of rs

abbrev pub stderr_of : List ChildRun → String
stderr_of [] = ""
stderr_of (r ∷ rs) = decoded r.stderr_chunks ++ stderr_of rs

-- A child that ended with exit code 0 before the timer.
abbrev pub is_success : ChildRun → Bool
is_success r = not (r.timed_out || not (is_zero r.code))

abbrev pub last_succeeds : Bool → List ChildRun → Bool
last_succeeds b [] = b
last_succeeds b (r ∷ rs) = last_succeeds (is_success r) rs

pub capture-empty :
    (n : ℕ) (chunks : List Buffer) → capture n "" chunks ≡ truncate (decoded chunks) n
capture-empty n chunks =
    ap (λ u. capture n u chunks) (sym (truncate_empty n))
    ∙ capture-truncate n "" chunks
    ∙ ap (λ u. truncate u n) (nil-append (decoded chunks))
