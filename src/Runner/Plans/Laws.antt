-- ===== src/Runner/Plans/Laws.antt =====
-- What holds of every plan of services/runner/src/language-profiles.ts.
use Prim.Native.Char.{code}
use Prim.Native.String.{◌++◌}
use Prim.Native.String.append
use cloud_code_execution_eng.Prelude.{
  ℕ, ◌≤◌, ◌≡◌, refl, sym, String, Bool, true, false, none, some, List, [], ◌∷◌, arith, ◌≢◌, ◌===◌,
  Bool-cases, inl, inr, Option-cases, any, subst, eq_refl,
}
use cloud_code_execution_eng.Common.Jobs.{SupportedLanguage, java}
use cloud_code_execution_eng.Runner.Scan.{class_match, is_word, has_package_main}
use cloud_code_execution_eng.Runner.Scan.Laws.{IsWord, class_match-IsWord, has_package_main-append}
use cloud_code_execution_eng.Runner.Plans.{
  RuntimeStep, RuntimePlan, detect_java_class_name, ensure_go_package_main, max_heap,
  get_runtime_plan,
}

-- The heap of a Java program is at least 64 MB and, for every memory size that the schema lets
-- through, no more than the memory.
pub max_heap_bounds :
    (memory_mb : ℕ) → 64 ≤ memory_mb → (64 ≤ max_heap memory_mb) × (max_heap memory_mb ≤ memory_mb)
unfolding max_heap
max_heap_bounds memory_mb h = omega arith

-- No character is a slash.
abbrev pub HasNoSlash : String → Type 0
HasNoSlash String.[] = Unit
HasNoSlash (String.◌∷◌ c s) = (code c ≢ 47) × HasNoSlash s

is_word-no_slash : (n : ℕ) → is_word n ≡ true → n ≢ 47
unfolding is_word
is_word-no_slash n h = ground arith

IsWord-HasNoSlash : (s : String) → IsWord s → HasNoSlash s
IsWord-HasNoSlash String.[] h = tt
IsWord-HasNoSlash (String.◌∷◌ c s) (w, h) = (is_word-no_slash (code c) w, IsWord-HasNoSlash s h)

HasNoSlash-append : (s t : String) → HasNoSlash s → HasNoSlash t → HasNoSlash (s ++ t)
HasNoSlash-append String.[] t h k = subst HasNoSlash (sym (append.nil t)) k
HasNoSlash-append (String.◌∷◌ c s) t (w, h) k =
    subst HasNoSlash (sym (append.cons c s t)) (w, HasNoSlash-append s t h k)

pub detect_java_class_name-IsWord :
    (source_code : String) → IsWord (detect_java_class_name source_code)
unfolding detect_java_class_name is_word
detect_java_class_name-IsWord s = elim (Option-cases (class_match s)) [
  | inl e ↦ rw e (refl, (refl, (refl, (refl, tt))))
  | inr (n, e) ↦ rw e (class_match-IsWord s n e)
]

-- Input goes to the last command only.
abbrev pub FeedsLast : String → List RuntimeStep → Type 0
FeedsLast stdin [] = ⊥
FeedsLast stdin (s ∷ []) = s.stdin ≡ some stdin
FeedsLast stdin (s ∷ t ∷ steps) = (s.stdin ≡ none) × FeedsLast stdin (t ∷ steps)

abbrev pub reads_first : String → List RuntimeStep → Bool
reads_first file_name [] = false
reads_first file_name (s ∷ steps) = any (λ a. a === file_name) s.args

-- A plan that the runner may follow in its directory: its file lies in it and is what the first
-- command is given, and there is a last command, which alone is given the input.
pub record IsPlan (stdin : String) (p : RuntimePlan) : Type 0 where
  pub in_directory : HasNoSlash p.file_name
  pub reads_file : (reads_first p.file_name p.steps) ≡ true
  pub feeds_last : FeedsLast stdin p.steps

-- Whatever the language and the program text, the plan's file lies in the working directory and is
-- given to the first command, and the last command alone is given the input.
pub get_runtime_plan-IsPlan :
    (language : SupportedLanguage) (source_code stdin : String) (memory_mb : ℕ)
    → IsPlan stdin (get_runtime_plan language source_code stdin memory_mb)
get_runtime_plan-IsPlan java source_code stdin memory_mb =
    unfold get_runtime_plan in
    record {
      in_directory = class_file;
      reads_file = rw (eq_refl (detect_java_class_name source_code ++ ".java"));
      feeds_last = (refl, refl);
    }
  where
    class_file : HasNoSlash (detect_java_class_name source_code ++ ".java")
    class_file =
        HasNoSlash-append (detect_java_class_name source_code) ".java"
          (IsWord-HasNoSlash _ (detect_java_class_name-IsWord source_code)) (omega arith)
get_runtime_plan-IsPlan _ source_code stdin memory_mb =
    unfold get_runtime_plan in
    record { in_directory = omega arith; reads_file = refl; feeds_last = ground arith }

-- What is compiled as Go declares package main, and doing it again changes nothing.
pub ensure_go_package_main_declares :
    (source_code : String)
    → (has_package_main (ensure_go_package_main source_code) ≡ true)
      × (ensure_go_package_main (ensure_go_package_main source_code)
          ≡ ensure_go_package_main source_code)
unfolding ensure_go_package_main
ensure_go_package_main_declares source_code = elim (Bool-cases (has_package_main source_code)) [
  | inl e ↦ rw (e, ensure_go_package_main) (e, rw e)
  | inr e ↦ ground (arith, has_package_main-append source_code)
]
