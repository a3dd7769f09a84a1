-- ===== src/Runner/Plans.antt =====
-- services/runner/src/language-profiles.ts: the file and the commands for each language.
pub mod Laws
pub mod Described
use Prim.Native.String.{◌++◌}
use cloud_code_execution_eng.Prelude.{
  ℕ, ◌*◌, ◌/◌, String, Option, none, some, List, [], ◌∷◌, max, show, or_else, if◌then◌else◌,
}
use cloud_code_execution_eng.Common.Jobs.{
  SupportedLanguage, java, python, go, javascript, typescript, cpp, csharp,
}
use cloud_code_execution_eng.Runner.Scan.{class_match, has_package_main}

pub record RuntimeStep : Type 0 where
  pub command : String
  pub args : List String
  pub stdin : Option String

pub record RuntimePlan : Type 0 where
  pub file_name : String
  pub source_code : Option String
  pub steps : List RuntimeStep

unfoldable pub detect_java_class_name : String → String
unfolding class_match
detect_java_class_name source_code = or_else (class_match source_code) "Main"

unfoldable pub ensure_go_package_main : String → String
unfolding has_package_main
ensure_go_package_main source_code =
    if has_package_main source_code then source_code else "package main\n\n" ++ source_code

abbrev pub typescript_compiler_path : String
typescript_compiler_path = "/app/services/runner/node_modules/typescript/bin/tsc"

abbrev compile : String → List String → RuntimeStep
compile command args = record { command = command; args = args; stdin = none }

abbrev execute : String → List String → String → RuntimeStep
execute command args stdin = record { command = command; args = args; stdin = some stdin }

unfoldable pub max_heap : ℕ → ℕ
max_heap memory_mb = max 64 (memory_mb * 3 / 4)

unfoldable pub get_runtime_plan : SupportedLanguage → String → String → ℕ → RuntimePlan
unfolding detect_java_class_name ensure_go_package_main max_heap
get_runtime_plan javascript source_code stdin memory_mb = record {
  file_name = "main.js";
  source_code = none;
  steps = execute "node" ("main.js" ∷ []) stdin ∷ [];
}
get_runtime_plan typescript source_code stdin memory_mb = record {
  file_name = "main.ts";
  source_code = none;
  steps =
      compile "node" (
        typescript_compiler_path ∷ "main.ts" ∷ "--target" ∷ "ES2022" ∷ "--module" ∷ "CommonJS"
        ∷ "--outDir" ∷ ".build" ∷ "--strict" ∷ [])
      ∷ execute "node" (".build/main.js" ∷ []) stdin
      ∷ [];
}
get_runtime_plan python source_code stdin memory_mb = record {
  file_name = "main.py";
  source_code = none;
  steps = execute "python3" ("main.py" ∷ []) stdin ∷ [];
}
get_runtime_plan go source_code stdin memory_mb = record {
  file_name = "main.go";
  source_code = some (ensure_go_package_main source_code);
  steps = compile "go" ("build" ∷ "-o" ∷ "main" ∷ "main.go" ∷ []) ∷ execute "./main" [] stdin ∷ [];
}
get_runtime_plan java source_code stdin memory_mb = record {
  file_name = detect_java_class_name source_code ++ ".java";
  source_code = none;
  steps =
      compile "javac" ((detect_java_class_name source_code ++ ".java") ∷ [])
      ∷ execute "java"
          (("-Xmx" ++ (show (max_heap memory_mb) ++ "m")) ∷ detect_java_class_name source_code ∷ [])
          stdin
      ∷ [];
}
get_runtime_plan cpp source_code stdin memory_mb = record {
  file_name = "main.cpp";
  source_code = none;
  steps =
      compile "g++" ("main.cpp" ∷ "-std=c++23" ∷ "-O2" ∷ "-pipe" ∷ "-o" ∷ "main" ∷ [])
      ∷ execute "./main" [] stdin
      ∷ [];
}
get_runtime_plan csharp source_code stdin memory_mb = record {
  file_name = "Program.cs";
  source_code = none;
  steps =
      compile "mcs" ("-out:Program.exe" ∷ "Program.cs" ∷ [])
      ∷ execute "mono" ("Program.exe" ∷ []) stdin
      ∷ [];
}
