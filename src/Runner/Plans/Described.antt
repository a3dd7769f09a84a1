-- ===== src/Runner/Plans/Described.antt =====
-- What LANGUAGE_RUNTIME_CATALOG of packages/common/src/index.ts says of the plans of
-- services/runner/src/language-profiles.ts.
use Prim.Native.String.{◌++◌}
use cloud_code_execution_eng.Prelude.{
  ◌≡◌, ◌⊎◌, String, Bool, true, false, List, [], ◌∷◌, map, length, ◌===◌, if◌then◌else◌,
}
use cloud_code_execution_eng.Common.Jobs.{SupportedLanguage, typescript, java, language_name}
use cloud_code_execution_eng.Common.Catalog.{LanguageRuntime}
use cloud_code_execution_eng.Runner.Plans.{RuntimeStep, RuntimePlan}

abbrev with_args : String → List String → String
with_args line [] = line
with_args line (a ∷ args) = with_args (line ++ (" " ++ a)) args

abbrev pub command_line : RuntimeStep → String
command_line s = with_args s.command s.args

-- The entries of the catalog for one language.
abbrev pub entries_for : SupportedLanguage → List LanguageRuntime → List LanguageRuntime
entries_for l [] = []
entries_for l (e ∷ es) =
    if language_name e.language === language_name l then e ∷ entries_for l es else entries_for l es

-- The catalog leaves out the size of Java's heap and the settings of the TypeScript compiler.
abbrev pub is_abridged : SupportedLanguage → Bool
is_abridged java = true
is_abridged typescript = true
is_abridged _ = false

pub record Describes (e : LanguageRuntime) (plan : RuntimePlan) : Type 0 where
  pub file : plan.file_name ≡ e.source_file
  pub steps : length plan.steps ≡ length e.pipeline
  pub commands : (is_abridged e.language ≡ true) ⊎ (map command_line plan.steps ≡ e.pipeline)
