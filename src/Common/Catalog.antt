-- ===== src/Common/Catalog.antt =====
-- packages/common/src/index.ts: LANGUAGE_RUNTIME_CATALOG, what /v1/runtimes tells of each language.
use cloud_code_execution_eng.Prelude.{String, List, [], ◌∷◌}
use cloud_code_execution_eng.Common.Jobs.{
  SupportedLanguage, javascript, typescript, python, java, go, cpp, csharp,
}

pub record LanguageRuntime : Type 0 where
  pub language : SupportedLanguage
  pub display_name : String
  pub source_file : String
  pub runtime : String
  pub pipeline : List String
  pub environment : String
  pub isolation : List String

abbrev isolation_of_tasks : List String
isolation_of_tasks =
    "Fargate/Firecracker task boundary" ∷ "non-root user" ∷ "CPU/memory/time/pid/file limits" ∷ []

abbrev pub java_runtime : LanguageRuntime
java_runtime = record {
  language = java;
  display_name = "Java";
  source_file = "Main.java";
  runtime = "Eclipse Temurin JDK 25.0.3";
  pipeline = "javac Main.java" ∷ "java -Xmx<memory>m Main" ∷ [];
  environment = "Compiled JVM runtime inside an ephemeral container workspace";
  isolation = isolation_of_tasks;
}

abbrev pub python_runtime : LanguageRuntime
python_runtime = record {
  language = python;
  display_name = "Python";
  source_file = "main.py";
  runtime = "Python 3";
  pipeline = "python3 main.py" ∷ [];
  environment = "Interpreted runtime inside an ephemeral container workspace";
  isolation = isolation_of_tasks;
}

abbrev pub go_runtime : LanguageRuntime
go_runtime = record {
  language = go;
  display_name = "Go";
  source_file = "main.go";
  runtime = "Go toolchain";
  pipeline = "go build -o main main.go" ∷ "./main" ∷ [];
  environment = "Compiled native binary inside an ephemeral container workspace";
  isolation = isolation_of_tasks;
}

abbrev pub javascript_runtime : LanguageRuntime
javascript_runtime = record {
  language = javascript;
  display_name = "JavaScript";
  source_file = "main.js";
  runtime = "Node.js 24.16.0 LTS";
  pipeline = "node main.js" ∷ [];
  environment = "Interpreted Node.js runtime inside an ephemeral container workspace";
  isolation = isolation_of_tasks;
}

abbrev pub typescript_runtime : LanguageRuntime
typescript_runtime = record {
  language = typescript;
  display_name = "TypeScript";
  source_file = "main.ts";
  runtime = "TypeScript compiler + Node.js 24.16.0 LTS";
  pipeline = "tsc main.ts --outDir .build" ∷ "node .build/main.js" ∷ [];
  environment = "Compiled-to-JavaScript runtime inside an ephemeral container workspace";
  isolation = isolation_of_tasks;
}

abbrev pub cpp_runtime : LanguageRuntime
cpp_runtime = record {
  language = cpp;
  display_name = "C++";
  source_file = "main.cpp";
  runtime = "GCC 14.2 C++23";
  pipeline = "g++ main.cpp -std=c++23 -O2 -pipe -o main" ∷ "./main" ∷ [];
  environment = "Compiled native binary inside an ephemeral container workspace";
  isolation = isolation_of_tasks;
}

abbrev pub csharp_runtime : LanguageRuntime
csharp_runtime = record {
  language = csharp;
  display_name = "C#";
  source_file = "Program.cs";
  runtime = "Mono C# compiler/runtime";
  pipeline = "mcs -out:Program.exe Program.cs" ∷ "mono Program.exe" ∷ [];
  environment = "Compiled CLR executable inside an ephemeral container workspace";
  isolation = isolation_of_tasks;
}

abbrev pub language_runtime_catalog : List LanguageRuntime
language_runtime_catalog =
    java_runtime ∷ python_runtime ∷ go_runtime ∷ javascript_runtime ∷ typescript_runtime
    ∷ cpp_runtime ∷ csharp_runtime ∷ []
