-- ===== src/Witnesses/Pure.antt =====
-- The theorems on pure functions, at small inputs.
use cloud_code_execution_eng.Prelude.{◌≡◌, refl, none, some, [], ◌∷◌}
use cloud_code_execution_eng.Decode.{decode, decode_from, decoded}
use cloud_code_execution_eng.Common.Schema.{JobBody, parse_job_request, units, parse_language}
use cloud_code_execution_eng.Witnesses.Setting.{hello}

abbrev hello_body : JobBody
hello_body = record {
  language = "python";
  source_code = "print(1)";
  stdin = none;
  timeout_ms = some 1000;
  memory_mb = none;
  cpu_millicores = none;
}

hello_parses : parse_job_request hello_body ≡ some hello
unfolding parse_job_request units parse_language
hello_parses = refl

-- Two bytes of one character in two chunks are read as two replacements.
cut_character : decoded ((0xC3 ∷ []) ∷ (0xA9 ∷ []) ∷ []) ≡ "��"
unfolding decode decode_from
cut_character = refl

whole_character : decode (0xC3 ∷ 0xA9 ∷ []) ≡ "é"
unfolding decode decode_from
whole_character = refl

wide_characters : decode (0xE2 ∷ 0x82 ∷ 0xAC ∷ 0xF0 ∷ 0x9F ∷ 0x98 ∷ 0x80 ∷ []) ≡ "€😀"
unfolding decode decode_from
wide_characters = refl

-- A surrogate is no character, so that each of its three bytes is replaced.
surrogate : decode (0xED ∷ 0xA0 ∷ 0x80 ∷ []) ≡ "���"
unfolding decode decode_from
surrogate = refl
