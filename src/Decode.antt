-- ===== src/Decode.antt =====
-- `Buffer.toString("utf8")` of Node.js, with which services/runner/src/index.ts and
-- services/worker/src/runners/local-runner.ts read each chunk of an output: the decoder of the
-- Encoding Standard, which writes U+FFFD for what is no character. A byte is a number below 256.
use Prim.Native.Nat.{Ordering, compare}
use Prim.Native.Char.{Char, char, IsLt}
use Prim.Native.String.{◌++◌}
use mathlib.Core.List.{◌++◌ as join}
use text.Mathlib.TextLemmas.{append_assoc, nil-append}
use cloud_code_execution_eng.Prelude.{
  ℕ, ◌+◌, ◌-◌, ◌*◌, ◌≡◌, refl, sym, ap, ◌∙◌, String, ◌&&◌, List, [], ◌∷◌, ltb, leb, ◌==◌,
  if◌then◌else◌, All,
}

abbrev pub Buffer : Type 0
Buffer = List ℕ

abbrev pub replacement : String
replacement = "�"

-- The native `IsScalar n` is three comparisons; these have its clauses.
abbrev BothLt : Ordering → Ordering → Type 0
BothLt Ordering.lt o = IsLt o
BothLt Ordering.eq _ = ⊥
BothLt Ordering.gt _ = ⊥

abbrev Scalar : Ordering → Ordering → Ordering → Type 0
Scalar Ordering.lt _ _ = Unit
Scalar Ordering.eq o p = BothLt o p
Scalar Ordering.gt o p = BothLt o p

abbrev above : (o p : Ordering) → (BothLt o p → Char) → String
above Ordering.lt Ordering.lt f = String.◌∷◌ (f tt) ""
above Ordering.lt _ f = replacement
above _ _ f = replacement

abbrev written : (o p q : Ordering) → (Scalar o p q → Char) → String
written Ordering.lt _ _ f = String.◌∷◌ (f tt) ""
written Ordering.eq o p f = above o p f
written Ordering.gt o p f = above o p f

abbrev pub of_code : ℕ → String
of_code n =
    written (compare n 55296) (compare 57343 n) (compare n 1114112) (λ scalar. char n scalar)

-- Between two bytes: no character has begun, or so many bytes are missing of one, and the next has to
-- lie between two bounds.
pub data Pending : Type 0 where
  idle : Pending
  pending : (needed code_point lower upper : ℕ) → Pending

abbrev begin : ℕ → String × Pending
begin b =
    if ltb b 0x80
    then (of_code b, idle)
    else if ltb b 0xC2
    then (replacement, idle)
    else if ltb b 0xE0
    then ("", pending 1 (b - 0xC0) 0x80 0xBF)
    else if ltb b 0xF0
    then (
      "",
      pending 2 (b - 0xE0) (if b == 0xE0 then 0xA0 else 0x80) (if b == 0xED then 0x9F else 0xBF),
    )
    else if ltb b 0xF5
    then (
      "",
      pending 3 (b - 0xF0) (if b == 0xF0 then 0x90 else 0x80) (if b == 0xF4 then 0x8F else 0xBF),
    )
    else (replacement, idle)

abbrev next : Pending → ℕ → String × Pending
next idle b = begin b
next (pending needed code_point lower upper) b =
    if leb lower b && leb b upper
    then (if needed == 1
        then (of_code (code_point * 64 + (b - 0x80)), idle)
        else ("", pending (needed - 1) (code_point * 64 + (b - 0x80)) 0x80 0xBF))
    else (replacement ++ (begin b).0, (begin b).1)

unfoldable pub decode_from : Pending → Buffer → String
decode_from idle [] = ""
decode_from (pending _ _ _ _) [] = replacement
decode_from p (b ∷ bs) = (next p b).0 ++ decode_from (next p b).1 bs

unfoldable pub decode : Buffer → String
unfolding decode_from
decode bs = decode_from idle bs

abbrev pub rest : Pending → Buffer → Pending
rest p [] = p
rest p (b ∷ bs) = rest (next p b).1 bs

-- The buffer does not end within a character.
abbrev pub IsWhole : Buffer → Type 0
IsWhole bs = rest idle bs ≡ idle

abbrev pub all_bytes : List Buffer → Buffer
all_bytes [] = []
all_bytes (chunk ∷ chunks) = join chunk (all_bytes chunks)

-- Each chunk decoded alone, and the texts put together.
abbrev pub decoded : List Buffer → String
decoded [] = ""
decoded (chunk ∷ chunks) = decode chunk ++ decoded chunks

decode_from-append :
    (p : Pending) (bs cs : Buffer)
    → rest p bs ≡ idle
    → decode_from p (join bs cs) ≡ decode_from p bs ++ decode cs
unfolding decode decode_from
decode_from-append idle [] cs h = sym (nil-append (decode_from idle cs))
decode_from-append (pending _ _ _ _) [] cs h = absurd (cc h)
decode_from-append p (b ∷ bs) cs h =
    ap (λ s. (next p b).0 ++ s) (decode_from-append (next p b).1 bs cs h)
    ∙ sym (append_assoc (next p b).0 (decode_from (next p b).1 bs) (decode cs))

-- Chunks that are cut between characters decode to what all their bytes decode to.
pub decoded-whole :
    (chunks : List Buffer) → All IsWhole chunks → decoded chunks ≡ decode (all_bytes chunks)
unfolding decode
decoded-whole [] h = refl
decoded-whole (chunk ∷ chunks) (whole, h) =
    ap (λ s. decode chunk ++ s) (decoded-whole chunks h)
    ∙ sym (decode_from-append idle chunk (all_bytes chunks) whole)
