-- ===== src/Runner/Scan/Laws.antt =====
-- What the matches of services/runner/src/language-profiles.ts find.
use Prim.Native.Char.{Char, code}
use Prim.Native.String.{◌++◌}
use Prim.Native.String.append
use text.Mathlib.TextLemmas.{append_assoc}
use cloud_code_execution_eng.Prelude.{
  ◌≡◌, refl, sym, subst, ap, ◌∙◌, String, true, false, Option, none, some, arith, Bool-cases, inl,
  inr, Option-cases, is_blank, skip_blanks,
}
use cloud_code_execution_eng.Runner.Scan.{
  class_match, class_here, identifier, take_word, is_word, is_letter, drop_prefix, skip_some_blanks,
  package_here, has_package_main, ◌>>=◌, at_boundary,
}

-- Every character is a letter, a digit or an underscore.
abbrev pub IsWord : String → Type 0
IsWord String.[] = Unit
IsWord (String.◌∷◌ c s) = (is_word (code c) ≡ true) × IsWord s

take_word-IsWord : (s : String) → IsWord (take_word s)
unfolding take_word
take_word-IsWord String.[] = tt
take_word-IsWord (String.◌∷◌ c s) = elim (Bool-cases (is_word (code c))) [
  | inl w ↦ rw w (w, take_word-IsWord s)
  | inr n ↦ rw n tt
]

is_letter-is_word : (c : Char) → is_letter (code c) ≡ true → is_word (code c) ≡ true
unfolding is_word
is_letter-is_word c h = rw h

identifier-IsWord : (s n : String) → identifier s ≡ some n → IsWord n
unfolding identifier
identifier-IsWord String.[] n h = cc
identifier-IsWord (String.◌∷◌ c s) n h = elim (Bool-cases (is_letter (code c))) [
  | inl w ↦ subst IsWord (some-inj (rw w at h)) (is_letter-is_word c w, take_word-IsWord s)
  | inr o ↦ absurd (ground arith)
]
  where
    some-inj : {a b : String} → ◌≡◌ {A = Option String} (some a) (some b) → a ≡ b
    some-inj e = cc

bind-IsWord :
    (m : Option String) (f : String → Option String) (n : String)
    → ((s : String) → f s ≡ some n → IsWord n)
    → (m >>= f) ≡ some n
    → IsWord n
bind-IsWord none f n k h = cc
bind-IsWord (some s) f n k h = k s h

class_here-IsWord : (s n : String) → class_here s ≡ some n → IsWord n
unfolding class_here
class_here-IsWord s n = bind-IsWord (drop_prefix "public" s) _ n λ a.
    bind-IsWord (skip_some_blanks a) _ n λ b.
      bind-IsWord (drop_prefix "class" b) _ n
        λ c. bind-IsWord (skip_some_blanks c) _ n λ d. identifier-IsWord d n

-- Whatever the program text, a class name that is found is a word.
pub class_match-IsWord : (s n : String) → class_match s ≡ some n → IsWord n
unfolding class_match
class_match-IsWord String.[] n h = class_here-IsWord "" n h
class_match-IsWord (String.◌∷◌ c s) n h = elim (Option-cases (class_here (String.◌∷◌ c s))) [
  | inl e ↦ class_match-IsWord s n (ground arith)
  | inr (m, e) ↦ class_here-IsWord (String.◌∷◌ c s) n (ground arith)
]

drop_prefix-append : (p s : String) → drop_prefix p (p ++ s) ≡ some s
unfolding drop_prefix
drop_prefix-append String.[] s = ap some (append.nil s)
drop_prefix-append (String.◌∷◌ c p) s =
    ap (drop_prefix (String.◌∷◌ c p)) (append.cons c p s) ∙ (ground (arith, drop_prefix-append p s))

skip_blanks-cons :
    (c : Char) (s : String)
    → is_blank (code c) ≡ false
    → skip_blanks (String.◌∷◌ c s) ≡ String.◌∷◌ c s
unfolding skip_blanks
skip_blanks-cons c s h = rw h

skip_blanks-append :
    (c : Char) (p s : String)
    → is_blank (code c) ≡ false
    → skip_blanks (String.◌∷◌ c p ++ s) ≡ String.◌∷◌ c p ++ s
skip_blanks-append c p s h =
    ap skip_blanks (append.cons c p s) ∙ skip_blanks-cons c (p ++ s) h ∙ sym (append.cons c p s)

skip_some_blanks-space :
    (p s : String)
    → skip_blanks (p ++ s) ≡ p ++ s
    → skip_some_blanks (" " ++ (p ++ s)) ≡ some (p ++ s)
unfolding skip_some_blanks is_blank
skip_some_blanks-space p s h =
    ap skip_some_blanks (append.cons " " "" (p ++ s))
    ∙ ap (λ u. some (skip_blanks u)) (append.nil (p ++ s))
    ∙ ap some h

at_boundary-newline : (s : String) → at_boundary ("\n\n" ++ s) ≡ true
unfolding is_word
at_boundary-newline s = ap at_boundary (append.cons "\n" "\n" s)

package_here-main :
    (s : String) → package_here ("package" ++ (" " ++ ("main" ++ ("\n\n" ++ s)))) ≡ true
unfolding package_here is_blank
package_here-main s = rw (skip_blanks-append "p" "ackage" (" " ++ ("main" ++ ("\n\n" ++ s))) refl) (
    rw (drop_prefix-append "package" (" " ++ ("main" ++ ("\n\n" ++ s)))) (
      rw
        (skip_some_blanks-space "main" ("\n\n" ++ s)
          (skip_blanks-append "m" "ain" ("\n\n" ++ s) refl))
        (rw (drop_prefix-append "main" ("\n\n" ++ s)) (at_boundary-newline s))))

has_package_main_of_here : (s : String) → package_here s ≡ true → has_package_main s ≡ true
unfolding has_package_main
has_package_main_of_here s h = rw h

-- A text that begins with a declaration of package main has one.
pub has_package_main-append : (s : String) → has_package_main ("package main\n\n" ++ s) ≡ true
has_package_main-append s =
    has_package_main_of_here _ (subst (λ t. package_here t ≡ true) regrouped (package_here-main s))
  where
    regrouped : "package" ++ (" " ++ ("main" ++ ("\n\n" ++ s))) ≡ "package main\n\n" ++ s
    regrouped =
        sym (
          append_assoc "package" (" " ++ "main") ("\n\n" ++ s)
          ∙ ap (λ u. "package" ++ u) (append_assoc " " "main" ("\n\n" ++ s)))
        ∙ sym (append_assoc "package main" "\n\n" s)
