-- ===== src/Truncate/Laws.antt =====
-- Truncation keeps nearly within its limit, and cutting a growing text piece by piece is cutting the
-- whole text once.
use Prim.Native.Char.{Char, code, len_utf8, len_utf8_def, width}
use Prim.Native.Nat.{compare, Ordering}
use Prim.Native.String.{◌++◌}
use Prim.Native.String.len
use Prim.Native.String.append
use text.Mathlib.TextPositions.{len_utf8-pos}
use text.Mathlib.TextLemmas.{append-nil}
use cloud_code_execution_eng.Prelude.{
  ℕ, ◌+◌, ◌-◌, ◌≤◌, ◌<◌, ◌≡◌, refl, ap, ◌∙◌, String, len, arith, ◌⊎◌, inl, inr, Bool-cases, le→leb,
  sym, leb, ◌==◌,
}
use cloud_code_execution_eng.Truncate.{first_bytes, truncate}

width-le : (o p q : Ordering) → width o p q ≤ 4
width-le Ordering.lt _ _ = omega arith
width-le Ordering.eq Ordering.lt _ = omega arith
width-le Ordering.eq Ordering.eq Ordering.lt = omega arith
width-le _ _ _ = ground arith

len_utf8_bounds : (c : Char) → (1 ≤ len_utf8 c) × (len_utf8 c ≤ 4)
len_utf8_bounds c =
    let (k, e) = len_utf8-pos c in
    (
      omega arith,
      rw (len_utf8_def c)
          (width-le (compare (code c) 128) (compare (code c) 2048) (compare (code c) 65536)),
    )

-- The first bytes of a text that fits are the text.
first_bytes_all : (s : String) (n : ℕ) → len s ≤ n → first_bytes s n ≡ s
unfolding first_bytes
first_bytes_all String.[] n h = refl
first_bytes_all (String.◌∷◌ c s) n h =
    ground (arith, len.cons c s, first_bytes_all s (n - len_utf8 c))

truncate-first_bytes : (s : String) (n : ℕ) → truncate s n ≡ first_bytes s n
unfolding truncate
truncate-first_bytes s n = ground (arith, first_bytes_all s n)

-- What `first_bytes` does with its first character: it fits, or there is no room, or it is cut.
first_bytes-cons :
    (c : Char) (s : String) (n : ℕ)
    → ((len_utf8 c ≤ n)
        × (first_bytes (String.◌∷◌ c s) n ≡ String.◌∷◌ c (first_bytes s (n - len_utf8 c))))
      ⊎ ((n ≡ 0) × (first_bytes (String.◌∷◌ c s) n ≡ ""))
      ⊎ ((0 < n) × (n < len_utf8 c) × (first_bytes (String.◌∷◌ c s) n ≡ "�"))
unfolding first_bytes
first_bytes-cons c s n = elim (Bool-cases (leb (len_utf8 c) n)) [
  | inl fits ↦ inl (ground arith, rw fits)
  | inr cut ↦ elim (Bool-cases (n == 0)) [
    | inl none_left ↦ inr (inl (ground arith, rw (cut, none_left)))
    | inr some_left ↦ inr (inr (ground arith, ground arith, rw (cut, some_left)))
  ]
]

len-first_bytes : (s : String) (n : ℕ) → len (first_bytes s n) ≤ n + 2
len-first_bytes String.[] n = unfold first_bytes in omega arith
len-first_bytes (String.◌∷◌ c s) n = elim (first_bytes-cons c s n) [
  | inl (fits, e) ↦
      rw (e, len.cons c (first_bytes s (n - len_utf8 c)))
        (omega (arith, len-first_bytes s (n - len_utf8 c)))
  | inr (inl (z, e)) ↦ rw e (omega arith)
  | inr (inr (pos, less, e)) ↦ rw e (omega arith)
]

-- A truncated text has at most two bytes more than the limit.
pub len-truncate : (s : String) (n : ℕ) → len (truncate s n) ≤ n + 2
len-truncate s n = rw (truncate-first_bytes s n) (len-first_bytes s n)

-- If every character has one byte, it keeps to the limit.
pub IsAscii : String → Type 0
IsAscii String.[] = Unit
IsAscii (String.◌∷◌ c s) = (len_utf8 c ≡ 1) × IsAscii s

len-first_bytes-IsAscii : (s : String) (n : ℕ) → IsAscii s → len (first_bytes s n) ≤ n
unfolding IsAscii
len-first_bytes-IsAscii String.[] n h = unfold first_bytes in omega arith
len-first_bytes-IsAscii (String.◌∷◌ c s) n (one, h) = elim (first_bytes-cons c s n) [
  | inl (fits, e) ↦
      rw (e, len.cons c (first_bytes s (n - len_utf8 c)))
        (omega (arith, len-first_bytes-IsAscii s (n - len_utf8 c) h))
  | inr (inl (z, e)) ↦ rw e (omega arith)
  | inr (inr (pos, less, e)) ↦ absurd (omega arith)
]

first_bytes_fits :
    (c : Char) (s : String) (n : ℕ)
    → len_utf8 c ≤ n
    → first_bytes (String.◌∷◌ c s) n ≡ String.◌∷◌ c (first_bytes s (n - len_utf8 c))
unfolding first_bytes
first_bytes_fits c s n h = rw (le→leb (len_utf8 c) n h)

first_bytes_cut :
    (c : Char) (s : String) (n : ℕ) → 0 < n → n < len_utf8 c → first_bytes (String.◌∷◌ c s) n ≡ "�"
first_bytes_cut c s n h k = elim (first_bytes-cons c s n) [
  | inl (fits, e) ↦ absurd (omega arith)
  | inr (inl (z, e)) ↦ absurd (omega arith)
  | inr (inr (pos, less, e)) ↦ e
]

no_room : (s : String) (n : ℕ) → n ≡ 0 → first_bytes s n ≡ ""
no_room String.[] n z = unfold first_bytes in refl
no_room (String.◌∷◌ c s) n z = elim (first_bytes-cons c s n) [
  | inl (fits, e) ↦ absurd (omega (arith, len_utf8_bounds c))
  | inr (inl (z', e)) ↦ e
  | inr (inr (pos, less, e)) ↦ absurd (omega arith)
]

abbrev replacement : Char
replacement = "�"

-- The character that stands for a cut one is cut again where the first one was.
first_bytes-replacement :
    (t : String) (n : ℕ) → 0 < n → n ≤ 3 → first_bytes (String.◌∷◌ replacement t) n ≡ "�"
first_bytes-replacement t n h k = elim (first_bytes-cons replacement t n) [
  | inl (fits, e) ↦ e ∙ ap (λ u. String.◌∷◌ replacement u) (no_room t (n - 3) (omega arith))
  | inr (inl (z, e)) ↦ absurd (omega arith)
  | inr (inr (pos, less, e)) ↦ e
]

-- Cutting what was cut, with more text behind it, is cutting the whole.
first_bytes-append :
    (s t : String) (n : ℕ) → first_bytes (first_bytes s n ++ t) n ≡ first_bytes (s ++ t) n
first_bytes-append String.[] t n = unfold first_bytes in refl
first_bytes-append (String.◌∷◌ c s) t n = elim (first_bytes-cons c s n) [
  | inl (fits, e) ↦
      ap (λ u. first_bytes (u ++ t) n) e
      ∙ ap (λ u. first_bytes u n) (append.cons c (first_bytes s (n - len_utf8 c)) t)
      ∙ first_bytes_fits c (first_bytes s (n - len_utf8 c) ++ t) n fits
      ∙ ap (λ u. String.◌∷◌ c u) (first_bytes-append s t (n - len_utf8 c))
      ∙ sym (first_bytes_fits c (s ++ t) n fits)
      ∙ ap (λ u. first_bytes u n) (sym (append.cons c s t))
  | inr (inl (z, e)) ↦ no_room _ n z ∙ sym (no_room _ n z)
  | inr (inr (pos, less, e)) ↦
      ap (λ u. first_bytes (u ++ t) n) e
      ∙ ap (λ u. first_bytes u n) (append.cons replacement "" t)
      ∙ first_bytes-replacement ("" ++ t) n pos (omega (arith, len_utf8_bounds c))
      ∙ sym (first_bytes_cut c (s ++ t) n pos less)
      ∙ ap (λ u. first_bytes u n) (sym (append.cons c s t))
]

-- Truncating what was kept so far together with a new piece is truncating the whole text.
pub truncate-append : (s t : String) (n : ℕ) → truncate (truncate s n ++ t) n ≡ truncate (s ++ t) n
truncate-append s t n =
    ap (λ u. truncate (u ++ t) n) (truncate-first_bytes s n)
    ∙ truncate-first_bytes (first_bytes s n ++ t) n
    ∙ first_bytes-append s t n
    ∙ sym (truncate-first_bytes (s ++ t) n)

pub truncate_idempotent : (s : String) (n : ℕ) → truncate (truncate s n) n ≡ truncate s n
truncate_idempotent s n =
    ap (λ u. truncate u n) (sym (append-nil (truncate s n)))
    ∙ truncate-append s "" n
    ∙ ap (λ u. truncate u n) (append-nil s)

-- Less of what was cut is less of the text.
first_bytes-le : (s : String) (m n : ℕ) → m ≤ n → first_bytes (first_bytes s n) m ≡ first_bytes s m
first_bytes-le String.[] m n h = unfold first_bytes in refl
first_bytes-le (String.◌∷◌ c s) m n h = elim (first_bytes-cons c s n) [
  | inl (fits, e) ↦ ap (λ u. first_bytes u m) e ∙ (elim (first_bytes-cons c s m) [
    | inl (fits', e') ↦
        first_bytes_fits c (first_bytes s (n - len_utf8 c)) m fits'
        ∙ ap (λ u. String.◌∷◌ c u)
            (first_bytes-le s (m - len_utf8 c) (n - len_utf8 c) (omega arith))
        ∙ sym e'
    | inr (inl (z, e')) ↦ no_room _ m z ∙ sym e'
    | inr (inr (pos, less, e')) ↦ first_bytes_cut c _ m pos less ∙ sym e'
  ])
  | inr (inl (z, e)) ↦ no_room _ m (omega arith) ∙ sym (no_room _ m (omega arith))
  | inr (inr (pos, less, e)) ↦ ap (λ u. first_bytes u m) e ∙ (elim (first_bytes-cons c s m) [
    | inl (fits', e') ↦ absurd (omega arith)
    | inr (inl (z, e')) ↦ no_room _ m z ∙ sym e'
    | inr (inr (pos', less', e')) ↦
        first_bytes-replacement "" m pos' (omega (arith, len_utf8_bounds c)) ∙ sym e'
  ])
]

first_bytes-cons_eq :
    (c : Char) (u v : String) (m : ℕ)
    → first_bytes u (m - len_utf8 c) ≡ first_bytes v (m - len_utf8 c)
    → first_bytes (String.◌∷◌ c u) m ≡ first_bytes (String.◌∷◌ c v) m
unfolding first_bytes
first_bytes-cons_eq c u v m h = rw h

first_bytes-append_right :
    (s t : String) (m n : ℕ) → m ≤ n → first_bytes (s ++ first_bytes t n) m ≡ first_bytes (s ++ t) m
first_bytes-append_right String.[] t m n h =
    ap (λ u. first_bytes u m) (append.nil (first_bytes t n))
    ∙ first_bytes-le t m n h
    ∙ ap (λ u. first_bytes u m) (sym (append.nil t))
first_bytes-append_right (String.◌∷◌ c s) t m n h =
    ap (λ u. first_bytes u m) (append.cons c s (first_bytes t n))
    ∙ first_bytes-cons_eq c (s ++ first_bytes t n) (s ++ t) m
        (first_bytes-append_right s t (m - len_utf8 c) n (omega arith))
    ∙ ap (λ u. first_bytes u m) (sym (append.cons c s t))

-- Truncating two texts first does not change what the truncation of both gives.
pub truncate-append_both :
    (s t : String) (n : ℕ) → truncate (truncate s n ++ truncate t n) n ≡ truncate (s ++ t) n
truncate-append_both s t n =
    truncate-append s (truncate t n) n
    ∙ ap (λ u. truncate (s ++ u) n) (truncate-first_bytes t n)
    ∙ truncate-first_bytes (s ++ first_bytes t n) n
    ∙ first_bytes-append_right s t n n (omega arith)
    ∙ sym (truncate-first_bytes (s ++ t) n)

pub truncate_empty : (n : ℕ) → truncate "" n ≡ ""
truncate_empty n = truncate-first_bytes "" n ∙ (unfold first_bytes in refl)
