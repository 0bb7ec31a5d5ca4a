-- ===== src/Oms/DigitLaws.antt =====
-- crates/oms/src/cid.rs: printed sequence numbers, padded or on a file's line, and their parsing.
use predigy.Oms.{
  digits, replicate, show_u64, show_padded, push_digit, parse_from, parse_u64, is_whitespace,
  trim_end, trim,
}
use predigy.Prelude.{
  ltb, ltb→lt, Bool-cases, Option-cases, length, length-append, All, All-append, ℕ, zero, suc, ◌+◌,
  ◌-◌, ◌*◌, ◌/◌, ◌%◌, ◌≤◌, ◌<◌, ◌≡◌, refl, ◌∙◌, inl, inr, false, none, some, [], ◌∷◌, ◌++◌, arith,
}
use predigy.Core.{position_key}
use predigy.Prelude.Map.{text_key}
use predigy.Prelude.Word.{u64_max}
use predigy.Prelude.Text.{Text}

abbrev pub IsDigit : ℕ → Type 0
IsDigit c = (b'0' ≤ c) × (c ≤ b'9')

-- 10 to the power of the fuel and one.
abbrev digit_bound : ℕ → ℕ
digit_bound zero = 10
digit_bound (suc f) = 10 * digit_bound f

digits-IsDigit : (f n : ℕ) → All IsDigit (digits f n)
unfolding digits
digits-IsDigit zero n = ((omega arith, omega arith), tt)
digits-IsDigit (suc f) n = elim (Bool-cases (ltb n 10)) [
  | inl small ↦ rw small ((omega arith, omega (arith, ltb→lt n 10 small)), tt)
  | inr more ↦ rw more (
      All-append IsDigit (digits f (n / 10)) ((n % 10 + b'0') ∷ []) (digits-IsDigit f (n / 10))
        ((omega arith, omega arith), tt))
]

digits-nonempty : (f n : ℕ) → 0 < length (digits f n)
unfolding digits
digits-nonempty zero n = omega arith
digits-nonempty (suc f) n = ground (arith, length-append (digits f (n / 10)) ((n % 10 + b'0') ∷ []))

digits_short : (f n : ℕ) → length (digits f n) ≤ f + 1
unfolding digits
digits_short zero n = omega arith
digits_short (suc f) n =
    ground
      (arith, length-append (digits f (n / 10)) ((n % 10 + b'0') ∷ []), digits_short f (n / 10))

parse_from-append :
    (acc c : ℕ) (s : Text)
    → parse_from acc (s ++ c ∷ [])
      ≡ (elim (parse_from acc s) [ none ↦ none | some v ↦ push_digit v c ])
unfolding parse_from
parse_from-append acc c [] = ground arith
parse_from-append acc c (d ∷ s) = elim (Option-cases (push_digit acc d)) [
  | inl bad ↦ ground arith
  | inr (v, good) ↦ ground (arith, parse_from-append v c s)
]

parse_from-digits : (f n : ℕ) → n < digit_bound f → n ≤ u64_max → parse_from 0 (digits f n) ≡ some n
unfolding digits parse_from
parse_from-digits zero n h k = ground arith
parse_from-digits (suc f) n h k = elim (Bool-cases (ltb n 10)) [
  | inl small ↦ ground arith
  | inr more ↦
      rw
        (
          more,
          parse_from-append 0 (n % 10 + b'0') (digits f (n / 10)),
          parse_from-digits f (n / 10) (omega arith) (omega arith),
        )
        (ground arith)
]

-- A text of digits needs no sign.
parse_u64-IsDigit : (s : Text) → All IsDigit s → 0 < length s → parse_u64 s ≡ parse_from 0 s
unfolding parse_u64
parse_u64-IsDigit [] d h = absurd (omega arith)
parse_u64-IsDigit (c ∷ []) d h = refl
parse_u64-IsDigit (c ∷ e ∷ s) d h = ground arith

pub show_u64-IsDigit : (n : ℕ) → All IsDigit (show_u64 n)
unfolding show_u64
show_u64-IsDigit n = digits-IsDigit 20 n

pub show_u64-nonempty : (n : ℕ) → 0 < length (show_u64 n)
unfolding show_u64
show_u64-nonempty n = digits-nonempty 20 n

pub show_u64-short : (n : ℕ) → length (show_u64 n) ≤ 21
unfolding show_u64
show_u64-short n = digits_short 20 n

pub parse_from-show_u64 : (n : ℕ) → n ≤ u64_max → parse_from 0 (show_u64 n) ≡ some n
unfolding show_u64
parse_from-show_u64 n h = parse_from-digits 20 n (omega arith) h

-- A printed number parses back.
pub parse_u64-show_u64 : (n : ℕ) → n ≤ u64_max → parse_u64 (show_u64 n) ≡ some n
parse_u64-show_u64 n h =
    parse_u64-IsDigit (show_u64 n) (show_u64-IsDigit n) (show_u64-nonempty n)
    ∙ parse_from-show_u64 n h

parse_from-replicate : (k : ℕ) (s : Text) → parse_from 0 (replicate k b'0' ++ s) ≡ parse_from 0 s
unfolding parse_from
parse_from-replicate zero s = refl
parse_from-replicate (suc k) s = parse_from-replicate k s

replicate-IsDigit : (k : ℕ) → All IsDigit (replicate k b'0')
replicate-IsDigit zero = tt
replicate-IsDigit (suc k) = ((omega arith, omega arith), replicate-IsDigit k)

pub show_padded-IsDigit : (n : ℕ) → All IsDigit (show_padded n)
unfolding show_padded
show_padded-IsDigit n =
    All-append IsDigit (replicate (8 - length (show_u64 n)) b'0') (show_u64 n)
      (replicate-IsDigit (8 - length (show_u64 n))) (show_u64-IsDigit n)

-- Zeros in front do not change the value.
pub parse_from-show_padded : (n : ℕ) → n ≤ u64_max → parse_from 0 (show_padded n) ≡ some n
unfolding show_padded
parse_from-show_padded n h =
    parse_from-replicate (8 - length (show_u64 n)) (show_u64 n) ∙ parse_from-show_u64 n h

digit_not_whitespace : (c : ℕ) → IsDigit c → is_whitespace c ≡ false
unfolding is_whitespace
digit_not_whitespace c d = ground arith

trim_end-line : (s : Text) → All IsDigit s → trim_end (s ++ 0x0a ∷ []) ≡ s
unfolding trim_end is_whitespace
trim_end-line [] d = refl
trim_end-line (c ∷ []) d = ground (arith, digit_not_whitespace c d.0)
trim_end-line (c ∷ e ∷ s) d = ground (arith, trim_end-line (e ∷ s) d.1)

trim-line : (s : Text) → All IsDigit s → 0 < length s → trim (s ++ 0x0a ∷ []) ≡ s
unfolding trim
trim-line [] d h = absurd (omega arith)
trim-line (c ∷ s) d h = ground (arith, digit_not_whitespace c d.0, trim_end-line (c ∷ s) d)

-- The line that `save` writes reads back as the number.
pub parse_u64-line : (n : ℕ) → n ≤ u64_max → parse_u64 (trim (show_u64 n ++ 0x0a ∷ [])) ≡ some n
parse_u64-line n h =
    rw (trim-line (show_u64 n) (show_u64-IsDigit n) (show_u64-nonempty n)) (parse_u64-show_u64 n h)
