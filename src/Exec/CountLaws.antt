-- ===== src/Exec/CountLaws.antt =====
-- crates/kalshi-exec/src/mapping.rs: a count that is printed is read back.
use native.Mathlib.Nat.{
  mul-div_cancel, mul-mod_left, one-le-pow, mul-lt-mul_of_pos_right, add-mul-div_right,
  div-eq_of_lt,
}
use predigy.Prelude.{
  leb, if◌then◌else◌, Option-cases, length, All, ℕ, zero, suc, ◌+◌, ◌*◌, ◌^◌, ◌≤◌, ◌<◌, ◌≡◌, refl,
  ◌∙◌, inl, inr, false, none, some, [], ◌∷◌, ◌++◌, arith,
}
use predigy.Prelude.Text.{Text, text}
use predigy.Prelude.Map.{text_key}
use predigy.Oms.{show_u64, push_digit, parse_from}
use predigy.Oms.DigitLaws.{IsDigit, show_u64-IsDigit, show_u64-nonempty, parse_from-show_u64}
use predigy.Core.{position_key}
use predigy.Fix.{
  read_digits, read_exponent, read_fraction, read_unsigned, parse_f64, doublings, nearest_even,
  halvings, nearest, rounded, decimal,
}
use predigy.Prelude.Result.{ok}
use predigy.Exec.{parse_count_fp}

-- The reading of digits that a `u64` is read from.
read_digits_lem :
    (s t : Text) (acc count v : ℕ)
    → parse_from acc s ≡ some v
    → read_digits acc count (s ++ t) ≡ read_digits v (count + length s) t
unfolding parse_from read_digits
read_digits_lem [] t acc count v h = ground arith
read_digits_lem (c ∷ s) t acc count v h = elim (Option-cases (push_digit acc c)) [
  | inl bad ↦ ground arith
  | inr (w, good) ↦ ground (arith, read_digits_lem s t w (count + 1) v)
]

parse_f64-IsDigit :
    (s t : Text) → All IsDigit s → 0 < length s → parse_f64 (s ++ t) ≡ read_unsigned false (s ++ t)
unfolding parse_f64
parse_f64-IsDigit [] t d h = absurd (omega arith)
parse_f64-IsDigit (c ∷ s) t d h = ground arith

halvings_small : (f a b : ℕ) → a < b * 9007199254740992 → halvings f a b ≡ 0
unfolding halvings
halvings_small zero a b h = refl
halvings_small (suc f) a b h = ground arith

nearest_even-exact : (q b : ℕ) → 0 < b → nearest_even (q * b) b ≡ q
unfolding nearest_even
nearest_even-exact q b h = rw (mul-div_cancel q h, mul-mod_left q b) (ground arith)

not-leb : {a b : ℕ} → a < b → leb b (a * 1) ≡ false
not-leb h = ground arith

rounded_whole :
    (n p : ℕ)
    → 0 < p
    → n ≤ 4294967295
    → rounded (if leb (2 ^ 1024 * p) (n * p * 1) then none else some (n * p * 1, p)) ≡ some n
rounded_whole n p h k =
    let below : n * p < 2 ^ 1024 * p = mul-lt-mul_of_pos_right (omega arith) h in
    let twice : n * p * 1 * 2 + p ≡ p + n * (p * 2) = omega arith in
    rw (not-leb below) (
      rw
        (
          twice,
          add-mul-div_right p n {z = p * 2} (omega arith),
          div-eq_of_lt {n = p} {m = p * 2} (omega arith),
        )
        (ground arith))

-- A whole number over a hundred is held exactly.
nearest_whole : (n : ℕ) → n ≤ 4294967295 → rounded (nearest (n * 100) 100) ≡ some n
unfolding nearest
nearest_whole n h =
    let p = 2 ^ doublings 1074 (n * 100) 100 in
    let moved : n * 100 * p ≡ n * p * 100 = omega arith in
    rw
      (
        halvings_small 2000 (n * 100) 100 (omega arith),
        moved,
        nearest_even-exact (n * p) 100 (omega arith),
      )
      (rounded_whole n p (one-le-pow (doublings 1074 (n * 100) 100) 2 (omega arith)) h)

read_unsigned-point :
    (s : Text) (n k : ℕ)
    → read_digits 0 0 s ≡ (n, k, text ".00")
    → 0 < k
    → read_unsigned false s ≡ some (decimal false (n * 100) 100)
unfolding read_unsigned read_fraction read_exponent text read_digits
read_unsigned-point s n k h pos_k =
    let cents : (n * 10 + 0) * 10 + 0 ≡ n * 100 = omega arith in
    rw (h, read_unsigned) (ground (arith, cents))

parse_f64-count :
    (n : ℕ)
    → n ≤ 4294967295
    → parse_f64 (show_u64 n ++ text ".00") ≡ some (decimal false (n * 100) 100)
unfolding text read_digits
parse_f64-count n h =
    parse_f64-IsDigit (show_u64 n) (text ".00") (show_u64-IsDigit n) (show_u64-nonempty n)
    ∙ read_unsigned-point (show_u64 n ++ text ".00") n (0 + length (show_u64 n))
        (read_digits_lem (show_u64 n) (text ".00") 0 0 n (parse_from-show_u64 n (omega arith)))
        (omega (arith, show_u64-nonempty n))

-- A printed count reads as the count.
pub parse_count_fp-show_u64 :
    (n : ℕ) → 1 ≤ n → n ≤ 4294967295 → parse_count_fp (show_u64 n ++ text ".00") ≡ ok n
unfolding parse_count_fp
parse_count_fp-show_u64 n low h =
    rw (parse_f64-count n h, nearest_whole n h, parse_count_fp) (ground arith)
