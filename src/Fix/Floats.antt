-- ===== src/Fix/Floats.antt =====
-- crates/kalshi-fix/src/messages.rs: prices in dollars, as `f64` prints, reads and rounds them. A
-- finite `f64` is a fraction whose denominator is a power of two.
use predigy.Prelude.{
  ltb, leb, ◌==◌, if◌then◌else◌, length, ℕ, zero, suc, ◌+◌, ◌-◌, ◌*◌, ◌/◌, ◌%◌, ◌^◌, Bool, true,
  false, ◌&&◌, ◌||◌, Option, none, some, [], ◌∷◌, ◌++◌, map,
}
use predigy.Prelude.Text.{Text, text, text_eq}
use predigy.Prelude.Word.{u8_max}
use predigy.Prelude.Result.{Result, ◌>>=◌}
use predigy.Oms.{digits, show_u64}
use predigy.Fix.Frames.{Stop, ok_or, show_wide, malformed_tag}
use predigy.Prelude.Map.{text_key}

-- `format!("{:.4}", cents / 100.0)`: the quotient is off the decimal by far less than the last
-- digit's half.
unfoldable pub show_dollars : ℕ → Text
show_dollars cents = show_u64 (cents / 100) ++ (b'.' ∷ show_wide 4 (cents % 100 * 100))

abbrev is_digit : ℕ → Bool
is_digit c = leb b'0' c && leb c b'9'

-- The number that the digits in front continue, how many they are, and what follows them.
unfoldable pub read_digits : ℕ → ℕ → Text → ℕ × ℕ × Text
read_digits acc count [] = (acc, count, [])
read_digits acc count (c ∷ s) =
    let more = read_digits (acc * 10 + (c - b'0')) (count + 1) s in
    if is_digit c then more else (acc, count, c ∷ s)

-- What `parse::<f64>` reads: a sign, and a number over a power of ten, or a name.
pub data Float : Type 0 where
  nan : Float
  infinite : (negative : Bool) → Float
  decimal : (negative : Bool) → (numerator denominator : ℕ) → Float

abbrev power : ℕ → ℕ
power zero = 1
power (suc n) = 10 * power n

-- `digits · 10 ^ -places · 10 ^ ±exponent`.
abbrev scaled : Bool → (digits places : ℕ) → (exponent_negative : Bool) → ℕ → Float
scaled negative digits places true exponent = decimal negative digits (power (places + exponent))
scaled negative digits places false exponent =
    decimal negative (digits * power exponent) (power places)

-- The end of the text, or an exponent with a digit at least.
abbrev signed_digits : Text → Bool × Text
signed_digits [] = (false, [])
signed_digits (c ∷ s) =
    if c == b'-' then (true, s) else if c == b'+' then (false, s) else (false, c ∷ s)

unfoldable pub read_exponent : Bool → (digits places : ℕ) → Text → Option Float
unfolding read_digits
read_exponent negative digits places [] = some (scaled negative digits places false 0)
read_exponent negative digits places (c ∷ s) =
    let (exponent_negative, t) = signed_digits s in
    let (exponent, count, rest) = read_digits 0 0 t in
    if (c == b'e' || c == b'E') && ltb 0 count && length rest == 0
    then some (scaled negative digits places exponent_negative exponent)
    else none

unfoldable pub read_fraction : Bool → (digits count : ℕ) → Text → Option Float
unfolding read_digits read_exponent
read_fraction negative digits count [] =
    if count == 0 then none else read_exponent negative digits 0 []
read_fraction negative digits count (c ∷ s) =
    let (all_digits, places, rest) = read_digits digits 0 s in
    if c == b'.'
    then if count + places == 0 then none else read_exponent negative all_digits places rest
    else if count == 0
    then none
    else read_exponent negative digits 0 (c ∷ s)

abbrev lower : ℕ → ℕ
lower c = if leb b'A' c && leb c b'Z' then c + 32 else c

unfoldable pub read_name : Bool → Text → Option Float
unfolding text_eq text
read_name negative s =
    let t = map lower s in
    if text_eq t (text "nan")
    then some nan
    else if text_eq t (text "inf") || text_eq t (text "infinity")
    then some (infinite negative)
    else none

unfoldable pub read_unsigned : Bool → Text → Option Float
unfolding read_digits read_fraction read_name
read_unsigned negative s =
    let (digits, count, rest) = read_digits 0 0 s in
    elim (read_fraction negative digits count rest) [
      | none ↦ read_name negative s
      | some x ↦ some x
    ]

unfoldable pub parse_f64 : Text → Option Float
unfolding read_unsigned
parse_f64 [] = none
parse_f64 (c ∷ s) =
    if c == b'-'
    then read_unsigned true s
    else if c == b'+'
    then read_unsigned false s
    else read_unsigned false (c ∷ s)

-- The doublings that give the fraction 53 bits before the point; the fuel is the least exponent.
unfoldable pub doublings : ℕ → ℕ → ℕ → ℕ
doublings zero a b = 0
doublings (suc f) a b =
    let rest = doublings f (a * 2) b in if leb (b * 4503599627370496) a then 0 else rest + 1

-- The nearest integer, the even one of two.
unfoldable pub nearest_even : ℕ → ℕ → ℕ
nearest_even a b =
    if ltb (a % b * 2) b then a / b else if ltb b (a % b * 2) then a / b + 1 else a / b + a / b % 2

-- The halvings that bring a large fraction below 2 ^ 53. What needs more is infinite all the same.
unfoldable pub halvings : ℕ → ℕ → ℕ → ℕ
halvings zero a b = 0
halvings (suc f) a b =
    let rest = halvings f a (b * 2) in if ltb a (b * 9007199254740992) then 0 else rest + 1

-- The `f64` nearest to a fraction, or none where it is infinite.
unfoldable pub nearest : ℕ → ℕ → Option (ℕ × ℕ)
nearest a b =
    let s = doublings 1074 a b in
    let k = halvings 2000 a b in
    let m = nearest_even (a * 2 ^ s) (b * 2 ^ k) * 2 ^ k in
    if leb (2 ^ 1024 * 2 ^ s) m then none else some (m, 2 ^ s)

-- `round()`, halves away from zero.
abbrev pub rounded : Option (ℕ × ℕ) → Option ℕ
rounded none = none
rounded (some (n, e)) = some ((n * 2 + e) / (e * 2))

-- `(x * 100.0).round()`.
unfoldable pub hundredths : ℕ → ℕ → Option ℕ
unfolding nearest
hundredths a b = elim (nearest a b) [ none ↦ none | some (m, d) ↦ rounded (nearest (m * 100) d) ]

-- `as i32` turns NaN into 0 and stops at the ends of the range; `u8::try_from` refuses what is
-- below 0 or above 255.
unfoldable pub to_u8 : Float → Option ℕ
unfolding hundredths
to_u8 nan = some 0
to_u8 (infinite negative) = none
to_u8 (decimal negative a b) = elim (hundredths a b) [
  | none ↦ none
  | some cents ↦ if leb cents (if negative then 0 else u8_max) then some cents else none
]

unfoldable pub parse_price_cents : Text → ℕ → Result ℕ Stop
unfolding parse_f64 to_u8
parse_price_cents s tag = do
  dollars ← ok_or (parse_f64 s) (malformed_tag tag s)
  ok_or (to_u8 dollars) (malformed_tag tag s)
