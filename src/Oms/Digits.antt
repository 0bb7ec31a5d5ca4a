-- ===== src/Oms/Digits.antt =====
-- crates/oms/src/cid.rs: the text of sequence numbers, as `format!` writes it and `parse` reads it.
use predigy.Prelude.{
  ltb, leb, ◌==◌, if◌then◌else◌, length, ℕ, zero, suc, ◌+◌, ◌-◌, ◌*◌, ◌/◌, ◌%◌, Bool, ◌&&◌, ◌||◌,
  Option, none, some, [], ◌∷◌, ◌++◌,
}
use predigy.Core.{position_key}
use predigy.Prelude.Map.{text_key}
use predigy.Prelude.Word.{u64_max}
use predigy.Prelude.Text.{Text}

-- The decimal digits of a number below 10 to the power of the fuel, the first digit first. Fuel 20
-- is enough for every `u64`.
unfoldable pub digits : ℕ → ℕ → Text
digits zero n = (n % 10 + b'0') ∷ []
digits (suc f) n =
    let front = digits f (n / 10) in
    if ltb n 10 then (n + b'0') ∷ [] else front ++ (n % 10 + b'0') ∷ []

abbrev pub replicate : ℕ → ℕ → Text
replicate zero c = []
replicate (suc n) c = c ∷ replicate n c

unfoldable pub show_u64 : ℕ → Text
unfolding digits
show_u64 n = digits 20 n

-- `{:08}`.
unfoldable pub show_padded : ℕ → Text
unfolding show_u64
show_padded n = replicate (8 - length (show_u64 n)) b'0' ++ show_u64 n

-- One more digit, in 64 bits.
abbrev pub push_digit : ℕ → ℕ → Option ℕ
push_digit acc c =
    if leb b'0' c && leb c b'9'
    then if leb (acc * 10 + (c - b'0')) u64_max then some (acc * 10 + (c - b'0')) else none
    else none

unfoldable pub parse_from : ℕ → Text → Option ℕ
parse_from acc [] = some acc
parse_from acc (c ∷ s) = elim (push_digit acc c) [ none ↦ none | some v ↦ parse_from v s ]

-- `parse::<u64>`: at least one digit, after at most one `+`.
unfoldable pub parse_u64 : Text → Option ℕ
unfolding parse_from
parse_u64 [] = none
parse_u64 (c ∷ []) = parse_from 0 (c ∷ [])
parse_u64 (c ∷ d ∷ s) = if c == b'+' then parse_from 0 (d ∷ s) else parse_from 0 (c ∷ d ∷ s)

-- `char::is_whitespace`.
unfoldable pub is_whitespace : ℕ → Bool
is_whitespace c =
    (leb 9 c && leb c 13)
    || c == 0x20
    || c == 0x85
    || c == 0xa0
    || c == 0x1680
    || (leb 0x2000 c && leb c 0x200a)
    || c == 0x2028
    || c == 0x2029
    || c == 0x202f
    || c == 0x205f
    || c == 0x3000

unfoldable pub trim_start : Text → Text
unfolding is_whitespace
trim_start [] = []
trim_start (c ∷ s) = let rest = trim_start s in if is_whitespace c then rest else c ∷ s

-- What stands before the white space at the end.
unfoldable pub trim_end : Text → Text
unfolding is_whitespace
trim_end [] = []
trim_end (c ∷ s) = elim (trim_end s) [
  | [] ↦ if is_whitespace c then [] else c ∷ []
  | d ∷ r ↦ c ∷ d ∷ r
]

unfoldable pub trim : Text → Text
unfolding trim_start trim_end
trim s = trim_end (trim_start s)
