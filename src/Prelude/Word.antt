-- ===== src/Prelude/Word.antt =====
-- Machine words: an unsigned value is a number below its modulus. Without overflow checks, as in
-- the release profile, `+`, `-` and `*` wrap; the saturating forms stop at the ends of the range.
use Prim.Native.Nat.{ℕ, ◌+◌, ◌-◌, ◌*◌, ◌/◌, ◌%◌, min}
use predigy.Prelude.Tests.{ltb, if◌then◌else◌}
use predigy.Prelude.Int.{ℤ, ◌+ℤ◌, ltb_ℤ, pos, negsuc}

abbrev pub u8_max : ℕ
u8_max = 255

abbrev pub u16_max : ℕ
u16_max = 65535

abbrev pub u32_max : ℕ
u32_max = 4294967295

abbrev pub u64_max : ℕ
u64_max = 18446744073709551615

abbrev pub u64_mod : ℕ
u64_mod = 18446744073709551616

abbrev pub i32_max : ℕ
i32_max = 2147483647

abbrev pub i64_max : ℤ
i64_max = pos 9223372036854775807

abbrev pub i64_min : ℤ
i64_min = negsuc 9223372036854775807

-- `u32::saturating_add` and `u64::saturating_add`.
abbrev pub saturating_add32 : ℕ → ℕ → ℕ
saturating_add32 a b = min (a + b) u32_max

abbrev pub saturating_add64 : ℕ → ℕ → ℕ
saturating_add64 a b = min (a + b) u64_max

abbrev pub add64 : ℕ → ℕ → ℕ
add64 a b = (a + b) % u64_mod

abbrev pub sub64 : ℕ → ℕ → ℕ
sub64 a b = (a + u64_mod - b) % u64_mod

abbrev pub mul64 : ℕ → ℕ → ℕ
mul64 a b = a * b % u64_mod

-- `u64::div_ceil` by a positive divisor.
abbrev pub div_ceil : ℕ → ℕ → ℕ
div_ceil a b = if ltb 0 (a % b) then a / b + 1 else a / b

-- `i64::saturating_add`.
unfoldable pub saturating_add_i64 : ℤ → ℤ → ℤ
saturating_add_i64 a b =
    let s = a +ℤ b in if ltb_ℤ i64_max s then i64_max else if ltb_ℤ s i64_min then i64_min else s
