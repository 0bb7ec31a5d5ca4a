-- ===== src/Fix/Tests.antt =====
-- Runs of crates/kalshi-fix on concrete bytes.
use predigy.Prelude.{
  ◌==◌, passes_until, length, ℕ, ◌≡◌, refl, Bool, true, false, some, [], ◌∷◌, ◌++◌,
}
use predigy.Prelude.Text.{text, text_eq}
use predigy.Prelude.Result.{ok, err}
use predigy.Core.{position_key}
use predigy.Oms.{show_u64}
use predigy.Fix.{
  Bytes, utf8, price_tag, soh, Stop, FieldList, encode_field, encode_body, begin_field,
  length_field, checksum_of, show_wide, trailer_of, encode, decode_message, show_dollars,
  parse_price_cents, ts_field, doublings, halvings, nearest_even,
}

abbrev heartbeat : FieldList
heartbeat = (35, text "0") ∷ (49, text "SEN") ∷ (56, text "T=é") ∷ (34, text "1") ∷ []

abbrev heartbeat_bytes : Bytes
heartbeat_bytes = encode heartbeat

decode_heartbeat :
    decode_message (heartbeat_bytes ++ 56 ∷ []) ≡ ok (some (heartbeat, length heartbeat_bytes))
unfolding encode encode_body encode_field length_field trailer_of show_wide show_u64 utf8
    checksum_of decode_message text
decode_heartbeat = refl

-- A declared length near the end of `usize` takes the end of the trailer past it.
abbrev huge_length : Bytes
huge_length = begin_field ++ text "9=18446744073709551576" ++ soh ∷ text "35=0"

decode_huge_length : decode_message huge_length ≡ err Stop.panics
unfolding decode_message text
decode_huge_length = refl

price_test : ℕ → Bool
unfolding show_dollars show_wide show_u64 parse_price_cents text_eq
price_test c = elim (parse_price_cents (show_dollars c) price_tag) [ ok d ↦ d == c | err e ↦ false ]

price_tests : passes_until price_test 256 ≡ true
unfolding price_test passes_until doublings halvings nearest_even
price_tests = refl

half_cent : parse_price_cents (text "0.285") price_tag ≡ ok 28
unfolding parse_price_cents text doublings halvings nearest_even
half_cent = refl

not_a_number : parse_price_cents (text "NaN") price_tag ≡ ok 0
unfolding parse_price_cents text doublings halvings nearest_even
not_a_number = refl

exponent_price : parse_price_cents (text "+42e-2") price_tag ≡ ok 42
unfolding parse_price_cents text doublings halvings nearest_even
exponent_price = refl

epoch_text : ts_field 1762239566007 ≡ text "20251104-06:59:26.007"
unfolding ts_field text show_u64
epoch_text = refl
