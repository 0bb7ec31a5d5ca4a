-- ===== src/Fix/FrameLaws.antt =====
-- crates/kalshi-fix/src/frame.rs: whole messages, encoded and decoded.
use mathlib.Core.List.{append_assoc}
use predigy.Prelude.{
  ltb, ◌==◌, if◌then◌else◌, ==_iff, Option-cases, passes_until, passes_until_lem, length,
  length-append, ℕ, ◌+◌, ◌≤◌, ◌<◌, ◌≡◌, refl, ap, ◌∙◌, inl, inr, Bool, true, false, ◌&&◌, none,
  some, [], ◌∷◌, ◌++◌, arith,
}
use predigy.Prelude.Text.{Text}
use predigy.Prelude.Word.{u8_max, u64_mod, add64}
use predigy.Prelude.Result.{ok}
use predigy.Oms.{show_u64, parse_u64}
use predigy.Fix.{
  Bytes, take, slice, contains, starts_with, from_utf8, soh, body_length, fails, parse_up_to,
  encode_field, begin_field, length_field, checksum_of, show_wide, trailer_of, parse_field,
  ends_in_soh, decode_fields, decode_trailer, decode_body, decode_length, decode_message, checksum,
}
use predigy.Fix.SliceLaws.{take-append, slice-append, contains-append}
use predigy.Fix.FieldLaws.{
  IsField, utf8-IsDigit, IsDigit-IsString, IsDigit-Lacks, parse_field-encode_field,
}
use predigy.Oms.DigitLaws.{show_u64-IsDigit, show_u64-nonempty, show_u64-short, parse_u64-show_u64}

-- What a message has before its trailer.
abbrev pub head_of : Bytes → Bytes
head_of body = begin_field ++ (length_field (length body) ++ body)

abbrev pub framed : Bytes → ℕ → Bytes → Bytes
framed body claimed rest = head_of body ++ (trailer_of claimed ++ rest)

-- Room for the header and the trailer in a `usize`.
abbrev pub Fits : Bytes → Type 0
Fits body = length body + 64 < u64_mod

nine : show_u64 9 ≡ b'9' ∷ []
unfolding show_u64
nine = refl

pub length_field_lem : (n : ℕ) → length_field n ≡ encode_field (body_length, show_u64 n)
unfolding length_field encode_field
length_field_lem n = rw (utf8-IsDigit (show_u64 n) (show_u64-IsDigit n)) (cc nine)

pub length_value-IsField : (n : ℕ) → IsField (body_length, show_u64 n)
length_value-IsField n = (
  omega arith,
  IsDigit-IsString (show_u64 n) (show_u64-IsDigit n),
  IsDigit-Lacks soh (show_u64 n) (inl (omega arith)) (show_u64-IsDigit n),
)

pub parse_field-length_field :
    (n : ℕ) (rest : Bytes)
    → parse_field (length_field n ++ rest) ≡ ok ((body_length, show_u64 n), length (length_field n))
parse_field-length_field n rest =
    rw length_field_lem
      (parse_field-encode_field body_length (show_u64 n) rest (length_value-IsField n))

pub length-length_field : (n : ℕ) → (4 ≤ length (length_field n)) × (length (length_field n) ≤ 24)
unfolding length_field
length-length_field n =
    omega (arith, length-append (show_u64 n) (soh ∷ []), show_u64-nonempty n, show_u64-short n)

pub contains-length_field : (n : ℕ) (rest : Bytes) → contains soh (length_field n ++ rest) ≡ true
unfolding length_field
contains-length_field n rest =
    rw (append_assoc (b'9' ∷ b'=' ∷ show_u64 n) (soh ∷ []) rest)
      (contains-append soh (b'9' ∷ b'=' ∷ show_u64 n) rest)

pub decode_message_lem :
    (l : Bytes) → decode_message (begin_field ++ l) ≡ decode_length (begin_field ++ l)
unfolding decode_message
decode_message_lem l = ground arith

header_in : (l : Bytes) → 4 ≤ length l → ltb (length (begin_field ++ l)) 14 ≡ false
header_in l h = ground arith

pub decode_length_lem :
    (l : Bytes) (n m : ℕ) (v : Text)
    → 4 ≤ length l
    → contains soh l ≡ true
    → parse_field l ≡ ok ((body_length, v), m)
    → parse_u64 v ≡ some n
    → decode_length (begin_field ++ l) ≡ decode_body (begin_field ++ l) (add64 (10 + m) n)
unfolding decode_length
decode_length_lem l n m v h c p e = rw (header_in l h, c, p, e)

decode_body_lem :
    (a b c : Bytes)
    → length a + 7 < u64_mod
    → length b ≡ 7
    → starts_with b (b'1' ∷ b'0' ∷ b'=' ∷ []) ≡ true
    → ends_in_soh b ≡ true
    → decode_body (a ++ (b ++ c)) (length a)
      ≡ decode_trailer (a ++ (b ++ c)) (length a) (length a + 7) b
unfolding decode_body
decode_body_lem a b c fits seven starts ends =
    let no_wrap : add64 (length a) 7 ≡ length a + 7 = omega arith in
    let long : length (a ++ (b ++ c)) ≡ length a + (7 + length c) =
      omega (arith, length-append a (b ++ c), length-append b c) in
    let cut = slice-append (length a) (length a + 7) a b c refl (omega arith) in
    rw (no_wrap, long, cut, starts, ends) (ground arith)

-- What the decoder checks of a trailer, and the number it reads there.
reads : ℕ → Bytes → Bool
unfolding from_utf8 parse_up_to slice
reads c trailer = elim (from_utf8 (slice 3 6 trailer)) [
  | none ↦ false
  | some s ↦ elim (parse_up_to u8_max s) [ none ↦ false | some n ↦ n == c ]
]

trailer_test : ℕ → Bool
unfolding trailer_of show_wide show_u64 starts_with ends_in_soh reads
trailer_test c =
    length (trailer_of c) == 7
    && starts_with (trailer_of c) (b'1' ∷ b'0' ∷ b'=' ∷ [])
    && ends_in_soh (trailer_of c)
    && reads c (trailer_of c)

trailer_tests : (c : ℕ) → c < 256 → trailer_test c ≡ true
unfolding trailer_test passes_until
trailer_tests c h = passes_until_lem trailer_test 256 c h refl

four :
    (a b c d : Bool) → (a && b && c && d) ≡ true → (a ≡ true) × (b ≡ true) × (c ≡ true) × (d ≡ true)
four a b c d h = ground arith

trailer_facts :
    (c : ℕ)
    → c < 256
    → (length (trailer_of c) ≡ 7)
      × (starts_with (trailer_of c) (b'1' ∷ b'0' ∷ b'=' ∷ []) ≡ true)
      × (ends_in_soh (trailer_of c) ≡ true)
      × (reads c (trailer_of c) ≡ true)
unfolding trailer_test
trailer_facts c h =
    let (seven, starts, ends, read) = four (length (trailer_of c) == 7) _ _ _ (trailer_tests c h) in
    ((==_iff (length (trailer_of c)) 7).0 seven, starts, ends, read)

pub length-trailer_of : (c : ℕ) → c < 256 → length (trailer_of c) ≡ 7
length-trailer_of c h = (trailer_facts c h).0

decode_trailer_lem :
    (buf trailer : Bytes) (body_end end c : ℕ)
    → reads c trailer ≡ true
    → decode_trailer buf body_end end trailer ≡ (
        if c == checksum_of (take body_end buf)
        then decode_fields buf body_end end
        else fails (checksum (checksum_of (take body_end buf)) c))
unfolding decode_trailer reads
decode_trailer_lem buf trailer body_end end c h =
    elim (Option-cases (from_utf8 (slice 3 6 trailer))) [
      | inl bad ↦ cc
      | inr (s, good) ↦ elim (Option-cases (parse_up_to u8_max s)) [
        | inl bad ↦ cc
        | inr (n, read) ↦ ground arith
      ]
    ]

pub decode_message-framed :
    (body rest : Bytes) (c : ℕ)
    → Fits body
    → c < 256
    → decode_message (framed body c rest) ≡ (
        if c == checksum_of (head_of body)
        then decode_fields (framed body c rest) (length (head_of body)) (length (head_of body) + 7)
        else fails (checksum (checksum_of (head_of body)) c))
decode_message-framed body rest c fits small =
    decode_message_lem ((field ++ body) ++ after)
    ∙ lengths
    ∙ ap (decode_body (framed body c rest)) starts
    ∙ decode_body_lem head (trailer_of c) rest fit facts.0 facts.1 facts.2
    ∙ rw (take-append head after) at (
        decode_trailer_lem (framed body c rest) (trailer_of c) (length head) (length head + 7) c
          facts.3)
  where
    n : ℕ
    n = length body

    value : Text
    value = show_u64 n

    field : Bytes
    field = length_field n

    after : Bytes
    after = trailer_of c ++ rest

    head : Bytes
    head = head_of body

    facts :
        (length (trailer_of c) ≡ 7)
        × (starts_with (trailer_of c) (b'1' ∷ b'0' ∷ b'=' ∷ []) ≡ true)
        × (ends_in_soh (trailer_of c) ≡ true)
        × (reads c (trailer_of c) ≡ true)
    facts = trailer_facts c small

    wide : (4 ≤ length field) × (length field ≤ 24)
    wide = length-length_field n

    read : parse_field (field ++ (body ++ after)) ≡ ok ((body_length, value), length field)
    read = parse_field-length_field n (body ++ after)

    grouped : (field ++ body) ++ after ≡ field ++ (body ++ after)
    grouped = append_assoc field body after

    has_soh : contains soh (field ++ (body ++ after)) ≡ true
    has_soh = contains-length_field n (body ++ after)

    starts : add64 (10 + length field) n ≡ length head
    starts = omega (arith, length-append field body, wide)

    fit : length head + 7 < u64_mod
    fit = omega (arith, length-append field body, wide)

    lengths :
        decode_length (begin_field ++ ((field ++ body) ++ after))
        ≡ decode_body (framed body c rest) (add64 (10 + length field) n)
    lengths = rw grouped (
        decode_length_lem (field ++ (body ++ after)) n (length field) value
          (omega (arith, length-append field (body ++ after), wide)) has_soh read
          (parse_u64-show_u64 n (omega arith)))
