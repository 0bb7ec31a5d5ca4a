-- ===== src/Fix/RoundTrip.antt =====
-- crates/kalshi-fix/src/frame.rs: what a decoder makes of an encoded message.
use mathlib.Core.List.{append_assoc}
use native.Mathlib.Nat.{zero-add}
use predigy.Prelude.{
  ==_refl, length, length-append, All, All-append, ℕ, suc, ◌+◌, ◌≤◌, ◌<◌, ◌≡◌, refl, ◌∙◌, ◌≢◌, some,
  [], ◌∷◌, ◌++◌, arith,
}
use predigy.Prelude.Text.{text}
use predigy.Oms.{show_u64}
use predigy.Fix.{
  Bytes, utf8, begin_string, body_length, Field, FieldList, encode_field, encode_body, begin_field,
  length_field, checksum_of, trailer_of, encode, parse_fields, decode_fields, decode_message,
}
use predigy.Fix.FieldLaws.{IsField, length-encode_field, unframed, parse_fields-encode_body}
use predigy.Fix.FrameLaws.{
  head_of, framed, Fits, length_field_lem, length_value-IsField, length-trailer_of,
  decode_message-framed,
}
use predigy.Prelude.Result.{ok}

-- The body of a message: fields that the format can carry, none of them a framing field.
abbrev pub IsBodyField : Field → Type 0
IsBodyField f = IsField f × (f.0 ≢ begin_string) × (f.0 ≢ body_length)

abbrev pub IsMessage : FieldList → Type 0
IsMessage fields = All IsBodyField fields × Fits (encode_body fields)

unframed-IsBodyField : (fields : FieldList) → All IsBodyField fields → unframed fields ≡ fields
unfolding unframed
unframed-IsBodyField [] w = refl
unframed-IsBodyField ((t, v) ∷ fields) w = ground (arith, unframed-IsBodyField fields w.1)

All-IsField : (fields : FieldList) → All IsBodyField fields → All IsField fields
All-IsField [] w = tt
All-IsField (f ∷ fields) w = (w.0.0, All-IsField fields w.1)

pub checksum_of-lt : (l : Bytes) → checksum_of l < 256
unfolding checksum_of
checksum_of-lt l = omega arith

pub encode_lem :
    (fields : FieldList)
    → encode fields
      ≡ head_of (encode_body fields) ++ trailer_of (checksum_of (head_of (encode_body fields)))
unfolding encode
encode_lem fields = refl

pub encode-append :
    (fields : FieldList) (rest : Bytes)
    → encode fields ++ rest
      ≡ framed (encode_body fields) (checksum_of (head_of (encode_body fields))) rest
encode-append fields rest = rw encode_lem (
    append_assoc (head_of (encode_body fields))
      (trailer_of (checksum_of (head_of (encode_body fields)))) rest)

pub length-encode :
    (fields : FieldList) → length (encode fields) ≡ length (head_of (encode_body fields)) + 7
length-encode fields =
    let c = checksum_of (head_of (encode_body fields)) in
    rw (encode_lem, length-append (head_of (encode_body fields)) (trailer_of c))
      (omega (arith, length-trailer_of c (checksum_of-lt (head_of (encode_body fields)))))

-- The two fields in front of a body.
abbrev header : ℕ → FieldList
header n = (begin_string, text "FIX.4.4") ∷ (body_length, show_u64 n) ∷ []

begin_field_lem : encode_field (begin_string, text "FIX.4.4") ≡ begin_field
unfolding encode_field show_u64 utf8 text
begin_field_lem = refl

encode_body-header :
    (n : ℕ) (fields : FieldList)
    → encode_body (header n ++ fields) ≡ begin_field ++ (length_field n ++ encode_body fields)
unfolding encode_body
encode_body-header n fields = rw (begin_field_lem, ← length_field_lem n)

begin_value-IsField : IsField (begin_string, text "FIX.4.4")
unfolding text
begin_value-IsField = ground arith

header-IsField : (n : ℕ) → All IsField (header n)
unfolding text
header-IsField n = (begin_value-IsField, (length_value-IsField n, tt))

decode_fields_lem :
    (buf : Bytes) (body_end end : ℕ) (fields : FieldList)
    → parse_fields (suc (length buf)) buf body_end 0 ≡ ok fields
    → decode_fields buf body_end end ≡ ok (some (fields, end))
unfolding decode_fields
decode_fields_lem buf body_end end fields e = rw e

unframed-header : (n : ℕ) (fields : FieldList) → unframed (header n ++ fields) ≡ unframed fields
unfolding unframed
unframed-header n fields = refl

length-encode_body : (fields : FieldList) → length fields ≤ length (encode_body fields)
unfolding encode_body
length-encode_body [] = omega arith
length-encode_body ((t, v) ∷ fields) = omega (
  arith,
  length-append (encode_field (t, v)) (encode_body fields),
  length-encode_field t v,
  length-encode_body fields,
)

decode_fields-encode :
    (fields : FieldList) (rest : Bytes) (end : ℕ)
    → All IsBodyField fields
    → decode_fields
        (head_of (encode_body fields) ++ rest)
        (length (head_of (encode_body fields)))
        end
      ≡ ok (some (fields, end))
decode_fields-encode fields rest end w = decode_fields_lem buf (length head) end fields loop
  where
    n : ℕ
    n = length (encode_body fields)

    head : Bytes
    head = head_of (encode_body fields)

    buf : Bytes
    buf = head ++ rest

    whole : FieldList
    whole = header n ++ fields

    room : length whole < suc (length buf)
    room = omega (
      arith,
      length-append head rest,
      length-append (length_field n) (encode_body fields),
      length-encode_body fields,
    )

    loop : parse_fields (suc (length buf)) buf (length head) 0 ≡ ok fields
    loop =
        rw
          (
            encode_body-header n fields,
            unframed-header n fields,
            unframed-IsBodyField fields w,
            zero-add,
          )
          at
          (parse_fields-encode_body (suc (length buf)) [] whole rest room
            (All-append IsField (header n) fields (header-IsField n) (All-IsField fields w)))

-- An encoded message decodes to its fields and its length, whatever bytes follow it.
pub decode_message-encode :
    (fields : FieldList) (rest : Bytes)
    → IsMessage fields
    → decode_message (encode fields ++ rest) ≡ ok (some (fields, length (encode fields)))
decode_message-encode fields rest (w, fits) = rw encode-append (
    decode_message-framed body rest c fits (checksum_of-lt (head_of body))
    ∙ rw (==_refl c, length-encode fields)
        (decode_fields-encode fields (trailer_of c ++ rest) (length (head_of body) + 7) w))
  where
    body : Bytes
    body = encode_body fields

    c : ℕ
    c = checksum_of (head_of body)
