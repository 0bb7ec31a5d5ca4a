-- ===== src/Fix/Partial.antt =====
-- crates/kalshi-fix/src/frame.rs: the decoder on the first bytes of a message.
use mathlib.Core.List.{append_assoc, append-nil}
use predigy.Prelude.{
  ltb, lt→ltb, Bool-cases, length, length-append, ℕ, ◌+◌, ◌≤◌, ◌<◌, ◌≡◌, refl, sym, ap, ◌∙◌, ◌⊎◌,
  inl, inr, false, none, [], ◌∷◌, ◌++◌, arith,
}
use predigy.Prelude.Word.{u64_mod, add64}
use predigy.Prelude.Result.{ok}
use predigy.Fix.{
  Bytes, contains, soh, FieldList, encode_body, begin_field, length_field, checksum_of, trailer_of,
  encode, find_subslice, decode_body, decode_length, decode_message,
}
use predigy.Fix.Utf8Laws.{Lacks}
use predigy.Fix.FrameLaws.{
  head_of, Fits, parse_field-length_field, length-length_field, contains-length_field,
  decode_message_lem, decode_length_lem, length-trailer_of,
}
use predigy.Oms.{show_u64}
use predigy.Oms.DigitLaws.{show_u64-IsDigit, parse_u64-show_u64}
use predigy.Fix.FieldLaws.{IsDigit-Lacks}
use predigy.Fix.RoundTrip.{checksum_of-lt, encode_lem}

-- Two ways to cut the same bytes: one cut is not after the other.
pub append-cuts :
    (a b c d : Bytes)
    → a ++ b ≡ c ++ d
    → ((t : Bytes) × (c ≡ a ++ t) × (t ++ d ≡ b))
      ⊎ ((x : ℕ) × (t : Bytes) × (a ≡ c ++ x ∷ t) × ((x ∷ t) ++ b ≡ d))
append-cuts [] b c d e = inl (c, refl, sym e)
append-cuts (x ∷ a) b [] d e = inr (x, a, refl, e)
append-cuts (x ∷ a) b (y ∷ c) d e = elim (append-cuts a b c d (cc e)) [
  | inl (t, h, k) ↦ inl (t, cc (e, h), k)
  | inr (z, t, h, k) ↦ inr (z, t, cc (e, h), k)
]

contains-Lacks : (x : ℕ) (l : Bytes) → Lacks x l → contains x l ≡ false
unfolding contains
contains-Lacks x [] h = refl
contains-Lacks x (y ∷ l) h = ground (arith, contains-Lacks x l h.1)

-- What stands strictly before the separator at the end lacks it.
Lacks-before : (s y : ℕ) (u l t : Bytes) → u ++ s ∷ [] ≡ l ++ y ∷ t → Lacks s u → Lacks s l
Lacks-before s y u [] t e h = tt
Lacks-before s y [] (z ∷ []) t e h = cc e
Lacks-before s y [] (z ∷ w ∷ l) t e h = cc e
Lacks-before s y (w ∷ u) (z ∷ l) t e h =
    let same : w ≡ z = cc e in (rw (← same) h.0, Lacks-before s y u l t (cc e) h.1)

pub decode_message_short : (p : Bytes) → length p < 10 → decode_message p ≡ ok none
unfolding decode_message find_subslice
decode_message_short p h = rw (lt→ltb (length p) 10 h, decode_message, find_subslice)

decode_length_waits :
    (l : Bytes) → contains soh l ≡ false → decode_length (begin_field ++ l) ≡ ok none
unfolding decode_length
decode_length_waits l h = elim (Bool-cases (ltb (length (begin_field ++ l)) 14)) [
  | inl a ↦ rw a
  | inr a ↦ rw (a, h)
]

decode_body_waits :
    (buf : Bytes) (body_end : ℕ)
    → length buf < add64 body_end 7
    → decode_body buf body_end ≡ ok none
unfolding decode_body
decode_body_waits buf body_end h = rw (lt→ltb (length buf) (add64 body_end 7) h)

-- The length field stands complete, the trailer does not.
decode_message_in_body :
    (n : ℕ) (l : Bytes)
    → n + 64 < u64_mod
    → length l < n + 7
    → decode_message (begin_field ++ (length_field n ++ l)) ≡ ok none
decode_message_in_body n l fits h =
    decode_message_lem (length_field n ++ l)
    ∙ decode_length_lem (length_field n ++ l) n (length (length_field n)) (show_u64 n)
        (omega (arith, wide, length-append (length_field n) l)) (contains-length_field n l)
        (parse_field-length_field n l) (parse_u64-show_u64 n (omega arith))
    ∙ decode_body_waits (begin_field ++ (length_field n ++ l))
        (add64 (10 + length (length_field n)) n)
        (omega (arith, wide, length-append (length_field n) l))
  where
    wide : (4 ≤ length (length_field n)) × (length (length_field n) ≤ 24)
    wide = length-length_field n

abbrev digits_of : ℕ → Bytes
digits_of n = b'9' ∷ b'=' ∷ show_u64 n

length_field-cut : (n : ℕ) → digits_of n ++ soh ∷ [] ≡ length_field n
unfolding length_field
length_field-cut n = refl

digits_of-Lacks : (n : ℕ) → Lacks soh (digits_of n)
digits_of-Lacks n =
    (λ p. cc, (λ p. cc, IsDigit-Lacks soh (show_u64 n) (inl (omega arith)) (show_u64-IsDigit n)))

decode_message_in_length :
    (n y : ℕ) (l t : Bytes)
    → length_field n ≡ l ++ y ∷ t
    → decode_message (begin_field ++ l) ≡ ok none
decode_message_in_length n y l t e =
    decode_message_lem l
    ∙ decode_length_waits l (
        contains-Lacks soh l
          (Lacks-before soh y (digits_of n) l t (length_field-cut n ∙ e) (digits_of-Lacks n)))

-- On the first bytes of an encoded message, with one byte missing or more, the decoder asks for
-- more bytes.
pub decode_message_partial :
    (fields : FieldList) (p q : Bytes)
    → Fits (encode_body fields)
    → encode fields ≡ p ++ q
    → 0 < length q
    → decode_message p ≡ ok none
decode_message_partial fields p q fits e h =
    elim (append-cuts p q begin_field after (sym e ∙ whole)) [
      | inl ([], same, k) ↦
          rw (sym (append-nil p) ∙ sym same)
            (decode_message_in_length n b'9' [] _ (sym (length_field-cut n)))
      | inl (x ∷ t, same, k) ↦
          decode_message_short p (omega (arith, ap length same, length-append p (x ∷ t)))
      | inr (x, l, same, k) ↦ rw same (behind_header (x ∷ l) k)
    ]
  where
    body : Bytes
    body = encode_body fields

    n : ℕ
    n = length body

    trailer : Bytes
    trailer = trailer_of (checksum_of (head_of body))

    seven : length trailer ≡ 7
    seven = length-trailer_of (checksum_of (head_of body)) (checksum_of-lt (head_of body))

    after : Bytes
    after = length_field n ++ (body ++ trailer)

    whole : encode fields ≡ begin_field ++ after
    whole = rw encode_lem (cc (append_assoc (length_field n) body trailer))

    behind_header : (l : Bytes) → l ++ q ≡ after → decode_message (begin_field ++ l) ≡ ok none
    behind_header l k = elim (append-cuts l q (length_field n) (body ++ trailer) k) [
      | inl ([], same, m) ↦
          rw (sym (append-nil l) ∙ sym same, ← append-nil (length_field n))
            (decode_message_in_body n [] fits (omega arith))
      | inl (x ∷ t, same, m) ↦ decode_message_in_length n x l t same
      | inr (x, t, same, m) ↦ rw same (
          decode_message_in_body n (x ∷ t) fits (
            omega (arith, ap length m, length-append (x ∷ t) q, length-append body trailer, seven)))
    ]
