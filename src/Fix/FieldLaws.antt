-- ===== src/Fix/FieldLaws.antt =====
-- crates/kalshi-fix/src/frame.rs: printed fields and their parsing.
use mathlib.Core.List.{append_assoc}
use predigy.Prelude.{
  ◌==◌, if◌then◌else◌, length, length-append, All, All-append, ℕ, zero, suc, ◌+◌, ◌≤◌, ◌<◌, ◌≡◌,
  refl, sym, ◌∙◌, ◌≢◌, ◌⊎◌, inl, inr, ◌||◌, some, [], ◌∷◌, ◌++◌, arith,
}
use predigy.Prelude.Text.{Text}
use predigy.Prelude.Word.{u32_max, u64_max}
use predigy.Prelude.Result.{ok}
use predigy.Oms.{show_u64}
use predigy.Oms.DigitLaws.{IsDigit, show_u64-IsDigit, parse_u64-show_u64}
use predigy.Fix.{
  Bytes, take, drop, slice, index_of, utf8_char, utf8, from_utf8, soh, begin_string, body_length,
  Field, FieldList, parse_up_to, encode_field, encode_body, read_field, parse_field, parse_fields,
}
use predigy.Fix.Utf8Laws.{IsString, from_utf8-utf8, Lacks, utf8-Lacks}
use predigy.Fix.SliceLaws.{take-append, drop-append, slice-append, index_of-Lacks}

-- A field that the format can carry: the value is a string without the separator.
abbrev pub IsField : Field → Type 0
IsField (t, v) = (t ≤ u32_max) × IsString v × Lacks soh v

-- Digits are their own bytes.
pub utf8-IsDigit : (s : Text) → All IsDigit s → utf8 s ≡ s
unfolding utf8 utf8_char
utf8-IsDigit [] d = refl
utf8-IsDigit (c ∷ s) d = ground (arith, utf8-IsDigit s d.1)

pub IsDigit-IsString : (s : Text) → All IsDigit s → IsString s
IsDigit-IsString [] d = tt
IsDigit-IsString (c ∷ s) d = (ground (arith, d.0), IsDigit-IsString s d.1)

pub IsDigit-Lacks : (x : ℕ) (s : Text) → (x < b'0') ⊎ (b'9' < x) → All IsDigit s → Lacks x s
IsDigit-Lacks x [] o d = tt
IsDigit-Lacks x (c ∷ s) o d = (ground (arith, d.0), IsDigit-Lacks x s o d.1)

from_utf8-IsDigit : (s : Text) → All IsDigit s → from_utf8 s ≡ some s
from_utf8-IsDigit s d = rw (utf8-IsDigit s d) at (from_utf8-utf8 s (IsDigit-IsString s d))

pub parse_up_to-show_u64 :
    (top n : ℕ) → n ≤ top → top ≤ u64_max → parse_up_to top (show_u64 n) ≡ some n
unfolding parse_up_to
parse_up_to-show_u64 top n h k = ground (arith, parse_u64-show_u64 n (omega arith))

read_field-show_u64 :
    (t n : ℕ) (v : Text)
    → t ≤ u32_max
    → IsString v
    → read_field (show_u64 t) (utf8 v) n ≡ ok ((t, v), n)
unfolding read_field
read_field-show_u64 t n v h s = rw (
  from_utf8-IsDigit (show_u64 t) (show_u64-IsDigit t),
  parse_up_to-show_u64 u32_max t h (omega arith),
  from_utf8-utf8 v s,
)

parse_field_lem :
    (buf : Bytes) (e p : ℕ)
    → index_of b'=' buf ≡ some e
    → index_of soh buf ≡ some p
    → e ≤ p
    → parse_field buf ≡ read_field (take e buf) (slice (e + 1) p buf) (p + 1)
unfolding parse_field
parse_field_lem buf e p h k le = ground arith

-- A field is cut at its first `=` and at its separator.
parse_field-split :
    (a v rest : Bytes)
    → Lacks b'=' a
    → Lacks soh a
    → Lacks soh v
    → parse_field (a ++ (b'=' ∷ v ++ soh ∷ rest)) ≡ read_field a v (length a + (length v + 2))
parse_field-split a v rest h k s = whole ∙ parts
  where
    buf : Bytes
    buf = a ++ (b'=' ∷ v ++ soh ∷ rest)

    grouped : buf ≡ (a ++ b'=' ∷ v) ++ soh ∷ rest
    grouped = sym (append_assoc a (b'=' ∷ v) (soh ∷ rest))

    long : length (a ++ b'=' ∷ v) ≡ length a + (length v + 1)
    long = omega (arith, length-append a (b'=' ∷ v))

    ends : index_of soh buf ≡ some (length a + (length v + 1))
    ends =
        rw
          (
            grouped,
            index_of-Lacks soh (a ++ b'=' ∷ v) rest
                (All-append (λ b. b ≢ soh) a (b'=' ∷ v) k (cc, s)),
          )
          (rw long refl)

    whole :
        parse_field buf
        ≡ read_field
            (take (length a) buf)
            (slice (length a + 1) (length a + (length v + 1)) buf)
            (length a + (length v + 1) + 1)
    whole =
        parse_field_lem buf (length a) (length a + (length v + 1))
          (index_of-Lacks b'=' a (v ++ soh ∷ rest) h) ends (omega arith)

    middle : slice (length a + 1) (length a + (length v + 1)) buf ≡ v
    middle = rw (← append_assoc a (b'=' ∷ []) (v ++ soh ∷ rest)) (
        slice-append (length a + 1) (length a + (length v + 1)) (a ++ b'=' ∷ []) v (soh ∷ rest)
          (omega (arith, length-append a (b'=' ∷ []))) (omega (arith, length-append a (b'=' ∷ []))))

    after : length a + (length v + 1) + 1 ≡ length a + (length v + 2)
    after = omega arith

    parts :
        read_field
          (take (length a) buf)
          (slice (length a + 1) (length a + (length v + 1)) buf)
          (length a + (length v + 1) + 1)
        ≡ read_field a v (length a + (length v + 2))
    parts = cc (middle, take-append a (b'=' ∷ v ++ soh ∷ rest), after)

encode_field_lem :
    (t : ℕ) (v : Text) → encode_field (t, v) ≡ show_u64 t ++ (b'=' ∷ utf8 v) ++ soh ∷ []
unfolding encode_field
encode_field_lem t v = cc

pub length-encode_field :
    (t : ℕ) (v : Text) → length (encode_field (t, v)) ≡ length (show_u64 t) + (length (utf8 v) + 2)
length-encode_field t v =
    rw
      (
        encode_field_lem t v,
        length-append (show_u64 t ++ (b'=' ∷ utf8 v)) (soh ∷ []),
        length-append (show_u64 t) (b'=' ∷ utf8 v),
      )
      (omega arith)

pub encode_field-append :
    (t : ℕ) (v : Text) (rest : Bytes)
    → encode_field (t, v) ++ rest ≡ show_u64 t ++ (b'=' ∷ (utf8 v ++ soh ∷ rest))
encode_field-append t v rest = rw encode_field_lem (simp append_assoc)

-- A printed field is read off the front of any bytes.
pub parse_field-encode_field :
    (t : ℕ) (v : Text) (rest : Bytes)
    → IsField (t, v)
    → parse_field (encode_field (t, v) ++ rest) ≡ ok ((t, v), length (encode_field (t, v)))
parse_field-encode_field t v rest (h, s, l) =
    rw
      (
        encode_field-append,
        length-encode_field,
        parse_field-split (show_u64 t) (utf8 v) rest
            (IsDigit-Lacks b'=' (show_u64 t) (inr (omega arith)) (show_u64-IsDigit t))
            (IsDigit-Lacks soh (show_u64 t) (inl (omega arith)) (show_u64-IsDigit t))
            (utf8-Lacks soh v (omega arith) l),
      )
      (read_field-show_u64 t _ v h s)

-- The fields that are not framing.
unfoldable pub unframed : FieldList → FieldList
unframed [] = []
unframed ((t, v) ∷ fields) =
    let rest = unframed fields in
    if t == begin_string || t == body_length then rest else (t, v) ∷ rest

parse_fields_step :
    (fuel : ℕ) (buf : Bytes) (end cursor t n : ℕ) (v : Text) (rest : FieldList)
    → cursor < end
    → parse_field (drop cursor buf) ≡ ok ((t, v), n)
    → parse_fields fuel buf end (cursor + n) ≡ ok rest
    → parse_fields (suc fuel) buf end cursor
      ≡ ok (if t == begin_string || t == body_length then rest else (t, v) ∷ rest)
unfolding parse_fields
parse_fields_step fuel buf end cursor t n v rest h e r = ground arith

-- Where the printed fields stand behind `before`, the loop reads them all.
pub parse_fields-encode_body :
    (fuel : ℕ) (before : Bytes) (fields : FieldList) (rest : Bytes)
    → length fields < fuel
    → All IsField fields
    → parse_fields fuel
        (before ++ (encode_body fields ++ rest))
        (length before + length (encode_body fields))
        (length before)
      ≡ ok (unframed fields)
unfolding encode_body unframed
parse_fields-encode_body zero before fields rest h w = absurd (omega arith)
parse_fields-encode_body (suc fuel) before [] rest h w = unfold parse_fields in ground arith
parse_fields-encode_body (suc fuel) before ((t, v) ∷ fields) rest h w =
    parse_fields_step fuel buf end (length before) t (length one) v (unframed fields)
      (omega (arith, length-append one (encode_body fields), length-encode_field t v))
      (rw (cut, drop-append before (one ++ (encode_body fields ++ rest)))
        (parse_field-encode_field t v (encode_body fields ++ rest) w.0))
      (rw (shifted, ← length-append before one, ends)
        (parse_fields-encode_body fuel (before ++ one) fields rest (omega arith) w.1))
  where
    one : Bytes
    one = encode_field (t, v)

    buf : Bytes
    buf = before ++ ((one ++ encode_body fields) ++ rest)

    end : ℕ
    end = length before + length (one ++ encode_body fields)

    cut : buf ≡ before ++ (one ++ (encode_body fields ++ rest))
    cut = simp append_assoc

    shifted : buf ≡ (before ++ one) ++ (encode_body fields ++ rest)
    shifted = simp append_assoc

    ends : end ≡ length (before ++ one) + length (encode_body fields)
    ends = omega (arith, length-append before one, length-append one (encode_body fields))
