-- ===== src/Fix/Frames.antt =====
-- crates/kalshi-fix/src/error.rs, tags.rs and frame.rs: errors, field lists, and the framing of
-- messages in bytes. `debug_assert!` is off in the release profile.
use predigy.Prelude.{
  ltb, leb, ◌==◌, if◌then◌else◌, length, ℕ, zero, suc, ◌+◌, ◌-◌, ◌%◌, max, Bool, true, false, ◌&&◌,
  ◌||◌, not, Option, none, some, List, [], ◌∷◌, ◌++◌,
}
use predigy.Prelude.Text.{Text}
use predigy.Prelude.Word.{u8_max, u32_max, add64}
use predigy.Prelude.Result.{Result, ◌>>=◌, ok, err}
use predigy.Oms.{replicate, show_u64, parse_u64}
use predigy.Fix.Strings.{
  Bytes, take, drop, slice, index_of, contains, starts_with, find_window, sum, utf8, from_utf8,
}

abbrev pub soh : ℕ
soh = 1

abbrev pub begin_string : ℕ
begin_string = 8

abbrev pub body_length : ℕ
body_length = 9

-- The messages of `Error::Frame`, one for each place that builds one.
pub data FrameError : Type 0 where
  garbage_at_start : ℕ → FrameError
  expected_body_length : ℕ → FrameError
  body_length_not_a_number : Text → FrameError
  expected_trailer : Bytes → FrameError
  checksum_not_utf8 : FrameError
  checksum_not_a_number : Text → FrameError
  no_equals : FrameError
  no_soh : FrameError
  equals_after_soh : FrameError
  tag_not_utf8 : FrameError
  tag_not_a_number : Text → FrameError
  value_not_utf8 : FrameError

pub data Error : Type 0 where
  io : Error
  frame : FrameError → Error
  checksum : ℕ → ℕ → Error
  missing_tag : ℕ → Text → Error
  malformed_tag : ℕ → Text → Error
  session : Text → Error
  unsupported : Text → Error
  closed : Error

-- How a call fails: with an error of the crate, by a panic, or in the model alone, for want of
-- fuel.
pub data Stop : Type 0 where
  failed : Error → Stop
  panics : Stop
  out_of_fuel : Stop

abbrev pub fails {ℓ} : {A : Type ℓ} → Error → Result A Stop
fails e = err (failed e)

-- `ok_or`.
abbrev pub ok_or {ℓ} : {A : Type ℓ} → Option A → Error → Result A Stop
ok_or none e = fails e
ok_or (some a) e = ok a

abbrev pub Field : Type 0
Field = ℕ × Text

abbrev pub FieldList : Type 0
FieldList = List Field

abbrev pub push : FieldList → ℕ → Text → FieldList
push fields tag value = fields ++ (tag, value) ∷ []

unfoldable pub get : ℕ → FieldList → Option Text
get tag [] = none
get tag ((t, v) ∷ fields) = let later = get tag fields in if t == tag then some v else later

unfoldable pub require : ℕ → Text → FieldList → Result Text Stop
unfolding get
require tag msg_type fields = ok_or (get tag fields) (missing_tag tag msg_type)

-- `parse::<u32>` and `parse::<u8>`: they read what `parse::<u64>` reads, up to their own maximum.
unfoldable pub parse_up_to : ℕ → Text → Option ℕ
unfolding parse_u64
parse_up_to max s = elim (parse_u64 s) [ none ↦ none | some n ↦ if leb n max then some n else none ]

unfoldable pub encode_field : Field → Bytes
encode_field (tag, value) = show_u64 tag ++ (b'=' ∷ utf8 value) ++ soh ∷ []

unfoldable pub encode_body : FieldList → Bytes
unfolding encode_field
encode_body [] = []
encode_body (field ∷ fields) = encode_field field ++ encode_body fields

-- `8=FIX.4.4` and its separator.
abbrev pub begin_field : Bytes
begin_field = b'8' ∷ b'=' ∷ b'F' ∷ b'I' ∷ b'X' ∷ b'.' ∷ b'4' ∷ b'.' ∷ b'4' ∷ soh ∷ []

unfoldable pub length_field : ℕ → Bytes
length_field n = b'9' ∷ b'=' ∷ show_u64 n ++ soh ∷ []

-- The sum is a `u32`, which wraps.
unfoldable pub checksum_of : Bytes → ℕ
unfolding sum
checksum_of l = sum l % 4294967296 % 256

-- `{:03}` and its like: zeros in front, up to the width.
unfoldable pub show_wide : ℕ → ℕ → Text
show_wide width n = replicate (width - length (show_u64 n)) b'0' ++ show_u64 n

unfoldable pub trailer_of : ℕ → Bytes
trailer_of n = b'1' ∷ b'0' ∷ b'=' ∷ show_wide 3 n ++ soh ∷ []

unfoldable pub encode : FieldList → Bytes
encode body_fields =
    let body = encode_body body_fields in
    let out = begin_field ++ length_field (length body) ++ body in
    out ++ trailer_of (checksum_of out)

-- The tag and the value of a field whose bytes are found.
unfoldable pub read_field : Bytes → Bytes → ℕ → Result (Field × ℕ) Stop
unfolding from_utf8 parse_up_to
read_field tag_bytes value_bytes consumed = do
  tag_str ← ok_or (from_utf8 tag_bytes) (frame tag_not_utf8)
  tag ← ok_or (parse_up_to u32_max tag_str) (frame (tag_not_a_number tag_str))
  value ← ok_or (from_utf8 value_bytes) (frame value_not_utf8)
  ok ((tag, value), consumed)

unfoldable pub parse_field : Bytes → Result (Field × ℕ) Stop
unfolding index_of take slice read_field
parse_field buf = do
  eq_pos ← ok_or (index_of b'=' buf) (frame no_equals)
  soh_pos ← ok_or (index_of soh buf) (frame no_soh)
  if ltb soh_pos eq_pos
      then fails (frame equals_after_soh)
      else read_field (take eq_pos buf) (slice (eq_pos + 1) soh_pos buf) (soh_pos + 1)

unfoldable pub find_subslice : Bytes → Bytes → Option ℕ
unfolding find_window
find_subslice haystack needle =
    if length needle == 0 || ltb (length haystack) (length needle)
    then none
    else find_window haystack needle

-- The fields up to `body_end`, the framing fields left out.
unfoldable pub parse_fields : ℕ → Bytes → ℕ → ℕ → Result FieldList Stop
unfolding parse_field drop
parse_fields zero buf body_end cursor = err out_of_fuel
parse_fields (suc f) buf body_end cursor = elim (ltb cursor body_end) [
  | false ↦ ok []
  | true ↦ do
    (kv, consumed) ← parse_field (drop cursor buf)
    fields ← parse_fields f buf body_end (cursor + consumed)
    if kv.0 == begin_string || kv.0 == body_length then ok fields else ok (kv ∷ fields)
]

-- `trailer[6] == SOH`, where the trailer has seven bytes.
unfoldable pub ends_in_soh : Bytes → Bool
unfolding drop
ends_in_soh trailer = elim (drop 6 trailer) [ [] ↦ false | b ∷ l ↦ b == soh ]

-- The checksum is right, so the fields are read.
unfoldable pub decode_fields : Bytes → ℕ → ℕ → Result (Option (FieldList × ℕ)) Stop
unfolding parse_fields
decode_fields buf body_end end = do
  fields ← parse_fields (suc (length buf)) buf body_end 0
  ok (some (fields, end))

unfoldable pub decode_trailer : Bytes → ℕ → ℕ → Bytes → Result (Option (FieldList × ℕ)) Stop
unfolding from_utf8 parse_up_to slice take checksum_of decode_fields
decode_trailer buf body_end end trailer = do
  cksum_str ← ok_or (from_utf8 (slice 3 6 trailer)) (frame checksum_not_utf8)
  claimed ← ok_or (parse_up_to u8_max cksum_str) (frame (checksum_not_a_number cksum_str))
  let computed = checksum_of (take body_end buf)
  if not (claimed == computed)
      then fails (checksum computed claimed)
      else decode_fields buf body_end end

-- The additions on `usize` wrap, and a slice whose start passes its end panics.
unfoldable pub decode_body : Bytes → ℕ → Result (Option (FieldList × ℕ)) Stop
unfolding slice starts_with ends_in_soh decode_trailer
decode_body buf body_end =
    let end = add64 body_end 7 in
    let trailer = slice body_end end buf in
    if ltb (length buf) end
    then ok none
    else if ltb end body_end
    then err panics
    else if not (starts_with trailer (b'1' ∷ b'0' ∷ b'=' ∷ []) && ends_in_soh trailer)
    then fails (frame (expected_trailer trailer))
    else decode_trailer buf body_end end trailer

unfoldable pub decode_length : Bytes → Result (Option (FieldList × ℕ)) Stop
unfolding drop contains parse_field parse_u64 decode_body
decode_length buf =
    let header_end = length begin_field in
    if ltb (length buf) (header_end + 4)
    then ok none
    else if not (contains soh (drop header_end buf))
    then ok none
    else do
      ((tag, value), consumed) ← parse_field (drop header_end buf)
      if not (tag == body_length) then fails (frame (expected_body_length tag)) else do
        body_len ← ok_or (parse_u64 value) (frame (body_length_not_a_number value))
        decode_body buf (add64 (header_end + consumed) body_len)

unfoldable pub decode_message : Bytes → Result (Option (FieldList × ℕ)) Stop
unfolding find_subslice decode_length
decode_message buf = elim (find_subslice buf begin_field) [
  | none ↦ ok none
  | some start_idx ↦
      if ltb 0 start_idx then fails (frame (garbage_at_start start_idx)) else decode_length buf
]
