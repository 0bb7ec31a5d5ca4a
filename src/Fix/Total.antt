-- ===== src/Fix/Total.antt =====
-- crates/kalshi-fix/src/frame.rs: every call of the decoder ends.
use predigy.Prelude.{
  ltb, if◌then◌else◌, length, ℕ, zero, suc, ◌+◌, ◌≤◌, ◌<◌, ◌≡◌, refl, ◌≢◌, ◌⊎◌, inl, inr, Bool,
  true, false, ◌&&◌, not, Option, none, some, [], ◌∷◌, arith,
}
use predigy.Prelude.Result.{Result, ◌>>=◌, ok, err}
use predigy.Fix.{
  Bytes, drop, slice, starts_with, Error, Stop, fails, Field, begin_field, read_field, parse_field,
  find_subslice, parse_fields, ends_in_soh, decode_fields, decode_trailer, decode_body,
  decode_length, decode_message, garbage_at_start, expected_trailer, frame, panics, out_of_fuel,
}
use predigy.Prelude.Word.{add64}
use predigy.Prelude.Map.{text_key}
use predigy.Core.{position_key}

abbrev pub Ends {ℓ} : {A : Type ℓ} → Result A Stop → Type ℓ
Ends r = r ≢ err out_of_fuel

-- A result that ends is a value or another failure.
pub Ends-cases {ℓ} :
    {A : Type ℓ} (r : Result A Stop)
    → Ends r
    → ((a : A) × (r ≡ ok a)) ⊎ ((e : Stop) × (r ≡ err e) × (e ≢ out_of_fuel))
Ends-cases (ok a) h = inl (a, refl)
Ends-cases (err e) h = inr (e, refl, λ p. h (cc))

-- The parts of a chain that succeeds.
pub >>=-eq-ok {ℓ} :
    {A : Type ℓ} {B : Type ℓ} (r : Result A Stop) (k : A → Result B Stop) {b : B}
    → (r >>= k) ≡ ok b
    → (a : A) × (r ≡ ok a) × (k a ≡ ok b)
>>=-eq-ok (ok a) k h = (a, refl, h)
>>=-eq-ok (err e) k h = cc

read_field-Ends : (t v : Bytes) (n : ℕ) → Ends (read_field t v n)
unfolding read_field
read_field-Ends t v n p = ground arith

read_field_consumed :
    (t v : Bytes) (m : ℕ) (kv : Field) (n : ℕ) → read_field t v m ≡ ok (kv, n) → m ≡ n
unfolding read_field
read_field_consumed t v m kv n h = ground arith

parse_field-Ends : (buf : Bytes) → Ends (parse_field buf)
unfolding parse_field
parse_field-Ends buf p = grind (arith, read_field-Ends)

parse_field-consumes : (buf : Bytes) (kv : Field) (n : ℕ) → parse_field buf ≡ ok (kv, n) → 0 < n
unfolding parse_field
parse_field-consumes buf kv n h = grind (arith, read_field_consumed)

parse_fields-Ends :
    (fuel : ℕ) (buf : Bytes) (body_end cursor : ℕ)
    → 0 < fuel
    → body_end < fuel + cursor
    → Ends (parse_fields fuel buf body_end cursor)
unfolding parse_fields
parse_fields-Ends zero buf body_end cursor z h = absurd (omega arith)
parse_fields-Ends (suc fuel) buf body_end cursor z h =
    elim (Ends-cases (parse_field (drop cursor buf)) (parse_field-Ends (drop cursor buf))) [
      | inl ((kv, n), e) ↦
          let step = parse_field-consumes (drop cursor buf) kv n e in
          λ p. ground (arith, step, parse_fields-Ends fuel buf body_end (cursor + n))
      | inr (s, e, not_fuel) ↦ λ p. ground arith
    ]

decode_trailer-Ends :
    (buf : Bytes) (body_end end : ℕ) (trailer : Bytes)
    → body_end ≤ length buf
    → Ends (decode_trailer buf body_end end trailer)
unfolding decode_trailer decode_fields
decode_trailer-Ends buf body_end end trailer h p =
    ground (arith, parse_fields-Ends (suc (length buf)) buf body_end 0 (omega arith) (omega arith))

guarded-Ends {ℓ} :
    {A : Type ℓ} (a b c : Bool) (x : A) (e : Error) (r : Result A Stop)
    → (a ≡ false → b ≡ false → Ends r)
    → Ends (if a then ok x else if b then err panics else if c then fails e else r)
guarded-Ends true b c x e r h p = cc
guarded-Ends false true c x e r h p = cc
guarded-Ends false false true x e r h p = cc
guarded-Ends false false false x e r h p = h refl refl p

started-Ends {ℓ} :
    {A : Type ℓ} (o : Option ℕ) (x : A) (e : ℕ → Error) (r : Result A Stop)
    → Ends r
    → Ends (elim o [ none ↦ ok x | some s ↦ if ltb 0 s then fails (e s) else r ])
started-Ends none x e r h p = cc
started-Ends (some s) x e r h p = ground arith

in_range : (n end body_end : ℕ) → ltb n end ≡ false → ltb end body_end ≡ false → body_end ≤ n
in_range n end body_end h k = ground arith

decode_body-Ends : (buf : Bytes) (body_end : ℕ) → Ends (decode_body buf body_end)
unfolding decode_body
decode_body-Ends buf body_end =
    let end = add64 body_end 7 in
    let trailer = slice body_end end buf in
    guarded-Ends (ltb (length buf) end) (ltb end body_end)
      (not (starts_with trailer (b'1' ∷ b'0' ∷ b'=' ∷ []) && ends_in_soh trailer)) none
      (frame (expected_trailer trailer)) (decode_trailer buf body_end end trailer)
      λ h k. decode_trailer-Ends buf body_end end trailer (in_range (length buf) end body_end h k)

decode_length-Ends : (buf : Bytes) → Ends (decode_length buf)
unfolding decode_length
decode_length-Ends buf p = grind (arith, decode_body-Ends, parse_field-Ends)

-- On every buffer the decoder returns or panics: its loop over the fields never runs out of the
-- fuel that the length of the buffer gives it.
pub decode_message-Ends : (buf : Bytes) → decode_message buf ≢ err out_of_fuel
unfolding decode_message
decode_message-Ends buf =
    started-Ends (find_subslice buf begin_field) none (λ s. frame (garbage_at_start s))
      (decode_length buf) (decode_length-Ends buf)
