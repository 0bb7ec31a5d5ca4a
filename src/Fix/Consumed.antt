-- ===== src/Fix/Consumed.antt =====
-- crates/kalshi-fix/src/frame.rs: how many bytes a decoded message takes.
use predigy.Prelude.{
  ltb, ◌==◌, if◌then◌else◌, length, ℕ, ◌+◌, ◌≤◌, ◌<◌, ◌≡◌, refl, ◌⊎◌, inl, inr, Bool, true, false,
  ◌&&◌, not, Option, none, some, [], ◌∷◌, arith,
}
use predigy.Prelude.Result.{Result, ok, err}
use predigy.Prelude.Word.{add64}
use predigy.Core.{position_key}
use predigy.Fix.{
  Bytes, drop, slice, contains, starts_with, soh, body_length, Error, Stop, fails, ok_or, FieldList,
  begin_field, parse_field, find_subslice, ends_in_soh, decode_fields, decode_trailer, decode_body,
  decode_length, decode_message, garbage_at_start, expected_body_length, body_length_not_a_number,
  expected_trailer, frame, panics,
}
use predigy.Fix.Total.{>>=-eq-ok}
use predigy.Prelude.Map.{text_key}
use predigy.Oms.{parse_u64}

decode_trailer_consumed :
    (buf trailer : Bytes) (body_end end : ℕ) (m : FieldList) (n : ℕ)
    → decode_trailer buf body_end end trailer ≡ ok (some (m, n))
    → n ≡ end
unfolding decode_trailer decode_fields
decode_trailer_consumed buf trailer body_end end m n h = ground arith

guarded_ok {ℓ} :
    {A : Type ℓ} (a b c : Bool) (x y : A) (e : Error) (r : Result A Stop)
    → (if a then ok x else if b then err panics else if c then fails e else r) ≡ ok y
    → (x ≡ y) ⊎ ((a ≡ false) × (b ≡ false) × (r ≡ ok y))
guarded_ok true b c x y e r h = inl (cc h)
guarded_ok false true c x y e r h = cc h
guarded_ok false false true x y e r h = cc h
guarded_ok false false false x y e r h = inr (refl, refl, h)

decode_body_consumed :
    (buf : Bytes) (body_end : ℕ) (m : FieldList) (n : ℕ)
    → decode_body buf body_end ≡ ok (some (m, n))
    → (0 < n) × (n ≤ length buf)
unfolding decode_body
decode_body_consumed buf body_end m n h =
    let end = add64 body_end 7 in
    let trailer = slice body_end end buf in
    elim (guarded_ok (ltb (length buf) end) (ltb end body_end)
      (not (starts_with trailer (b'1' ∷ b'0' ∷ b'=' ∷ []) && ends_in_soh trailer)) none
      (some (m, n)) (frame (expected_trailer trailer)) (decode_trailer buf body_end end trailer)
      h) [
        | inl other_answer ↦ cc other_answer
        | inr (long, fine, e) ↦
            rw (decode_trailer_consumed buf trailer body_end end m n e)
              (in_bounds (length buf) body_end long fine)
      ]
  where
    in_bounds :
        (l b : ℕ)
        → ltb l (add64 b 7) ≡ false
        → ltb (add64 b 7) b ≡ false
        → (0 < add64 b 7) × (add64 b 7 ≤ l)
    in_bounds l b h k = ground arith

waits_ok {ℓ} :
    {A : Type ℓ} (a b : Bool) (x y : A) (r : Result A Stop)
    → (if a then ok x else if b then ok x else r) ≡ ok y
    → (x ≡ y) ⊎ (r ≡ ok y)
waits_ok true b x y r h = inl (cc h)
waits_ok false true x y r h = inl (cc h)
waits_ok false false x y r h = inr h

else_ok {ℓ} :
    {A : Type ℓ} (c : Bool) (e : Error) (r : Result A Stop) (y : A)
    → (if c then fails e else r) ≡ ok y
    → r ≡ ok y
else_ok true e r y h = cc h
else_ok false e r y h = h

decode_length_consumed :
    (buf : Bytes) (m : FieldList) (n : ℕ)
    → decode_length buf ≡ ok (some (m, n))
    → (0 < n) × (n ≤ length buf)
unfolding decode_length
decode_length_consumed buf m n h =
    elim (waits_ok (ltb (length buf) 14) (not (contains soh (drop 10 buf))) none (some (m, n)) _
      h) [
        | inl other_answer ↦ cc other_answer
        | inr e ↦
            let ((kv, used), _, k) = >>=-eq-ok (parse_field (drop 10 buf)) _ e in
            let (body_len, _, d) =
              >>=-eq-ok (ok_or (parse_u64 kv.1) (frame (body_length_not_a_number kv.1))) _ (
                else_ok (not (kv.0 == body_length)) (frame (expected_body_length kv.0)) _
                  (some (m, n)) k) in
            decode_body_consumed buf (add64 (10 + used) body_len) m n d
      ]

started_ok {ℓ} :
    {A : Type ℓ} (o : Option ℕ) (x y : A) (e : ℕ → Error) (r : Result A Stop)
    → (elim o [ none ↦ ok x | some s ↦ if ltb 0 s then fails (e s) else r ]) ≡ ok y
    → (x ≡ y) ⊎ (r ≡ ok y)
started_ok none x y e r h = inl (cc h)
started_ok (some s) x y e r h = ground arith

-- A message takes a byte at least, and no more than there are.
pub decode_message_consumed :
    (buf : Bytes) (m : FieldList) (n : ℕ)
    → decode_message buf ≡ ok (some (m, n))
    → (0 < n) × (n ≤ length buf)
unfolding decode_message
decode_message_consumed buf m n h =
    elim (started_ok (find_subslice buf begin_field) none (some (m, n))
      (λ s. frame (garbage_at_start s)) (decode_length buf) h) [
        | inl other_answer ↦ cc other_answer
        | inr e ↦ decode_length_consumed buf m n e
      ]
