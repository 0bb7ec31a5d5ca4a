-- ===== src/Fix/Damage.antt =====
-- crates/kalshi-fix/src/frame.rs: a message with a wrong byte in its body.
use mathlib.Core.List.{append_assoc}
use predigy.Prelude.{
  ==_false, length, length-append, ℕ, ◌+◌, ◌<◌, ◌≡◌, refl, sym, ap, ◌∙◌, ◌≢◌, [], ◌∷◌, ◌++◌, arith,
}
use predigy.Fix.{
  Bytes, sum, fails, FieldList, encode_body, begin_field, length_field, checksum_of, trailer_of,
  decode_message, checksum,
}
use predigy.Fix.FrameLaws.{head_of, framed, Fits, decode_message-framed}
use predigy.Fix.RoundTrip.{checksum_of-lt}

sum-append : (a b : Bytes) → sum (a ++ b) ≡ sum a + sum b
unfolding sum
sum-append [] b = omega arith
sum-append (x ∷ a) b = omega (arith, sum-append a b)

-- A change of one byte changes the sum, and so its last byte.
checksum_of-change :
    (p q : Bytes) (x y : ℕ)
    → x < 256
    → y < 256
    → x ≢ y
    → checksum_of (p ++ x ∷ q) ≢ checksum_of (p ++ y ∷ q)
unfolding checksum_of sum
checksum_of-change p q x y hx hy ne = omega (arith, sum-append p (x ∷ q), sum-append p (y ∷ q))

-- The bytes of a message whose body was `p ++ x ∷ q`, with `y` for `x`.
abbrev pub garbled : Bytes → Bytes → ℕ → ℕ → Bytes → Bytes
garbled p q x y rest =
    begin_field
    ++ (length_field (length (p ++ x ∷ q))
        ++ ((p ++ y ∷ q) ++ (trailer_of (checksum_of (head_of (p ++ x ∷ q))) ++ rest)))

-- When one byte of the body of an encoded message is replaced by another, the decoder answers with
-- a checksum error, and the two checksums that the error names differ.
pub decode_message-garbled :
    (fields : FieldList) (p q rest : Bytes) (x y : ℕ)
    → encode_body fields ≡ p ++ x ∷ q
    → Fits (encode_body fields)
    → x < 256
    → y < 256
    → x ≢ y
    → (computed claimed : ℕ) × (decode_message (garbled p q x y rest)
        ≡ fails (checksum computed claimed))
      × (computed ≢ claimed)
decode_message-garbled fields p q rest x y e fits hx hy ne =
    (checksum_of (head_of body), c, rw whole answer, λ same. differ (sym same))
  where
    body : Bytes
    body = p ++ y ∷ q

    c : ℕ
    c = checksum_of (head_of (p ++ x ∷ q))

    long : length (p ++ x ∷ q) ≡ length body
    long = omega (arith, length-append p (x ∷ q), length-append p (y ∷ q))

    room : Fits body
    room = omega (arith, long, ap length e)

    whole : garbled p q x y rest ≡ framed body c rest
    whole = cc (long, append_assoc (length_field (length body)) body (trailer_of c ++ rest))

    split :
        (z : ℕ)
        → length (p ++ z ∷ q) ≡ length body
        → head_of (p ++ z ∷ q) ≡ (begin_field ++ (length_field (length body) ++ p)) ++ z ∷ q
    split z h = rw (h, append_assoc (length_field (length body)) p (z ∷ q))

    differ : c ≢ checksum_of (head_of body)
    differ =
        rw (split x long, split y refl)
          (checksum_of-change (begin_field ++ (length_field (length body) ++ p)) q x y hx hy ne)

    answer : decode_message (framed body c rest) ≡ fails (checksum (checksum_of (head_of body)) c)
    answer =
        decode_message-framed body rest c room (checksum_of-lt (head_of (p ++ x ∷ q)))
        ∙ rw (==_false c (checksum_of (head_of body)) differ)
