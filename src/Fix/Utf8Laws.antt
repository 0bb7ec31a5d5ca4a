-- ===== src/Fix/Utf8Laws.antt =====
-- The UTF-8 of crates/kalshi-fix's field values.
use predigy.Prelude.{
  ltb, ltb→lt, lt→ltb, le→leb, Bool-cases, All, All-append, ℕ, suc, ◌+◌, ◌-◌, ◌*◌, ◌/◌, ◌%◌, ◌≤◌,
  ◌<◌, ◌≡◌, refl, ◌∙◌, ◌≢◌, inl, inr, true, some, [], ◌∷◌, ◌++◌, arith,
}
use predigy.Prelude.Text.{Text}
use predigy.Fix.{Bytes, utf8_char, utf8, is_scalar, push_char, from_utf8_in, from_utf8}

-- The texts that a `String` can hold.
abbrev pub IsString : Text → Type 0
IsString s = All (λ c. is_scalar c ≡ true) s

abbrev Scalar : ℕ → Type 0
Scalar c = is_scalar c ≡ true

-- A continuation byte that is not the last, and the last.
from_utf8_in-more :
    (need acc low b : ℕ) (l : Bytes)
    → 0x80 ≤ b
    → b < 0xc0
    → from_utf8_in (suc (suc need)) acc low (b ∷ l)
      ≡ from_utf8_in (suc need) (acc * 64 + (b - 0x80)) low l
unfolding from_utf8_in
from_utf8_in-more need acc low b l h k = ground arith

from_utf8_in-last :
    (acc low b c : ℕ) (l : Bytes)
    → 0x80 ≤ b
    → b < 0xc0
    → acc * 64 + (b - 0x80) ≡ c
    → low ≤ c
    → Scalar c
    → from_utf8_in 1 acc low (b ∷ l) ≡ push_char c (from_utf8_in 0 0 0 l)
unfolding from_utf8_in
from_utf8_in-last acc low b c l h k e m s =
    rw (e, le→leb low c m, s, le→leb 0x80 b h, lt→ltb b 0xc0 k)

one_byte :
    (c : ℕ) (l : Bytes) → c < 0x80 → from_utf8_in 0 0 0 (c ∷ l) ≡ push_char c (from_utf8_in 0 0 0 l)
unfolding from_utf8_in
one_byte c l h = rw (lt→ltb c 0x80 h)

lead_two :
    (b : ℕ) (l : Bytes)
    → 0xc0 ≤ b
    → b < 0xe0
    → from_utf8_in 0 0 0 (b ∷ l) ≡ from_utf8_in 1 (b - 0xc0) 0x80 l
unfolding from_utf8_in
lead_two b l h k = ground arith

lead_three :
    (b : ℕ) (l : Bytes)
    → 0xe0 ≤ b
    → b < 0xf0
    → from_utf8_in 0 0 0 (b ∷ l) ≡ from_utf8_in 2 (b - 0xe0) 0x800 l
unfolding from_utf8_in
lead_three b l h k = ground arith

lead_four :
    (b : ℕ) (l : Bytes)
    → 0xf0 ≤ b
    → b < 0xf8
    → from_utf8_in 0 0 0 (b ∷ l) ≡ from_utf8_in 3 (b - 0xf0) 0x10000 l
unfolding from_utf8_in
lead_four b l h k = ground arith

Scalar-lt : (c : ℕ) → Scalar c → c < 0x110000
Scalar-lt c s = ground arith

two_bytes :
    (c : ℕ) (l : Bytes)
    → Scalar c
    → 0x80 ≤ c
    → c < 0x800
    → from_utf8_in 0 0 0 ((0xc0 + c / 64) ∷ (0x80 + c % 64) ∷ l)
      ≡ push_char c (from_utf8_in 0 0 0 l)
two_bytes c l s h k =
    lead_two _ _ (omega arith) (omega arith)
    ∙ from_utf8_in-last _ 0x80 _ c l (omega arith) (omega arith) (omega arith) h s

three_bytes :
    (c : ℕ) (l : Bytes)
    → Scalar c
    → 0x800 ≤ c
    → c < 0x10000
    → from_utf8_in 0 0 0 ((0xe0 + c / 4096) ∷ (0x80 + c / 64 % 64) ∷ (0x80 + c % 64) ∷ l)
      ≡ push_char c (from_utf8_in 0 0 0 l)
three_bytes c l s h k =
    lead_three _ _ (omega arith) (omega arith)
    ∙ from_utf8_in-more 0 _ 0x800 _ _ (omega arith) (omega arith)
    ∙ from_utf8_in-last _ 0x800 _ c l (omega arith) (omega arith) (omega arith) h s

four_bytes :
    (c : ℕ) (l : Bytes)
    → Scalar c
    → 0x10000 ≤ c
    → from_utf8_in 0 0 0
        ((0xf0 + c / 262144) ∷ (0x80 + c / 4096 % 64) ∷ (0x80 + c / 64 % 64) ∷ (0x80 + c % 64) ∷ l)
      ≡ push_char c (from_utf8_in 0 0 0 l)
four_bytes c l s h =
    lead_four _ _ (omega arith) (omega (arith, Scalar-lt c s))
    ∙ from_utf8_in-more 1 _ 0x10000 _ _ (omega arith) (omega arith)
    ∙ from_utf8_in-more 0 _ 0x10000 _ _ (omega arith) (omega arith)
    ∙ from_utf8_in-last _ 0x10000 _ c l (omega arith) (omega arith) (omega arith) h s

from_utf8_in-utf8_char :
    (c : ℕ) (l : Bytes)
    → Scalar c
    → from_utf8_in 0 0 0 (utf8_char c ++ l) ≡ push_char c (from_utf8_in 0 0 0 l)
unfolding utf8_char
from_utf8_in-utf8_char c l s = elim (Bool-cases (ltb c 0x80)) [
  | inl a ↦ rw a (one_byte c l (ltb→lt c 0x80 a))
  | inr a ↦ elim (Bool-cases (ltb c 0x800)) [
    | inl b ↦ rw (a, b) (two_bytes c l s (ground arith) (ltb→lt c 0x800 b))
    | inr b ↦ elim (Bool-cases (ltb c 0x10000)) [
      | inl d ↦ rw (a, b, d) (three_bytes c l s (ground arith) (ltb→lt c 0x10000 d))
      | inr d ↦ rw (a, b, d) (four_bytes c l s (ground arith))
    ]
  ]
]

from_utf8_in-utf8 : (s : Text) → IsString s → from_utf8_in 0 0 0 (utf8 s) ≡ some s
unfolding utf8
from_utf8_in-utf8 [] h = unfold from_utf8_in in refl
from_utf8_in-utf8 (c ∷ s) h =
    ground (arith, from_utf8_in-utf8_char c (utf8 s) h.0, from_utf8_in-utf8 s h.1)

-- A text survives its bytes.
pub from_utf8-utf8 : (s : Text) → IsString s → from_utf8 (utf8 s) ≡ some s
unfolding from_utf8
from_utf8-utf8 s h = from_utf8_in-utf8 s h

abbrev pub Lacks : ℕ → Bytes → Type 0
Lacks x l = All (λ b. b ≢ x) l

utf8_char-Lacks : (x c : ℕ) → x < 0x80 → c ≢ x → Lacks x (utf8_char c)
unfolding utf8_char
utf8_char-Lacks x c small other = ground arith

-- An ASCII byte stands in the bytes only for itself.
pub utf8-Lacks : (x : ℕ) (s : Text) → x < 0x80 → Lacks x s → Lacks x (utf8 s)
unfolding utf8
utf8-Lacks x [] small h = tt
utf8-Lacks x (c ∷ s) small h =
    All-append (λ b. b ≢ x) (utf8_char c) (utf8 s) (utf8_char-Lacks x c small h.0)
      (utf8-Lacks x s small h.1)
