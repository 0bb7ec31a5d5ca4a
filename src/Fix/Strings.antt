-- ===== src/Fix/Strings.antt =====
-- The byte strings of crates/kalshi-fix: slices, searches, and the UTF-8 of a `String`, as the
-- standard library has them.
use predigy.Prelude.{
  ltb, leb, ◌==◌, if◌then◌else◌, ℕ, zero, suc, ◌+◌, ◌-◌, ◌*◌, ◌/◌, ◌%◌, Bool, true, false, ◌&&◌,
  ◌||◌, Option, none, some, List, [], ◌∷◌, ◌++◌,
}
use predigy.Prelude.Text.{Text}

abbrev pub Bytes : Type 0
Bytes = List ℕ

-- `&buf[..n]` and `&buf[n..]` where the slice is in range.
unfoldable pub take : ℕ → Bytes → Bytes
take zero l = []
take (suc n) [] = []
take (suc n) (b ∷ l) = b ∷ take n l

unfoldable pub drop : ℕ → Bytes → Bytes
drop zero l = l
drop (suc n) [] = []
drop (suc n) (b ∷ l) = drop n l

-- `&buf[from..to]`.
unfoldable pub slice : ℕ → ℕ → Bytes → Bytes
unfolding take drop
slice from to l = take (to - from) (drop from l)

-- `iter().index_of(|&b| b == x)`.
unfoldable pub index_of : ℕ → Bytes → Option ℕ
index_of x [] = none
index_of x (b ∷ l) =
    let later = index_of x l in
    if b == x then some 0 else elim later [ none ↦ none | some i ↦ some (suc i) ]

unfoldable pub contains : ℕ → Bytes → Bool
contains x [] = false
contains x (b ∷ l) = let later = contains x l in if b == x then true else later

unfoldable pub starts_with : Bytes → Bytes → Bool
starts_with l [] = true
starts_with [] (p ∷ ps) = false
starts_with (b ∷ l) (p ∷ ps) = let more = starts_with l ps in if b == p then more else false

-- The first window that is the needle.
unfoldable pub find_window : Bytes → Bytes → Option ℕ
unfolding starts_with
find_window [] needle = none
find_window (b ∷ l) needle =
    let later = find_window l needle in
    if starts_with (b ∷ l) needle
    then some 0
    else elim later [ none ↦ none | some i ↦ some (suc i) ]

unfoldable pub sum : Bytes → ℕ
sum [] = 0
sum (b ∷ l) = b + sum l

-- A code point in UTF-8.
unfoldable pub utf8_char : ℕ → Bytes
utf8_char c =
    if ltb c 0x80
    then c ∷ []
    else if ltb c 0x800
    then (0xc0 + c / 64) ∷ (0x80 + c % 64) ∷ []
    else if ltb c 0x10000
    then (0xe0 + c / 4096) ∷ (0x80 + c / 64 % 64) ∷ (0x80 + c % 64) ∷ []
    else (0xf0 + c / 262144) ∷ (0x80 + c / 4096 % 64) ∷ (0x80 + c / 64 % 64) ∷ (0x80 + c % 64) ∷ []

-- `str::as_bytes`.
unfoldable pub utf8 : Text → Bytes
unfolding utf8_char
utf8 [] = []
utf8 (c ∷ s) = utf8_char c ++ utf8 s

-- The code points that a `char` can hold.
abbrev pub is_scalar : ℕ → Bool
is_scalar c = ltb c 0xd800 || (leb 0xe000 c && ltb c 0x110000)

abbrev pub push_char : ℕ → Option Text → Option Text
push_char c none = none
push_char c (some s) = some (c ∷ s)

-- `str::from_utf8`: `need` continuation bytes are due, `acc` holds the bits so far, and a code
-- point below `low` would be overlong.
unfoldable pub from_utf8_in : ℕ → ℕ → ℕ → Bytes → Option Text
from_utf8_in zero acc low [] = some []
from_utf8_in (suc need) acc low [] = none
from_utf8_in zero acc low (b ∷ l) =
    let one = from_utf8_in 0 0 0 l in
    let two = from_utf8_in 1 (b - 0xc0) 0x80 l in
    let three = from_utf8_in 2 (b - 0xe0) 0x800 l in
    let four = from_utf8_in 3 (b - 0xf0) 0x10000 l in
    if ltb b 0x80
    then push_char b one
    else if leb 0xc0 b && ltb b 0xe0
    then two
    else if leb 0xe0 b && ltb b 0xf0
    then three
    else if leb 0xf0 b && ltb b 0xf8
    then four
    else none
from_utf8_in (suc zero) acc low (b ∷ l) =
    let rest = from_utf8_in 0 0 0 l in
    let c = acc * 64 + (b - 0x80) in
    if leb 0x80 b && ltb b 0xc0
    then if leb low c && is_scalar c then push_char c rest else none
    else none
from_utf8_in (suc (suc need)) acc low (b ∷ l) =
    let rest = from_utf8_in (suc need) (acc * 64 + (b - 0x80)) low l in
    if leb 0x80 b && ltb b 0xc0 then rest else none

unfoldable pub from_utf8 : Bytes → Option Text
unfolding from_utf8_in
from_utf8 l = from_utf8_in 0 0 0 l
