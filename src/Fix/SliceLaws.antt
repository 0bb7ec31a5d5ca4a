-- ===== src/Fix/SliceLaws.antt =====
-- Slices and searches of crates/kalshi-fix's byte strings.
use predigy.Prelude.{length, ℕ, ◌+◌, ◌-◌, ◌≡◌, refl, true, some, [], ◌∷◌, ◌++◌, arith}
use predigy.Fix.{Bytes, take, drop, slice, index_of, contains}
use predigy.Fix.Utf8Laws.{Lacks}

pub take-append : (a b : Bytes) → take (length a) (a ++ b) ≡ a
unfolding take
take-append [] b = refl
take-append (x ∷ a) b = cc (take-append a b)

pub drop-append : (a b : Bytes) → drop (length a) (a ++ b) ≡ b
unfolding drop
drop-append [] b = refl
drop-append (x ∷ a) b = drop-append a b

-- The middle of three parts.
pub slice-append :
    (from to : ℕ) (a b c : Bytes)
    → length a ≡ from
    → length a + length b ≡ to
    → slice from to (a ++ (b ++ c)) ≡ b
unfolding slice
slice-append from to a b c e h =
    rw (← e, ← h, drop-append a (b ++ c)) (rw (width) (take-append b c))
  where
    width : length a + length b - length a ≡ length b
    width = omega arith

pub index_of-Lacks : (x : ℕ) (a b : Bytes) → Lacks x a → index_of x (a ++ x ∷ b) ≡ some (length a)
unfolding index_of
index_of-Lacks x [] b h = ground arith
index_of-Lacks x (y ∷ a) b h = ground (arith, index_of-Lacks x a b h.1)

pub contains-append : (x : ℕ) (a b : Bytes) → contains x (a ++ x ∷ b) ≡ true
unfolding contains
contains-append x [] b = ground arith
contains-append x (y ∷ a) b = ground (arith, contains-append x a b)
