-- ===== src/Book/Totals.antt =====
-- crates/book/src/lib.rs: a level of the book as the sum of the changes of a stream.
use predigy.Prelude.{
  ltb, ◌==◌, if◌then◌else◌, Bool-cases, unwrap_or, ℕ, zero, suc, ◌≡◌, refl, sym, ap, subst, ◌∙◌,
  ◌≢◌, inl, inr, Bool, true, false, ◌&&◌, Option, none, some, List, [], ◌∷◌, arith,
}
use predigy.Prelude.Int.{ℤ, pos_part, ◌+ℤ◌, ◌≤ℤ◌, leb_ℤ, eq_of_parts, int_laws, pos, negsuc}
use predigy.Core.{Side, side_eq, position_key, Price}
use predigy.Book.{
  Levels, get_level, OrderBook, Delta, u32_or_zero, adjust_level, write_delta, apply_delta,
}
use predigy.Book.Deltas.{Accepts, side_levels, write_delta_seq, apply_delta-write_delta}
use predigy.Prelude.Word.{u32_max, add64}
use predigy.Prelude.Map.{text_key}
use predigy.Book.LevelLaws.{get_level-insert_level, get_level-remove_level}
use predigy.Book.Stream.{apply_deltas, IsContiguous, apply_delta_market}
use predigy.Prelude.Text.{Text, text_eq, text_eq_iff}

-- The quantity at a price of a side, 0 where there is no level.
abbrev pub size_at : OrderBook → Side → Price → ℕ
size_at b t j = unwrap_or (get_level j (side_levels b t)) 0

abbrev pub change_at : Side → Price → Delta → ℤ
change_at t j d = if side_eq d.side t && d.price == j then d.qty_delta else pos 0

-- The sum of a stream's changes at a price of a side.
abbrev pub total_at : Side → Price → List Delta → ℤ
total_at t j [] = pos 0
total_at t j (d ∷ ds) = change_at t j d +ℤ total_at t j ds

-- The running sum from a quantity on never leaves the numbers from 0 to the largest `u32`.
abbrev pub StaysInRange : Side → Price → ℤ → List Delta → Type 0
StaysInRange t j v [] = Unit
StaysInRange t j v (d ∷ ds) =
    (pos 0 ≤ℤ v +ℤ change_at t j d)
    × (v +ℤ change_at t j d ≤ℤ pos u32_max)
    × StaysInRange t j (v +ℤ change_at t j d) ds

-- What a change makes of a level, whatever it is.
abbrev pub written_level : Option ℕ → ℤ → Option ℕ
written_level none d = if ltb 0 (u32_or_zero d) then some (u32_or_zero d) else none
written_level (some e) d =
    if leb_ℤ (pos e +ℤ d) (pos 0) then none else some (u32_or_zero (pos e +ℤ d))

get_level-adjust_level_any :
    (p j : ℕ) (d : ℤ) (m : Levels)
    → get_level j (adjust_level p d m)
      ≡ (if p == j then written_level (get_level p m) d else get_level j m)
unfolding adjust_level
get_level-adjust_level_any p j d m = ground (
  arith,
  get_level-insert_level p j (u32_or_zero (pos (unwrap_or (get_level p m) 0) +ℤ d)) m,
  get_level-insert_level p j (u32_or_zero d) m,
  get_level-remove_level p j m,
)

written_level_size :
    (o : Option ℕ) (d : ℤ)
    → pos 0 ≤ℤ pos (unwrap_or o 0) +ℤ d
    → pos (unwrap_or o 0) +ℤ d ≤ℤ pos u32_max
    → pos (unwrap_or (written_level o d) 0) ≡ pos (unwrap_or o 0) +ℤ d
unfolding ◌+ℤ◌
written_level_size none d low high = ground arith
written_level_size (some e) d low high = ground arith

pub level-write_delta :
    (b : OrderBook) (d : Delta) (s t : Side) (j : Price)
    → get_level j (side_levels (write_delta b d s) t) ≡ (
        if side_eq s t && d.price == j
        then written_level (get_level j (side_levels b t)) d.qty_delta
        else get_level j (side_levels b t))
unfolding write_delta
level-write_delta b d Side.yes_side Side.yes_side j =
    ground (arith, get_level-adjust_level_any d.price j d.qty_delta b.yes_bids)
level-write_delta b d Side.yes_side Side.no_side j = refl
level-write_delta b d Side.no_side Side.yes_side j = refl
level-write_delta b d Side.no_side Side.no_side j =
    ground (arith, get_level-adjust_level_any d.price j d.qty_delta b.no_bids)

written_if_size :
    (c : Bool) (o : Option ℕ) (d : ℤ)
    → pos 0 ≤ℤ pos (unwrap_or o 0) +ℤ (if c then d else pos 0)
    → pos (unwrap_or o 0) +ℤ (if c then d else pos 0) ≤ℤ pos u32_max
    → pos (unwrap_or (if c then written_level o d else o) 0)
      ≡ pos (unwrap_or o 0) +ℤ (if c then d else pos 0)
written_if_size true o d low high = written_level_size o d low high
written_if_size false o d low high = eq_of_parts _ _ (omega int_laws)

size_at-apply_delta :
    (b : OrderBook) (d : Delta) (t : Side) (j : Price)
    → Accepts b d
    → pos 0 ≤ℤ pos (size_at b t j) +ℤ change_at t j d
    → pos (size_at b t j) +ℤ change_at t j d ≤ℤ pos u32_max
    → pos (size_at (apply_delta b d).0 t j) ≡ pos (size_at b t j) +ℤ change_at t j d
size_at-apply_delta b d t j accepted low high =
    rw (apply_delta-write_delta b d accepted, level-write_delta b d d.side t j)
      (written_if_size (side_eq d.side t && d.price == j) (get_level j (side_levels b t))
        d.qty_delta low high)

pub +ℤ_assoc : (a b c : ℤ) → a +ℤ b +ℤ c ≡ a +ℤ (b +ℤ c)
+ℤ_assoc a b c = eq_of_parts _ _ (omega int_laws)

-- Quantities alone: an absent level counts 0.
apply_deltas_size :
    (b : OrderBook) (last : ℕ) (ds : List Delta) (t : Side) (j : Price)
    → b.last_seq ≡ some last
    → IsContiguous b.market last ds
    → StaysInRange t j (pos (size_at b t j)) ds
    → pos (size_at (apply_deltas b ds).0 t j) ≡ pos (size_at b t j) +ℤ total_at t j ds
unfolding apply_deltas
apply_deltas_size b last [] t j h c r = eq_of_parts _ _ (omega int_laws)
apply_deltas_size b last (d ∷ ds) t j h c r =
    let accepted : Accepts b d = (c.0, inr (last, h, c.1)) in
    let step = size_at-apply_delta b d t j accepted r.0 r.1 in
    let ih =
      apply_deltas_size (apply_delta b d).0 d.seq ds t j
        (rw (apply_delta-write_delta b d accepted) (write_delta_seq b d d.side))
        (rw (apply_delta_market b d) c.2) (subst (λ v. StaysInRange t j v ds) (sym step) r.2) in
    ih
    ∙ ap (λ v. v +ℤ total_at t j ds) step
    ∙ +ℤ_assoc (pos (size_at b t j)) (change_at t j d) (total_at t j ds)

written_if_nonzero :
    (c : Bool) (o : Option ℕ) (d : ℤ)
    → o ≢ some 0
    → pos (unwrap_or o 0) +ℤ (if c then d else pos 0) ≤ℤ pos u32_max
    → (if c then written_level o d else o) ≢ some 0
unfolding ◌+ℤ◌
written_if_nonzero true none (pos k) n high = ground arith
written_if_nonzero true none (negsuc k) n high = ground arith
written_if_nonzero true (some e) (pos k) n high = ground arith
written_if_nonzero true (some e) (negsuc k) n high = ground arith
written_if_nonzero false o d n high = n

apply_deltas_nonzero :
    (b : OrderBook) (last : ℕ) (ds : List Delta) (t : Side) (j : Price)
    → b.last_seq ≡ some last
    → IsContiguous b.market last ds
    → StaysInRange t j (pos (size_at b t j)) ds
    → get_level j (side_levels b t) ≢ some 0
    → get_level j (side_levels (apply_deltas b ds).0 t) ≢ some 0
unfolding apply_deltas
apply_deltas_nonzero b last [] t j h c r n = n
apply_deltas_nonzero b last (d ∷ ds) t j h c r n =
    let accepted : Accepts b d = (c.0, inr (last, h, c.1)) in
    let step = size_at-apply_delta b d t j accepted r.0 r.1 in
    apply_deltas_nonzero (apply_delta b d).0 d.seq ds t j
      (rw (apply_delta-write_delta b d accepted) (write_delta_seq b d d.side))
      (rw (apply_delta_market b d) c.2) (subst (λ v. StaysInRange t j v ds) (sym step) r.2)
      (rw (apply_delta-write_delta b d accepted, level-write_delta b d d.side t j)
        (written_if_nonzero (side_eq d.side t && d.price == j) (get_level j (side_levels b t))
          d.qty_delta n r.1))

-- The level that a quantity stands for: none for 0.
abbrev pub level_of : ℤ → Option ℕ
level_of v = if leb_ℤ v (pos 0) then none else some (pos_part v)

level_of_size : (o : Option ℕ) (v : ℤ) → o ≢ some 0 → pos (unwrap_or o 0) ≡ v → o ≡ level_of v
level_of_size none v n e = rw (← e) refl
level_of_size (some zero) v n e = absurd (n refl)
level_of_size (some (suc q)) v n e = rw (← e) (ground arith)

abbrev pub fits_next : Text → ℕ → Delta → Bool
fits_next m last d = text_eq d.market m && d.seq == add64 last 1

-- The deltas of a stream that are for the market and bear the number after the last one that was.
abbrev pub in_sequence : Text → ℕ → List Delta → List Delta
in_sequence m last [] = []
in_sequence m last (d ∷ ds) =
    let rest = in_sequence m d.seq ds in
    if fits_next m last d then d ∷ rest else in_sequence m last ds

in_sequence-IsContiguous :
    (m : Text) (last : ℕ) (ds : List Delta) → IsContiguous m last (in_sequence m last ds)
in_sequence-IsContiguous m last [] = tt
in_sequence-IsContiguous m last (d ∷ ds) = elim (Bool-cases (fits_next m last d)) [
  | inl fits ↦
      rw fits (
        (text_eq_iff d.market m).0 (ground arith),
        ground arith,
        in_sequence-IsContiguous m d.seq ds,
      )
  | inr refused ↦ rw refused (in_sequence-IsContiguous m last ds)
]

apply_delta_passed :
    (b : OrderBook) (last : ℕ) (d : Delta)
    → b.last_seq ≡ some last
    → fits_next b.market last d ≡ false
    → (apply_delta b d).0 ≡ b
unfolding apply_delta
apply_delta_passed b last d h f = ground arith

apply_deltas-in_sequence :
    (b : OrderBook) (last : ℕ) (ds : List Delta)
    → b.last_seq ≡ some last
    → (apply_deltas b ds).0 ≡ (apply_deltas b (in_sequence b.market last ds)).0
unfolding apply_deltas
apply_deltas-in_sequence b last [] h = refl
apply_deltas-in_sequence b last (d ∷ ds) h = elim (Bool-cases (fits_next b.market last d)) [
  | inl fits ↦
      let accepted : Accepts b d =
        ((text_eq_iff d.market b.market).0 (ground arith), inr (last, h, ground arith)) in
      let next = (apply_delta b d).0 in
      let ih =
        apply_deltas-in_sequence next d.seq ds
          (rw (apply_delta-write_delta b d accepted) (write_delta_seq b d d.side)) in
      rw fits (rw (apply_delta_market b d) at ih)
  | inr refused ↦
      rw (refused, apply_delta_passed b last d h refused) (apply_deltas-in_sequence b last ds h)
]

-- Any stream of deltas leaves at every price of either side exactly the quantity that was there plus
-- the signed changes there of those deltas that are for the book's market and continue its sequence
-- numbers, whatever other deltas stand between them, and no level where that sum is 0. The book has
-- a last sequence number and no level of quantity 0 at that price, and the running sum does not fall
-- below 0 or pass the largest `u32`.
pub apply_deltas_total :
    (b : OrderBook) (last : ℕ) (ds : List Delta) (t : Side) (j : Price)
    → b.last_seq ≡ some last
    → StaysInRange t j (pos (size_at b t j)) (in_sequence b.market last ds)
    → get_level j (side_levels b t) ≢ some 0
    → get_level j (side_levels (apply_deltas b ds).0 t)
      ≡ level_of (pos (size_at b t j) +ℤ total_at t j (in_sequence b.market last ds))
apply_deltas_total b last ds t j h r n =
    let kept = in_sequence b.market last ds in
    let c = in_sequence-IsContiguous b.market last ds in
    rw (apply_deltas-in_sequence b last ds h) (
      level_of_size _ _ (apply_deltas_nonzero b last kept t j h c r n)
        (apply_deltas_size b last kept t j h c r))
