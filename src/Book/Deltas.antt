-- ===== src/Book/Deltas.antt =====
-- crates/book/src/lib.rs: what `apply_delta` accepts and what it does to every level.
use predigy.Prelude.{
  ◌==◌, if◌then◌else◌, unwrap_or, ℕ, ◌≤◌, ◌≡◌, refl, ◌≢◌, ◌↔◌, ◌⊎◌, ◌&&◌, Option, none, some, arith,
}
use predigy.Prelude.Int.{ℤ, pos_part, ◌+ℤ◌, leb_ℤ, pos}
use predigy.Prelude.Text.{text_eq_iff}
use predigy.Prelude.Word.{u32_max, add64}
use predigy.Core.{Side, side_eq, position_key, Price}
use predigy.Book.{
  Levels, get_level, ApplyOutcome, OrderBook, Delta, u32_or_zero, adjust_level, write_delta,
  apply_delta,
}
use predigy.Book.LevelLaws.{get_level-insert_level, get_level-remove_level}

-- A delta is for the book's market and, if a sequence number is known, bears the next one.
abbrev pub Accepts : OrderBook → Delta → Type 0
Accepts b d =
    (d.market ≡ b.market)
    × ((b.last_seq ≡ none) ⊎ ((last : ℕ) × (b.last_seq ≡ some last) × (d.seq ≡ add64 last 1)))

abbrev pub side_levels : OrderBook → Side → Levels
side_levels b Side.yes_side = b.yes_bids
side_levels b Side.no_side = b.no_bids

-- A level as a signed sum: an absent level counts 0, and a sum of at most 0 leaves no level.
abbrev pub net_level : Option ℕ → ℤ → Option ℕ
net_level existing d =
    let total = pos (unwrap_or existing 0) +ℤ d in
    if leb_ℤ total (pos 0) then none else some (pos_part total)

-- The sum fits a `u32`.
abbrev pub Fits : Option ℕ → ℤ → Type 0
Fits existing d = pos_part (pos (unwrap_or existing 0) +ℤ d) ≤ u32_max

pub get_level-adjust_level :
    (p j : ℕ) (d : ℤ) (m : Levels)
    → Fits (get_level p m) d
    → get_level j (adjust_level p d m)
      ≡ (if p == j then net_level (get_level p m) d else get_level j m)
unfolding adjust_level ◌+ℤ◌
get_level-adjust_level p j d m fits = ground (
  arith,
  get_level-insert_level p j (u32_or_zero (pos (unwrap_or (get_level p m) 0) +ℤ d)) m,
  get_level-insert_level p j (u32_or_zero d) m,
  get_level-remove_level p j m,
)

-- A delta is applied exactly if it is for the book's market and in sequence.
pub apply_delta_iff :
    (b : OrderBook) (d : Delta) → ((apply_delta b d).1 ≡ ApplyOutcome.applied) ↔ Accepts b d
unfolding apply_delta
apply_delta_iff b d = ground (arith, text_eq_iff d.market b.market)

-- A delta that is refused, for its market or its sequence number, changes nothing.
pub apply_delta_refused :
    (b : OrderBook) (d : Delta)
    → (apply_delta b d).1 ≢ ApplyOutcome.applied
    → (apply_delta b d).0 ≡ b
unfolding apply_delta
apply_delta_refused b d h = ground arith

write_delta_levels :
    (b : OrderBook) (d : Delta) (s t : Side) (j : Price)
    → Fits (get_level d.price (side_levels b s)) d.qty_delta
    → get_level j (side_levels (write_delta b d s) t) ≡ (
        if side_eq s t && d.price == j
        then net_level (get_level d.price (side_levels b s)) d.qty_delta
        else get_level j (side_levels b t))
unfolding write_delta
write_delta_levels b d Side.yes_side Side.yes_side j fits =
    get_level-adjust_level d.price j d.qty_delta b.yes_bids fits
write_delta_levels b d Side.yes_side Side.no_side j fits = refl
write_delta_levels b d Side.no_side Side.yes_side j fits = refl
write_delta_levels b d Side.no_side Side.no_side j fits =
    get_level-adjust_level d.price j d.qty_delta b.no_bids fits

pub write_delta_seq :
    (b : OrderBook) (d : Delta) (s : Side) → (write_delta b d s).last_seq ≡ some d.seq
unfolding write_delta
write_delta_seq b d Side.yes_side = refl
write_delta_seq b d Side.no_side = refl

pub apply_delta-write_delta :
    (b : OrderBook) (d : Delta) → Accepts b d → (apply_delta b d).0 ≡ write_delta b d d.side
unfolding apply_delta
apply_delta-write_delta b d ok = ground (arith, text_eq_iff d.market b.market)

-- An accepted delta becomes the book's last sequence number. Provided the new size fits 32 bits, it
-- sets the level at its side and price to the old size plus the signed change, or to no level if
-- that is at most 0; every other level of both sides stays as it was.
pub apply_delta_levels :
    (b : OrderBook) (d : Delta) (t : Side) (j : Price)
    → Accepts b d
    → Fits (get_level d.price (side_levels b d.side)) d.qty_delta
    → ((apply_delta b d).0.last_seq ≡ some d.seq)
      × (get_level j (side_levels (apply_delta b d).0 t) ≡ (
          if side_eq d.side t && d.price == j
          then net_level (get_level d.price (side_levels b d.side)) d.qty_delta
          else get_level j (side_levels b t)))
apply_delta_levels b d t j ok fits =
    rw (apply_delta-write_delta b d ok)
      (write_delta_seq b d d.side, write_delta_levels b d d.side t j fits)
