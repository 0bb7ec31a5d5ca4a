-- ===== src/Book/Quotes.antt =====
-- crates/book/src/lib.rs: the book's invariant, and what the best quotes say of all levels.
use predigy.Prelude.{Option-cases, All, ℕ, ◌+◌, ◌-◌, ◌≤◌, ◌≡◌, inl, inr, none, some, arith}
use predigy.Core.{position_key, complement, IsPrice, complement-IsPrice}
use predigy.Book.{
  get_level, OrderBook, Snapshot, best_yes_bid, best_no_bid, best_yes_ask, yes_spread_cents,
  apply_snapshot,
}
use predigy.Book.LevelLaws.{
  IsAscending, collect-IsAscending, last_level_highest, All-get_level, collect-All,
}

-- Both sides are sorted maps from prices.
pub record IsBook (b : OrderBook) : Type 0 where
  pub yes_ascending : IsAscending 0 b.yes_bids
  pub no_ascending : IsAscending 0 b.no_bids
  pub yes_prices : All (λ e. IsPrice e.0) b.yes_bids
  pub no_prices : All (λ e. IsPrice e.0) b.no_bids

-- A snapshot of prices gives a well-formed book, whatever the book was.
pub apply_snapshot-IsBook :
    (b : OrderBook) (s : Snapshot)
    → All (λ e. IsPrice e.0) s.yes_bids
    → All (λ e. IsPrice e.0) s.no_bids
    → IsBook (apply_snapshot b s)
unfolding apply_snapshot
apply_snapshot-IsBook b s hy hn = record {
  yes_ascending = collect-IsAscending s.yes_bids hy;
  no_ascending = collect-IsAscending s.no_bids hn;
  yes_prices = collect-All (λ e. IsPrice e.0) s.yes_bids hy;
  no_prices = collect-All (λ e. IsPrice e.0) s.no_bids hn;
}

-- In a well-formed book the best YES bid is a level of the book and no YES bid is higher.
pub best_yes_bid_highest :
    (b : OrderBook) (p q : ℕ)
    → IsBook b
    → best_yes_bid b ≡ some (p, q)
    → (get_level p b.yes_bids ≡ some q) × ((j v : ℕ) → get_level j b.yes_bids ≡ some v → j ≤ p)
unfolding best_yes_bid
best_yes_bid_highest b p q v e = last_level_highest 0 p q b.yes_bids v.yes_ascending e

-- What `best_yes_ask` returns, by what `best_no_bid` does.
best_yes_ask_parts :
    (b : OrderBook) (a q p w : ℕ)
    → best_no_bid b ≡ some (p, w)
    → best_yes_ask b ≡ some (a, q)
    → (a ≡ complement p) × (q ≡ w)
unfolding best_yes_ask
best_yes_ask_parts b a q p w found e = ground arith

pub best_no_bid_highest :
    (b : OrderBook) (p q : ℕ)
    → IsBook b
    → best_no_bid b ≡ some (p, q)
    → (get_level p b.no_bids ≡ some q) × ((j v : ℕ) → get_level j b.no_bids ≡ some v → j ≤ p)
unfolding best_no_bid
best_no_bid_highest b p q v e = last_level_highest 0 p q b.no_bids v.no_ascending e

no_bid-IsPrice : (b : OrderBook) (j v : ℕ) → IsBook b → get_level j b.no_bids ≡ some v → IsPrice j
no_bid-IsPrice b j v h e = All-get_level (λ e. IsPrice e.0) j v b.no_bids h.no_prices e

mirror_lowest :
    (b : OrderBook) (p q j v : ℕ)
    → IsBook b
    → best_no_bid b ≡ some (p, q)
    → get_level j b.no_bids ≡ some v
    → complement p ≤ complement j
mirror_lowest b p q j v h e g =
    let top = best_no_bid_highest b p q h e in
    omega (arith, top.1 j v g, no_bid-IsPrice b j v h g, no_bid-IsPrice b p q h top.0)

best_yes_ask-none : (b : OrderBook) → best_no_bid b ≡ none → best_yes_ask b ≡ none
unfolding best_yes_ask
best_yes_ask-none b e = ground arith

-- In a well-formed book the best YES ask mirrors a NO bid: its complement is a level of the NO side
-- with that quantity, and the mirror of any NO bid is at least as high.
pub best_yes_ask_lowest :
    (b : OrderBook) (a q j v : ℕ)
    → IsBook b
    → best_yes_ask b ≡ some (a, q)
    → get_level j b.no_bids ≡ some v
    → IsPrice a × (get_level (complement a) b.no_bids ≡ some q) × (a ≤ complement j)
best_yes_ask_lowest b a q j v h e g = elim (Option-cases (best_no_bid b)) [
  | inl empty ↦ cc (best_yes_ask-none b empty)
  | inr ((p, w), found) ↦
      let (ea, eq) = best_yes_ask_parts b a q p w found e in
      let top = best_no_bid_highest b p w h found in
      let back = complement-IsPrice p (no_bid-IsPrice b p w h top.0) in
      rw (ea, eq, back.1) (back.0, top.0, mirror_lowest b p w j v h found g)
]

-- Between uncrossed quotes the spread is the distance from the best bid to the mirrored ask.
pub yes_spread_cents_lem :
    (b : OrderBook) (p q n w : ℕ)
    → best_yes_bid b ≡ some (p, q)
    → best_no_bid b ≡ some (n, w)
    → IsPrice n
    → p + n ≤ 100
    → (s : ℕ) × (yes_spread_cents b ≡ some s) × (p + s + n ≡ 100)
unfolding yes_spread_cents
yes_spread_cents_lem b p q n w eb en hn uncrossed = (100 - n - p, ground arith, omega arith)
