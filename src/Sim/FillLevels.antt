-- ===== src/Sim/FillLevels.antt =====
-- crates/sim/src/matching.rs: the levels of the book after a match.
use predigy.Prelude.{
  leb, ◌==◌, if◌then◌else◌, Option-cases, ℕ, ◌-◌, ◌≤◌, ◌≡◌, refl, subst, ◌∙◌, inl, inr, Bool, ◌&&◌,
  Option, none, some, arith,
}
use predigy.Book.{get_level, OrderBook}
use predigy.Sim.{Match, negated_i32, match_ioc}
use predigy.Sim.MatchLaws.{touch_side, touch, taken, TakesTouch, MatchPost, match_ioc_lem}
use predigy.Book.Quotes.{IsBook, best_yes_bid_highest, best_no_bid_highest}
use predigy.Book.Deltas.{Accepts, side_levels, net_level, Fits, apply_delta_levels}
use predigy.Core.{Side, side_eq, position_key, Price, Order, Fill}
use predigy.Prelude.Map.{text_key}
use predigy.Prelude.Word.{i32_max}
use predigy.Prelude.Int.{ℤ, ◌+ℤ◌, ◌-ℤ◌}

taken-Accepts :
    (b : OrderBook) (o : Order) (level q : ℕ) → o.market ≡ b.market → Accepts b (taken b o level q)
taken-Accepts b o level q own = elim (Option-cases b.last_seq) [
  | inl fresh ↦ (own, inl fresh)
  | inr (n, last) ↦ (own, inr (n, last, ground (arith, last)))
]

touch_level :
    (b : OrderBook) (side : Side) (level available : ℕ)
    → IsBook b
    → touch b side ≡ some (level, available)
    → get_level level (side_levels b (touch_side side)) ≡ some available
touch_level b Side.yes_side level available v t = (best_no_bid_highest b level available v t).0
touch_level b Side.no_side level available v t = (best_yes_bid_highest b level available v t).0

-- The level less what was taken.
abbrev pub reduced : ℕ → ℕ → Option ℕ
reduced available q = if leb available q then none else some (available - q)

net_level-taken :
    (available q : ℕ)
    → available ≤ i32_max
    → q ≤ available
    → (net_level (some available) (negated_i32 q) ≡ reduced available q)
      × Fits (some available) (negated_i32 q)
unfolding ◌+ℤ◌ ◌-ℤ◌
net_level-taken available q word enough = ground arith

module _ (b : OrderBook) (o : Order) (now : ℤ) (b' : OrderBook) (f : Fill) (q : ℕ) (terminal : Bool)
    (level available : ℕ) (s : Side) (j : Price) where
  -- A fill takes exactly its quantity from the touch of the other side, which it clears if nothing is
  -- left, and no other level of the book changes. The order is for the book's market, and the touch
  -- holds at most the largest signed 32-bit number of contracts.
  pub match_ioc_levels :
      IsBook b
      → o.market ≡ b.market
      → touch b o.side ≡ some (level, available)
      → available ≤ i32_max
      → match_ioc b o now ≡ some (b', Match.filled f q terminal)
      → get_level j (side_levels b' s) ≡ (
          if side_eq (touch_side o.side) s && level == j
          then reduced available q
          else get_level j (side_levels b s))
  match_ioc_levels v own at word matched =
      let post : TakesTouch b o level available f q terminal b' =
        subst (λ r. MatchPost b o (some (level, available)) r) matched
          (subst (λ t. MatchPost b o t (match_ioc b o now)) at (match_ioc_lem b o now)) in
      let held = touch_level b o.side level available v at in
      let (net, fits) = net_level-taken available q word (omega (arith, post.size)) in
      rw post.book (
        (apply_delta_levels b (taken b o level q) s j (taken-Accepts b o level q own)
          (rw held fits)).1
        ∙ rw (held, net) refl)
