-- ===== src/Sim/MatchLaws.antt =====
-- crates/sim/src/matching.rs: what a match takes from the book.
use predigy.Prelude.{
  ◌==◌, Option-cases, ℕ, ◌+◌, ◌-◌, ◌≤◌, min, ◌≡◌, refl, ap, subst, ◌⊎◌, inl, inr, Bool, false,
  Option, none, some, arith,
}
use predigy.Book.{OrderBook, Delta, best_yes_bid, best_no_bid, apply_delta}
use predigy.Sim.{
  stamp, Match, next_seq, negated_i32, consume, synth_fill, fill_at, match_touch, sells_unsupported,
  match_by, match_ioc,
}
use predigy.Core.Fees.{taker_fee}
use predigy.Core.{Side, Action, position_key, Price, from_cents, Order, Fill}
use predigy.Prelude.Map.{text_key}
use predigy.Prelude.Int.{ℤ}
use predigy.Prelude.Text.{Text}

-- The touch that an order takes from, and the side it stands on.
abbrev pub touch_side : Side → Side
touch_side Side.yes_side = Side.no_side
touch_side Side.no_side = Side.yes_side

abbrev pub touch : OrderBook → Side → Option (Price × ℕ)
touch b Side.yes_side = best_no_bid b
touch b Side.no_side = best_yes_bid b

-- The delta by which the match writes the book.
abbrev pub taken : OrderBook → Order → Price → ℕ → Delta
taken b o level q = record {
  market = o.market;
  seq = next_seq b.last_seq;
  side = touch_side o.side;
  price = level;
  qty_delta = negated_i32 q;
}

-- What a fill owes to the touch.
pub record TakesTouch (b : OrderBook) (o : Order) (level available : ℕ) (f : Fill) (q : ℕ)
    (terminal : Bool) (b' : OrderBook) : Type 0 where
  pub at_touch : f.price + level ≡ 100
  pub at_limit : f.price ≤ o.price
  pub some_fill : 1 ≤ q
  pub size : q ≡ min o.qty available
  pub booked : f.qty ≡ q
  pub whole : terminal ≡ (q == o.qty)
  pub fee : taker_fee f.price q ≡ some f.fee_cents
  pub book : b' ≡ (apply_delta b (taken b o level q)).0

-- By the kind of the match: a fill takes from the touch, and anything else leaves the book.
abbrev pub MatchPost : OrderBook → Order → Option (Price × ℕ) → Option (OrderBook × Match) → Type 0
MatchPost b o t none = Unit
MatchPost b o none (some (b', Match.filled f q terminal)) = ⊥
MatchPost b o (some (level, available)) (some (b', Match.filled f q terminal)) =
    TakesTouch b o level available f q terminal b'
MatchPost b o t (some (b', _)) = b' ≡ b

fill_at_cases :
    (b : OrderBook) (o : Order) (now : ℤ) (s : Side) (level ask q : ℕ)
    → (fill_at b o now s level ask q ≡ none)
      ⊎ ((f : Fill) × (taker_fee ask q ≡ some f.fee_cents)
          × (f.price ≡ ask)
          × (f.qty ≡ q)
          × (fill_at b o now s level ask q
              ≡ some (consume b o s level q, Match.filled f q (q == o.qty))))
unfolding fill_at synth_fill
fill_at_cases b o now s level ask q = elim (Option-cases (taker_fee ask q)) [
  | inl panic ↦ inl (ground arith)
  | inr (fee, paid) ↦ inr (filled_by fee, paid, refl, refl, ground arith)
]
  where
    filled_by : ℕ → Fill
    filled_by fee = record {
      order_id = o.client_id;
      market = o.market;
      side = o.side;
      action = o.action;
      price = ask;
      qty = q;
      is_maker = false;
      fee_cents = fee;
      ts_ms = stamp now;
    }

fill_at_lem :
    (b : OrderBook) (o : Order) (now : ℤ) (level available : ℕ)
    → level ≤ 100
    → 100 - level ≤ o.price
    → 1 ≤ min o.qty available
    → MatchPost b o
        (some (level, available))
        (fill_at b o now (touch_side o.side) level (100 - level) (min o.qty available))
unfolding consume
fill_at_lem b o now level available low lim some_fill =
    elim (fill_at_cases b o now (touch_side o.side) level (100 - level) (min o.qty available)) [
      | inl panic ↦ rw panic tt
      | inr (f, paid, price, qty, filled) ↦ rw filled (record {
        at_touch = omega (arith, price);
        at_limit = omega (arith, price);
        some_fill = some_fill;
        size = refl;
        booked = qty;
        whole = refl;
        fee = rw price paid;
        book = refl;
      })
    ]

match_touch_cases :
    (b : OrderBook) (o : Order) (now : ℤ) (s : Side) (level available : ℕ)
    → (match_touch b o now s (some (level, available)) ≡ some (b, Match.no_liquidity))
      ⊎ ((level ≤ 100)
          × (100 - level ≤ o.price)
          × (1 ≤ min o.qty available)
          × (match_touch b o now s (some (level, available))
              ≡ fill_at b o now s level (100 - level) (min o.qty available)))
unfolding match_touch from_cents
match_touch_cases b o now s level available = ground arith

match_touch_lem :
    (b : OrderBook) (o : Order) (now : ℤ) (t : Option (Price × ℕ))
    → MatchPost b o t (match_touch b o now (touch_side o.side) t)
unfolding match_touch
match_touch_lem b o now none = refl
match_touch_lem b o now (some (level, available)) =
    elim (match_touch_cases b o now (touch_side o.side) level available) [
      | inl none_left ↦ rw none_left refl
      | inr (low, lim, some_fill, filled) ↦
          rw filled (fill_at_lem b o now level available low lim some_fill)
    ]

unfilled_lem :
    (b : OrderBook) (o : Order) (t : Option (Price × ℕ)) (m : Text)
    → MatchPost b o t (some (b, Match.unsupported m))
unfilled_lem b o none m = refl
unfilled_lem b o (some _) m = refl

match_by_lem :
    (s : Side) (a : Action) (b : OrderBook) (o : Order) (now : ℤ)
    → o.side ≡ s
    → MatchPost b o (touch b s) (match_by s a b o now)
match_by_lem Side.yes_side Action.buy b o now side =
    let t = best_no_bid b in
    subst (λ s. MatchPost b o t (match_touch b o now s t)) (ap touch_side side)
      (match_touch_lem b o now t)
match_by_lem Side.no_side Action.buy b o now side =
    let t = best_yes_bid b in
    subst (λ s. MatchPost b o t (match_touch b o now s t)) (ap touch_side side)
      (match_touch_lem b o now t)
match_by_lem Side.yes_side Action.sell b o now side =
    unfilled_lem b o (best_no_bid b) sells_unsupported
match_by_lem Side.no_side Action.sell b o now side =
    unfilled_lem b o (best_yes_bid b) sells_unsupported

-- Every match of an immediate order: a fill is a buy at the complement of the touch of the other
-- side, not above the order's limit, of the order's quantity or all that stands there, at the taker
-- fee, and the book is the one that the synthetic delta leaves. Without a fill the book stays as it
-- was.
pub match_ioc_lem :
    (b : OrderBook) (o : Order) (now : ℤ) → MatchPost b o (touch b o.side) (match_ioc b o now)
unfolding match_ioc
match_ioc_lem b o now = match_by_lem o.side o.action b o now refl
