-- ===== src/Sim/Gaps.antt =====
-- crates/sim/src/matching.rs and replay.rs: a match within a recorded stream.
use predigy.Prelude.{ℕ, ◌+◌, ◌≤◌, ◌≡◌, subst, Bool, Option, none, some, arith}
use predigy.Book.{ApplyOutcome, OrderBook, Delta, write_delta, apply_delta}
use predigy.Sim.{Match, next_seq, match_ioc}
use predigy.Sim.MatchLaws.{touch, taken, MatchPost, match_ioc_lem}
use predigy.Core.{position_key, Price, Order, Fill}
use predigy.Prelude.Map.{text_key}
use predigy.Prelude.Word.{u64_max}
use predigy.Prelude.Int.{ℤ}
use predigy.Prelude.Text.{text_eq_iff}

-- The delta that the recorded stream holds after the number `n`.
abbrev pub IsNextDelta : OrderBook → ℕ → Delta → Type 0
IsNextDelta b n d = (d.market ≡ b.market) × (d.seq ≡ n + 1) × (b.last_seq ≡ some n)

next_delta_applied :
    (b : OrderBook) (n : ℕ) (d : Delta)
    → n + 2 ≤ u64_max
    → IsNextDelta b n d
    → (apply_delta b d).1 ≡ ApplyOutcome.applied
unfolding apply_delta
next_delta_applied b n d fits next = ground (arith, text_eq_iff d.market b.market)

written_seq :
    (b : OrderBook) (n : ℕ) (d : Delta)
    → n + 2 ≤ u64_max
    → IsNextDelta b n d
    → ((apply_delta b d).0.last_seq ≡ some (n + 1)) × ((apply_delta b d).0.market ≡ b.market)
unfolding apply_delta write_delta
written_seq b n d fits next = ground (arith, text_eq_iff d.market b.market)

late_delta_gap :
    (b : OrderBook) (n : ℕ) (d : Delta)
    → n + 2 ≤ u64_max
    → d.market ≡ b.market
    → d.seq ≡ n + 1
    → b.last_seq ≡ some (n + 1)
    → apply_delta b d ≡ (b, ApplyOutcome.gap (n + 2) (n + 1))
unfolding apply_delta
late_delta_gap b n d fits same seq last = ground (arith, text_eq_iff d.market b.market)

module _ (b : OrderBook) (o : Order) (now : ℤ) (n : ℕ) (d : Delta) (b' : OrderBook) (f : Fill)
    (q : ℕ) (terminal : Bool) where
  taken_gap :
      (t : Option (Price × ℕ))
      → o.market ≡ b.market
      → n + 2 ≤ u64_max
      → IsNextDelta b n d
      → MatchPost b o t (some (b', Match.filled f q terminal))
      → apply_delta b' d ≡ (b', ApplyOutcome.gap (n + 2) (n + 1))
  taken_gap none own fits next post = elim post [ ]
  taken_gap (some (level, available)) own fits next post =
      let own_seq : next_seq b.last_seq ≡ n + 1 = ground (arith, next.2) in
      let (seq, market) = written_seq b n (taken b o level q) fits (own, own_seq, next.2) in
      late_delta_gap b' n d fits (rw (post.book, market) next.0) next.1 (rw post.book seq)

  -- A delta that the recorded stream brings next, and that the book would take, is refused as a gap
  -- once an order was filled from the book, since the fill has used up the delta's sequence number:
  -- the book stays without the recorded change.
  pub match_ioc_gap :
      o.market ≡ b.market
      → n + 2 ≤ u64_max
      → IsNextDelta b n d
      → match_ioc b o now ≡ some (b', Match.filled f q terminal)
      → ((apply_delta b d).1 ≡ ApplyOutcome.applied)
        × (apply_delta b' d ≡ (b', ApplyOutcome.gap (n + 2) (n + 1)))
  match_ioc_gap own fits next matched = (
    next_delta_applied b n d fits next,
    taken_gap (touch b o.side) own fits next
        (subst (λ r. MatchPost b o (touch b o.side) r) matched (match_ioc_lem b o now)),
  )
