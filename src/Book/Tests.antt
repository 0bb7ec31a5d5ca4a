-- ===== src/Book/Tests.antt =====
-- Runs of crates/book at fixed inputs.
use predigy.Prelude.{ℕ, ◌≤◌, ◌≡◌, refl, inr, none, some, List, [], ◌∷◌, arith}
use predigy.Book.{get_level, last_level, OrderBook, Delta, best_no_bid, best_yes_ask, apply_delta}
use predigy.Book.Deltas.{side_levels, apply_delta_levels}
use predigy.Book.Quotes.{IsBook, best_yes_ask_lowest}
use predigy.Book.Stream.{apply_deltas, AllApplied, apply_deltas_contiguous, apply_deltas_gap}
use predigy.Core.{Side, position_key, complement, IsPrice}
use predigy.Prelude.Text.{Text, text_eq}
use predigy.Prelude.Int.{ℤ, ◌+ℤ◌, pos, negsuc}
use predigy.Book.Totals.{apply_deltas_total}
use predigy.Prelude.Map.{text_key}

abbrev ticker : Text
ticker = 0x41 ∷ []

abbrev two_sided : OrderBook
two_sided = record {
  market = ticker;
  yes_bids = (40, 100) ∷ (41, 25) ∷ [];
  no_bids = (50, 5) ∷ (55, 30) ∷ [];
  last_seq = some 7;
}

two_sided-IsBook : IsBook two_sided
two_sided-IsBook = record {
  yes_ascending = (omega arith, (omega arith, tt));
  no_ascending = (omega arith, (omega arith, tt));
  yes_prices = (
    record { at_least = omega arith; at_most = omega arith },
    (record { at_least = omega arith; at_most = omega arith }, tt),
  );
  no_prices = (
    record { at_least = omega arith; at_most = omega arith },
    (record { at_least = omega arith; at_most = omega arith }, tt),
  );
}

abbrev change : ℕ → ℤ → Delta
change seq qty_delta = record {
  market = ticker;
  seq = seq;
  side = Side.yes_side;
  price = 41;
  qty_delta = qty_delta;
}

apply_delta_levels_example :
    ((apply_delta two_sided (change 8 (negsuc 9))).0.last_seq ≡ some 8)
    × (get_level 41 (side_levels (apply_delta two_sided (change 8 (negsuc 9))).0 Side.yes_side)
        ≡ some 15)
unfolding get_level ◌+ℤ◌
apply_delta_levels_example =
    apply_delta_levels two_sided (change 8 (negsuc 9)) Side.yes_side 41 (refl, inr (7, refl, refl))
      (omega arith)

best_yes_ask_lowest_example :
    IsPrice 45 × (get_level 55 two_sided.no_bids ≡ some 30) × (45 ≤ complement 50)
unfolding best_yes_ask best_no_bid last_level get_level
best_yes_ask_lowest_example = best_yes_ask_lowest two_sided 45 30 50 5 two_sided-IsBook refl refl

abbrev stream : List Delta
stream = change 8 (pos 5) ∷ change 9 (negsuc 40) ∷ []

apply_deltas_contiguous_example : AllApplied 7 stream (apply_deltas two_sided stream)
apply_deltas_contiguous_example =
    apply_deltas_contiguous two_sided 7 stream refl (refl, refl, (refl, refl, tt))

-- What is added and then taken away in full, with a delta out of sequence between.
abbrev in_and_out : List Delta
in_and_out = change 8 (pos 5) ∷ change 20 (pos 7) ∷ change 9 (negsuc 29) ∷ []

apply_deltas_total_example : get_level 41 (apply_deltas two_sided in_and_out).0.yes_bids ≡ none
unfolding get_level ◌+ℤ◌ text_eq
apply_deltas_total_example =
    apply_deltas_total two_sided 7 in_and_out Side.yes_side 41 refl
      (omega arith, omega arith, (omega arith, omega arith, tt)) (λ h. ground arith)

-- A level near the largest `u32`.
abbrev nearly_full : OrderBook
nearly_full = record two_sided { yes_bids = (41, 4294967290) ∷ [] }

abbrev there_and_back : List Delta
there_and_back = change 8 (pos 10) ∷ change 9 (negsuc 9) ∷ []

apply_deltas_gap_example :
    (apply_deltas two_sided (change 9 (pos 5) ∷ change 10 (pos 1) ∷ [])).0 ≡ two_sided
apply_deltas_gap_example =
    apply_deltas_gap two_sided 7 (change 9 (pos 5) ∷ change 10 (pos 1) ∷ []) refl
      (ground arith, (ground arith, tt))
