-- ===== src/Risk/Exposure.antt =====
-- crates/risk/src/state.rs: the gross notional under each change of a position.
use predigy.Prelude.{unwrap_or, ℕ, ◌+◌, ◌*◌, ◌%◌, ◌≡◌, refl, none, [], ◌∷◌, arith}
use predigy.Prelude.Map.{
  Key, text_key, Map, lookup, insert, remove, lookup-insert, lookup-remove, lookup-insert_self,
  IsUnique,
}
use predigy.Core.{Side, MarketTicker, PositionKey, position_key}
use predigy.Prelude.Word.{u64_mod}
use predigy.Risk.{
  AccountState, position, avg_entry_cents, notional_cents, gross_over, gross_notional_cents,
  set_position,
}
use predigy.Risk.Invariant.{IsAccount}

module _ {ℓ} {K : Type ℓ} ⦃k : Key K⦄ where
  -- Contracts times entry price, summed without a machine word.
  abbrev pub exposure : Map K ℕ → Map K ℕ → ℕ
  exposure avgs [] = 0
  exposure avgs (e ∷ m) = e.1 * unwrap_or (lookup e.0 avgs) 0 + exposure avgs m

  exposure-insert_absent :
      (a : K) (p : ℕ) (avgs m : Map K ℕ)
      → lookup a m ≡ none
      → exposure (insert a p avgs) m ≡ exposure avgs m
  unfolding lookup
  exposure-insert_absent a p avgs [] h = refl
  exposure-insert_absent a p avgs (e ∷ m) h = ground (
    arith,
    k.beq_iff e.0 a,
    k.beq_iff a e.0,
    lookup-insert a e.0 p avgs,
    exposure-insert_absent a p avgs m,
  )

  exposure-remove_absent :
      (a : K) (avgs m : Map K ℕ) → lookup a m ≡ none → exposure (remove a avgs) m ≡ exposure avgs m
  unfolding lookup
  exposure-remove_absent a avgs [] h = refl
  exposure-remove_absent a avgs (e ∷ m) h = ground (
    arith,
    k.beq_iff e.0 a,
    k.beq_iff a e.0,
    lookup-remove a e.0 avgs,
    exposure-remove_absent a avgs m,
  )

  remove_absent : (a : K) (m : Map K ℕ) → lookup a m ≡ none → remove a m ≡ m
  unfolding lookup remove
  remove_absent a [] h = refl
  remove_absent a (e ∷ m) h = ground (arith, remove_absent a m)

  abbrev held : K → Map K ℕ → Map K ℕ → ℕ
  held a avgs m = unwrap_or (lookup a m) 0 * unwrap_or (lookup a avgs) 0

  exposure-insert :
      (a : K) (q p : ℕ) (avgs m : Map K ℕ)
      → IsUnique m
      → exposure (insert a p avgs) (insert a q m) + held a avgs m ≡ exposure avgs m + q * p
  unfolding lookup insert
  exposure-insert a q p avgs [] u = ground (arith, lookup-insert_self a p avgs)
  exposure-insert a q p avgs (e ∷ m) u = ground (
    arith,
    k.beq_iff e.0 a,
    k.beq_iff a e.0,
    lookup-insert_self a p avgs,
    lookup-insert a e.0 p avgs,
    exposure-insert_absent a p avgs m,
    exposure-insert a q p avgs m,
  )

  exposure-remove :
      (a : K) (avgs m : Map K ℕ)
      → IsUnique m
      → exposure (remove a avgs) (remove a m) + held a avgs m ≡ exposure avgs m
  unfolding lookup remove
  exposure-remove a avgs [] u = omega arith
  exposure-remove a avgs (e ∷ m) u = ground (
    arith,
    k.beq_iff e.0 a,
    k.beq_iff a e.0,
    lookup-remove a e.0 avgs,
    exposure-remove_absent a avgs m,
    remove_absent a m,
    exposure-remove a avgs m,
  )

-- The exact sum of an account.
abbrev pub account_exposure : AccountState → ℕ
account_exposure s = exposure s.avg_entry s.positions

gross_over-exposure : (avgs m : Map PositionKey ℕ) → gross_over avgs m ≡ exposure avgs m % u64_mod
unfolding gross_over
gross_over-exposure avgs [] = omega arith
gross_over-exposure avgs (e ∷ m) = omega (arith, gross_over-exposure avgs m)

set_position-exposure :
    (s : AccountState) (m : MarketTicker) (a : Side) (q p : ℕ)
    → IsAccount s
    → account_exposure (set_position s m a q p) + notional_cents s m a ≡ account_exposure s + q * p
unfolding set_position notional_cents position avg_entry_cents
set_position-exposure s m a q p v = ground (
  arith,
  exposure-insert (m, a) q p s.avg_entry s.positions v.unique,
  exposure-remove (m, a) s.avg_entry s.positions v.unique,
)

-- Setting a position, whatever it was and to whatever it is set, moves the gross notional by the
-- new notional of its market and side less the old one, in 64-bit arithmetic: no other market or side
-- has a part in it. The account is well formed.
pub gross_notional_cents-set_position :
    (s : AccountState) (m : MarketTicker) (a : Side) (q p : ℕ)
    → IsAccount s
    → (gross_notional_cents (set_position s m a q p) + notional_cents s m a) % u64_mod
      ≡ (gross_notional_cents s + q * p) % u64_mod
unfolding gross_notional_cents
gross_notional_cents-set_position s m a q p v =
    let s' = set_position s m a q p in
    omega (
      arith,
      gross_over-exposure s.avg_entry s.positions,
      gross_over-exposure s'.avg_entry s'.positions,
      set_position-exposure s m a q p v,
    )
