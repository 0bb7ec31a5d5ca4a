-- ===== src/Risk/Decisions.antt =====
-- crates/risk/src/engine.rs: what the pre-trade check lets through.
use predigy.Prelude.{
  ltb, if◌then◌else◌, Bool-cases, ℕ, ◌≤◌, ◌<◌, min, ◌≡◌, refl, ◌↔◌, ◌⊎◌, inl, inr, false, none,
  List, arith,
}
use predigy.Prelude.Word.{u32_max}
use predigy.Core.{Action, Intent}
use predigy.Risk.{
  PerMarketLimits, AccountLimits, RateLimits, for_market, AccountState, position, avg_entry_cents,
  notional_cents, gross_notional_cents, daily_realized_loss_cents, window_cutoff, prune,
  orders_in_window, Decision, Projection, project_action, project_full_fill, RiskEngine, check_rate,
  check_daily_loss, check_projection, check,
}
use predigy.Risk.Windows.{count_since, IsSince, count_since-prune, length-prune}

-- A limit of 0 is off.
abbrev pub AtMost : ℕ → ℕ → Type 0
AtMost cap v = (cap ≡ 0) ⊎ (v ≤ cap)

abbrev pub Under : ℕ → ℕ → Type 0
Under cap v = (cap ≡ 0) ⊎ (v < cap)

-- Every limit, as the configuration documents it.
pub record IsWithin (e : RiskEngine) (i : Intent) (s : AccountState) (now : ℕ) : Type 0 where
  pub disarmed : s.kill_switch ≡ false
  pub rate :
      Under e.limits.rate.max_orders_per_window
        (min (count_since (window_cutoff now e.limits.rate.window) s.recent_orders) u32_max)
  pub loss : Under e.limits.account.max_daily_loss_cents (daily_realized_loss_cents s)
  pub contracts :
      AtMost
        (for_market e.limits i.market).max_contracts_per_side
        (project_full_fill i s).would_be_position
  pub notional :
      AtMost
        (for_market e.limits i.market).max_notional_cents_per_side
        (project_full_fill i s).would_be_market_side_notional_cents
  pub gross :
      AtMost e.limits.account.max_gross_notional_cents
        (project_full_fill i s).would_be_gross_notional_cents

project_action_recent :
    (a : Action) (i : Intent) (s : AccountState) (l : List ℕ)
    → project_action a i (record s { recent_orders = l }) ≡ project_action a i s
unfolding project_action position notional_cents avg_entry_cents gross_notional_cents
project_action_recent Action.buy i s l = refl
project_action_recent Action.sell i s l = refl

project_recent :
    (i : Intent) (s : AccountState) (l : List ℕ)
    → project_full_fill i (record s { recent_orders = l }) ≡ project_full_fill i s
unfolding project_full_fill
project_recent i s l = project_action_recent i.action i s l

loss_recent :
    (s : AccountState) (l : List ℕ)
    → daily_realized_loss_cents (record s { recent_orders = l }) ≡ daily_realized_loss_cents s
unfolding daily_realized_loss_cents
loss_recent s l = refl

check_projection_iff :
    (m : PerMarketLimits) (a : AccountLimits) (i : Intent) (p : Projection)
    → (check_projection m a i p ≡ none) ↔ (
        AtMost m.max_contracts_per_side p.would_be_position
        × AtMost m.max_notional_cents_per_side p.would_be_market_side_notional_cents
        × AtMost a.max_gross_notional_cents p.would_be_gross_notional_cents)
unfolding check_projection
check_projection_iff m a i p = ground arith

check_daily_loss_iff :
    (a : AccountLimits) (s : AccountState)
    → (check_daily_loss a s ≡ none) ↔ Under a.max_daily_loss_cents (daily_realized_loss_cents s)
unfolding check_daily_loss
check_daily_loss_iff a s = ground arith

check_rate_iff :
    (r : RateLimits) (s : AccountState) (now b : ℕ)
    → IsSince b s.recent_orders
    → ((check_rate r s now).0 ≡ none)
      ↔ Under r.max_orders_per_window
          (min (count_since (window_cutoff now r.window) s.recent_orders) u32_max)
unfolding check_rate orders_in_window
check_rate_iff r s now b h =
    ground (arith, length-prune (window_cutoff now r.window) b s.recent_orders h)

-- The rate check touches the window only.
recent_after : RateLimits → AccountState → ℕ → List ℕ
recent_after r s now =
    if ltb 0 r.max_orders_per_window
    then prune (window_cutoff now r.window) s.recent_orders
    else s.recent_orders

check_rate_state :
    (r : RateLimits) (s : AccountState) (now : ℕ)
    → (check_rate r s now).1 ≡ record s { recent_orders = recent_after r s now }
unfolding check_rate orders_in_window recent_after
check_rate_state r s now = ground arith

recent_after_counts :
    (r : RateLimits) (s : AccountState) (now c : ℕ)
    → window_cutoff now r.window ≤ c
    → count_since c (recent_after r s now) ≡ count_since c s.recent_orders
unfolding recent_after
recent_after_counts r s now c h =
    ground (arith, count_since-prune (window_cutoff now r.window) c s.recent_orders)

-- A check, approving or not, changes nothing but the window of recent orders, and of that it
-- forgets no order that the window still holds.
pub check_state :
    (e : RiskEngine) (i : Intent) (s : AccountState) (now : ℕ)
    → (l : List ℕ) × ((check e i s now).1 ≡ record s { recent_orders = l })
      × ((c : ℕ)
          → window_cutoff now e.limits.rate.window ≤ c
          → count_since c l ≡ count_since c s.recent_orders)
unfolding check
check_state e i s now = elim (Bool-cases s.kill_switch) [
  | inl armed ↦ (s.recent_orders, ground arith, λ c h. refl)
  | inr off ↦ (
    recent_after e.limits.rate s now,
    ground (arith, check_rate_state e.limits.rate s now),
    recent_after_counts e.limits.rate s now,
  )
]

-- The check approves an intent exactly if the kill switch is off and every limit that is on holds:
-- the orders in the rolling window and the day's loss lie under theirs, and the position, the
-- notional of the market's side and the gross notional after a full fill at most at theirs.
pub check_approves_iff :
    (e : RiskEngine) (i : Intent) (s : AccountState) (now b : ℕ)
    → IsSince b s.recent_orders
    → ((check e i s now).0 ≡ Decision.approve) ↔ IsWithin e i s now
unfolding check
check_approves_iff e i s now b h =
    let l = recent_after e.limits.rate s now in
    rw (check_rate_state e.limits.rate s now) (
      ground (
        arith,
        check_rate_iff e.limits.rate s now b h,
        check_daily_loss_iff e.limits.account (record s { recent_orders = l }),
        loss_recent s l,
        check_projection_iff (for_market e.limits i.market) e.limits.account i
            (project_full_fill i (record s { recent_orders = l })),
        project_recent i s l,
      ))
