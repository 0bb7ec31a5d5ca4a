-- ===== src/Risk/Engine.antt =====
-- crates/risk/src/engine.rs: the pre-trade check. It returns the decision and the state, whose
-- window of recent orders it prunes.
use predigy.Prelude.{
  ltb, leb, if◌then◌else◌, ℕ, ◌-◌, ◌*◌, min, Bool, true, false, ◌&&◌, Option, none, some,
}
use predigy.Prelude.Word.{saturating_add32, saturating_add64}
use predigy.Core.{Side, Action, MarketTicker, position_key, Intent, intent_notional_cents}
use predigy.Risk.Limits.{PerMarketLimits, AccountLimits, RateLimits, RiskLimits, for_market}
use predigy.Risk.Account.{
  AccountState, position, avg_entry_cents, notional_cents, gross_notional_cents,
  daily_realized_loss_cents, orders_in_window,
}

pub data Reason : Type 0 where
  kill_switch_active : Reason
  position_limit_exceeded : MarketTicker → Side → (current would_be limit : ℕ) → Reason
  notional_limit_exceeded :
      MarketTicker → Side → (current_cents would_be_cents limit_cents : ℕ) → Reason
  gross_notional_limit_exceeded : (current_cents would_be_cents limit_cents : ℕ) → Reason
  daily_loss_breaker : (realized_loss_cents limit_cents : ℕ) → Reason
  order_rate_exceeded : (recent_count window limit : ℕ) → Reason

pub data Decision : Type 0 where
  approve : Decision
  reject : Reason → Decision

abbrev pub is_approved : Decision → Bool
is_approved approve = true
is_approved (reject _) = false

pub record Projection : Type 0 where
  pub current_position : ℕ
  pub would_be_position : ℕ
  pub current_market_side_notional_cents : ℕ
  pub would_be_market_side_notional_cents : ℕ
  pub current_gross_notional_cents : ℕ
  pub would_be_gross_notional_cents : ℕ

-- The three values after a full fill, by the intent's action.
unfoldable pub project_action : Action → Intent → AccountState → Projection
project_action Action.buy i s =
    let current = position s i.market i.side in
    let notional = notional_cents s i.market i.side in
    let gross = gross_notional_cents s in
    let added = intent_notional_cents i in
    record {
      current_position = current;
      would_be_position = saturating_add32 current i.qty;
      current_market_side_notional_cents = notional;
      would_be_market_side_notional_cents = saturating_add64 notional added;
      current_gross_notional_cents = gross;
      would_be_gross_notional_cents = saturating_add64 gross added;
    }
project_action Action.sell i s =
    let current = position s i.market i.side in
    let notional = notional_cents s i.market i.side in
    let gross = gross_notional_cents s in
    let closed = min i.qty current in
    let reduction = closed * avg_entry_cents s i.market i.side in
    record {
      current_position = current;
      would_be_position = current - closed;
      current_market_side_notional_cents = notional;
      would_be_market_side_notional_cents = notional - reduction;
      current_gross_notional_cents = gross;
      would_be_gross_notional_cents = gross - reduction;
    }

unfoldable pub project_full_fill : Intent → AccountState → Projection
unfolding project_action
project_full_fill i s = project_action i.action i s

pub record RiskEngine : Type 0 where
  pub limits : RiskLimits

abbrev pub set_limits : RiskEngine → RiskLimits → RiskEngine
set_limits engine limits = record engine { limits = limits }

-- The rate limit, which prunes the window.
unfoldable pub check_rate : RateLimits → AccountState → ℕ → Option Reason × AccountState
check_rate rate s now =
    let (pruned, recent) = orders_in_window s now rate.window in
    if ltb 0 rate.max_orders_per_window
    then (
      if leb rate.max_orders_per_window recent
          then some (Reason.order_rate_exceeded recent rate.window rate.max_orders_per_window)
          else none,
      pruned,
    )
    else (none, s)

unfoldable pub check_daily_loss : AccountLimits → AccountState → Option Reason
check_daily_loss account s =
    let loss = daily_realized_loss_cents s in
    if ltb 0 account.max_daily_loss_cents && leb account.max_daily_loss_cents loss
    then some (Reason.daily_loss_breaker loss account.max_daily_loss_cents)
    else none

-- The three limits on the projection, the first breach first.
unfoldable pub check_projection :
    PerMarketLimits → AccountLimits → Intent → Projection → Option Reason
check_projection per_market account i p =
    if ltb 0 per_market.max_contracts_per_side
      && ltb per_market.max_contracts_per_side p.would_be_position
    then some (
        Reason.position_limit_exceeded i.market i.side p.current_position p.would_be_position
          per_market.max_contracts_per_side)
    else if ltb 0 per_market.max_notional_cents_per_side
        && ltb per_market.max_notional_cents_per_side p.would_be_market_side_notional_cents
    then some (
        Reason.notional_limit_exceeded i.market i.side p.current_market_side_notional_cents
          p.would_be_market_side_notional_cents per_market.max_notional_cents_per_side)
    else if ltb 0 account.max_gross_notional_cents
        && ltb account.max_gross_notional_cents p.would_be_gross_notional_cents
    then some (
        Reason.gross_notional_limit_exceeded p.current_gross_notional_cents
          p.would_be_gross_notional_cents account.max_gross_notional_cents)
    else none

abbrev pub decide : Option Reason → Decision
decide none = approve
decide (some r) = reject r

-- An early return.
abbrev pub or_else : Option Reason → Option Reason → Option Reason
or_else none next = next
or_else (some r) next = some r

unfoldable pub check : RiskEngine → Intent → AccountState → ℕ → Decision × AccountState
check engine i s now =
    if s.kill_switch
    then (reject Reason.kill_switch_active, s)
    else let (rate, pruned) = check_rate engine.limits.rate s now in
      (
        decide (
            or_else rate (
              or_else (check_daily_loss engine.limits.account pruned) (
                check_projection (for_market engine.limits i.market) engine.limits.account i
                  (project_full_fill i pruned)))),
        pruned,
      )
