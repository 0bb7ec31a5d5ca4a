-- ===== src/Risk/Limits.antt =====
-- crates/risk/src/limits.rs: every limit that the risk engine enforces; 0 disables a limit.
use predigy.Prelude.{unwrap_or, ℕ}
use predigy.Prelude.Map.{text_key, Map, lookup}
use predigy.Core.{MarketTicker, position_key}

pub record PerMarketLimits : Type 0 where
  pub max_contracts_per_side : ℕ
  pub max_notional_cents_per_side : ℕ

pub record AccountLimits : Type 0 where
  pub max_gross_notional_cents : ℕ
  pub max_daily_loss_cents : ℕ

pub record RateLimits : Type 0 where
  pub max_orders_per_window : ℕ
  pub window : ℕ

pub record RiskLimits : Type 0 where
  pub per_market : PerMarketLimits
  pub per_market_overrides : Map MarketTicker PerMarketLimits
  pub account : AccountLimits
  pub rate : RateLimits

unfoldable pub for_market : RiskLimits → MarketTicker → PerMarketLimits
for_market l m = unwrap_or (lookup m l.per_market_overrides) l.per_market
