-- ===== src/Risk/Tests.antt =====
-- Runs of crates/risk at fixed inputs.
use predigy.Prelude.{◌+◌, ◌%◌, ◌≤◌, ◌≡◌, refl, ◌↔◌, false, [], ◌∷◌, arith}
use predigy.Risk.{
  AccountState, new_account, notional_cents, gross_notional_cents, set_position, Decision,
  RiskEngine, check,
}
use predigy.Core.{Side, Action, MarketTicker, position_key, Intent, limit_intent}
use predigy.Risk.Invariant.{IsAccount, set_position-IsAccount}
use predigy.Risk.Windows.{count_since, send_all, rate_limit_holds}
use predigy.Risk.Decisions.{IsWithin, check_approves_iff}
use predigy.Prelude.Word.{u64_mod}
use predigy.Risk.Exposure.{gross_notional_cents-set_position}
use predigy.Prelude.Map.{text_key, lookup}
use predigy.Prelude.Int.{negsuc}

abbrev ticker : MarketTicker
ticker = 0x41 ∷ []

abbrev engine : RiskEngine
engine = record {
  limits = record {
    per_market = record { max_contracts_per_side = 100; max_notional_cents_per_side = 5000 };
    per_market_overrides = [];
    account = record { max_gross_notional_cents = 10000; max_daily_loss_cents = 2500 };
    rate = record { max_orders_per_window = 2; window = 10 };
  };
}

abbrev buy_ten : Intent
buy_ten = limit_intent ticker Side.yes_side Action.buy 40 10

abbrev account : AccountState
account = record {
  positions = ((ticker, Side.yes_side), 20) ∷ [];
  avg_entry = ((ticker, Side.yes_side), 45) ∷ [];
  daily_realized_pnl_cents = negsuc 99;
  recent_orders = 12 ∷ 25 ∷ [];
  kill_switch = false;
}

account-IsAccount : IsAccount account
unfolding lookup
account-IsAccount = record {
  unique = (refl, tt);
  positive = (omega arith, tt);
  paired = λ k h. ground arith;
}

rate_limit_holds_example :
    count_since 15
      (send_all engine
        (record { state = new_account; history = [] })
        ((20, buy_ten) ∷ (21, buy_ten) ∷ (22, buy_ten) ∷ [])).history
    ≤ 2
unfolding new_account
rate_limit_holds_example =
    rate_limit_holds engine new_account 10 25 ((20, buy_ten) ∷ (21, buy_ten) ∷ (22, buy_ten) ∷ [])
      (omega arith) (omega arith) (omega arith) refl (omega arith, (omega arith, (omega arith, tt)))
      (omega arith)

check_approves_iff_example :
    ((check engine buy_ten account 30).0 ≡ Decision.approve) ↔ IsWithin engine buy_ten account 30
check_approves_iff_example =
    check_approves_iff engine buy_ten account 30 12 (omega arith, (omega arith, tt))

gross_notional_cents-set_position_example :
    (gross_notional_cents (set_position account ticker Side.yes_side 7 50)
        + notional_cents account ticker Side.yes_side)
      % u64_mod
    ≡ (gross_notional_cents account + 350) % u64_mod
gross_notional_cents-set_position_example =
    gross_notional_cents-set_position account ticker Side.yes_side 7 50 account-IsAccount

set_position-IsAccount_example : IsAccount (set_position account ticker Side.yes_side 0 45)
set_position-IsAccount_example =
    set_position-IsAccount account ticker Side.yes_side 0 45 account-IsAccount
