-- ===== src/Engine/Marks.antt =====
-- crates/engine-core/src/db.rs and intent.rs: the price that an open position is marked at, tickers in
-- ids, and groups of legs.
use predigy.Prelude.{◌==◌, if◌then◌else◌, unwrap_or, zero, suc, Bool, Option, none, some, [], ◌∷◌}
use predigy.Prelude.Text.{Text, text, text_eq}
use predigy.Prelude.Map.{text_key}
use predigy.Prelude.Int.{ℤ, ◌-ℤ◌, pos, negsuc}

-- `signum`.
pub data Sign : Type 0 where
  positive_qty : Sign
  zero_qty : Sign
  negative_qty : Sign

abbrev sign_of : ℤ → Sign
sign_of (pos zero) = zero_qty
sign_of (pos (suc n)) = positive_qty
sign_of (negsuc n) = negative_qty

-- The complement of a quote, which lies within the `i32`.
abbrev no_mark : Option ℤ → Option ℤ
no_mark none = none
no_mark (some c) = some (pos 100 -ℤ c)

-- The quote that the side and the sign choose.
unfoldable pub recent_mark : Text → Sign → (bid ask : Option ℤ) → Option ℤ
recent_mark side positive_qty bid ask =
    if text_eq side (text "yes")
    then bid
    else if text_eq side (text "no")
    then no_mark ask
    else none
recent_mark side zero_qty bid ask = none
recent_mark side negative_qty bid ask =
    if text_eq side (text "yes")
    then ask
    else if text_eq side (text "no")
    then no_mark bid
    else none

abbrev default_mark : Sign → ℤ
default_mark positive_qty = pos 0
default_mark _ = pos 100

unfoldable pub conservative_mark_cents :
    Text → ℤ → (best_yes_bid_cents best_yes_ask_cents : Option ℤ) → (recent : Bool) → ℤ
conservative_mark_cents side qty bid ask recent =
    let mark = unwrap_or (recent_mark side (sign_of qty) bid ask) (default_mark (sign_of qty)) in
    if recent then mark else default_mark (sign_of qty)

-- `replace('.', "")`.
unfoldable pub cid_safe_ticker : Text → Text
cid_safe_ticker [] = []
cid_safe_ticker (c ∷ s) = if c == b'.' then cid_safe_ticker s else c ∷ cid_safe_ticker s
