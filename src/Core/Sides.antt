-- ===== src/Core/Sides.antt =====
-- crates/core/src/side.rs and market.rs: sides, actions and tickers.
use predigy.Prelude.{if◌then◌else◌, ◌≡◌, refl, ◌↔◌, Bool, true, false, arith}
use predigy.Prelude.Text.{Text, text_eq, text_eq_iff}
use predigy.Prelude.Map.{Key}

-- The constructors are `Side::Yes` and `Side::No`.
pub data Side : Type 0 where
  yes_side : Side
  no_side : Side

pub data Action : Type 0 where
  buy : Action
  sell : Action

abbrev pub MarketTicker : Type 0
MarketTicker = Text

unfoldable pub opposite_side : Side → Side
opposite_side Side.yes_side = Side.no_side
opposite_side Side.no_side = Side.yes_side

unfoldable pub opposite_action : Action → Action
opposite_action Action.buy = Action.sell
opposite_action Action.sell = Action.buy

abbrev pub side_eq : Side → Side → Bool
side_eq Side.yes_side Side.yes_side = true
side_eq Side.yes_side Side.no_side = false
side_eq Side.no_side Side.yes_side = false
side_eq Side.no_side Side.no_side = true

pub side_eq_iff : (a b : Side) → (side_eq a b ≡ true) ↔ (a ≡ b)
side_eq_iff Side.yes_side Side.yes_side = (λ _. refl, λ _. refl)
side_eq_iff Side.yes_side Side.no_side = (λ e. cc, λ e. cc)
side_eq_iff Side.no_side Side.yes_side = (λ e. cc, λ e. cc)
side_eq_iff Side.no_side Side.no_side = (λ _. refl, λ _. refl)

-- The derived order: `Yes` before `No`.
abbrev pub side_lt : Side → Side → Bool
side_lt Side.yes_side Side.yes_side = false
side_lt Side.yes_side Side.no_side = true
side_lt Side.no_side b = false

-- `(MarketTicker, Side)`, the key of every position.
abbrev pub PositionKey : Type 0
PositionKey = MarketTicker × Side

unfoldable pub position_key_eq : PositionKey → PositionKey → Bool
position_key_eq (m, s) (n, t) = if text_eq m n then side_eq s t else false

pub position_key_eq_iff : (a b : PositionKey) → (position_key_eq a b ≡ true) ↔ (a ≡ b)
unfolding position_key_eq
position_key_eq_iff a b = ground (arith, text_eq_iff a.0 b.0, side_eq_iff a.1 b.1)

instance abbrev pub position_key : Key PositionKey
position_key = record { beq = position_key_eq; beq_iff = position_key_eq_iff }
