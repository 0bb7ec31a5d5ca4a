-- ===== src/Engine/Tests.antt =====
-- Runs and theorems of crates/engine-core at fixed inputs.
use predigy.Prelude.{◌≡◌, refl, true, false, ◌||◌, none, some, List, [], ◌∷◌}
use predigy.Prelude.Text.{text, text_eq}
use predigy.Engine.{
  new_view, store_armed, store_strategy, insert_scopes, set_strategy_states, is_armed_for,
  recent_mark, conservative_mark_cents, cid_safe_ticker,
}
use predigy.Prelude.Int.{◌-ℤ◌, pos, negsuc}
use predigy.Prelude.Map.{text_key, lookup, insert}
use predigy.Engine.SwitchLaws.{
  SwitchCall, call_switch, call_switches, armed_after, strategy_after, setting, call_switches_last,
  arm_all, clear_all, arm_strategy, set_states,
}

-- A snapshot without a strategy leaves it as it is, and clearing all leaves it armed.
abbrev calls : List SwitchCall
calls =
    arm_all
    ∷ arm_strategy (text "stat")
    ∷ set_states ((text "arb", true) ∷ (text "arb", false) ∷ [])
    ∷ clear_all
    ∷ []

still_armed : is_armed_for (text "stat") (call_switches calls new_view) ≡ true
unfolding is_armed_for call_switches call_switch store_armed store_strategy set_strategy_states
    insert_scopes insert lookup new_view text text_eq
still_armed = refl

poisoned : is_armed_for (text "arb") (record { armed = false; per_strategy = none }) ≡ true
unfolding is_armed_for
poisoned = refl

long_no_mark :
    conservative_mark_cents (text "no") (pos 5) (some (pos 40)) (some (pos 45)) true ≡ pos 55
unfolding conservative_mark_cents recent_mark text text_eq ◌-ℤ◌
long_no_mark = refl

stale_short_mark :
    conservative_mark_cents (text "yes") (negsuc 4) (some (pos 40)) none false ≡ pos 100
unfolding conservative_mark_cents
stale_short_mark = refl

flat_mark : conservative_mark_cents (text "yes") (pos 0) none none true ≡ pos 100
unfolding conservative_mark_cents recent_mark
flat_mark = refl

dotted_ticker : cid_safe_ticker (text "KX-1.5") ≡ text "KX-15"
unfolding cid_safe_ticker text
dotted_ticker = refl

call_switches_last_example :
    is_armed_for
      (text "arb")
      (call_switches calls (record { armed = false; per_strategy = some [] }))
    ≡ (armed_after calls false || strategy_after (text "arb") calls (setting (text "arb") []))
call_switches_last_example = call_switches_last (text "arb") calls false []
