-- ===== src/Engine/SwitchLaws.antt =====
-- crates/engine-core/src/oms.rs: the kill switches against their last settings.
use predigy.Prelude.{
  if◌then◌else◌, unwrap_or, ◌≡◌, refl, Bool, true, false, ◌||◌, some, List, [], ◌∷◌, arith,
}
use predigy.Prelude.Text.{Text, text_eq}
use predigy.Prelude.Map.{text_key, Map, lookup, insert, lookup-insert}
use predigy.Engine.{
  KillSwitchView, store_armed, store_strategy, insert_scopes, set_strategy_states, is_armed_for,
}

-- A call of one of the methods that write, and calls in turn.
pub data SwitchCall : Type 0 where
  arm_all : SwitchCall
  clear_all : SwitchCall
  arm_strategy : Text → SwitchCall
  clear_strategy : Text → SwitchCall
  set_states : List (Text × Bool) → SwitchCall

unfoldable pub call_switch : SwitchCall → KillSwitchView → KillSwitchView
call_switch arm_all v = store_armed true v
call_switch clear_all v = store_armed false v
call_switch (arm_strategy strategy) v = store_strategy strategy true v
call_switch (clear_strategy strategy) v = store_strategy strategy false v
call_switch (set_states scopes) v = set_strategy_states scopes v

unfoldable pub call_switches : List SwitchCall → KillSwitchView → KillSwitchView
call_switches [] v = v
call_switches (call ∷ calls) v = call_switches calls (call_switch call v)

-- The last setting of the switch for all, from an earlier one.
unfoldable pub armed_after : List SwitchCall → Bool → Bool
armed_after [] b = b
armed_after (arm_all ∷ calls) b = armed_after calls true
armed_after (clear_all ∷ calls) b = armed_after calls false
armed_after (_ ∷ calls) b = armed_after calls b

unfoldable pub last_scope : Text → List (Text × Bool) → Bool → Bool
last_scope strategy [] b = b
last_scope strategy (scope ∷ scopes) b =
    last_scope strategy scopes (if text_eq scope.0 strategy then scope.1 else b)

-- The last setting of the switch of one strategy, from an earlier one.
unfoldable pub strategy_after : Text → List SwitchCall → Bool → Bool
strategy_after strategy [] b = b
strategy_after strategy (arm_strategy s ∷ calls) b =
    strategy_after strategy calls (if text_eq s strategy then true else b)
strategy_after strategy (clear_strategy s ∷ calls) b =
    strategy_after strategy calls (if text_eq s strategy then false else b)
strategy_after strategy (set_states scopes ∷ calls) b =
    strategy_after strategy calls (last_scope strategy scopes b)
strategy_after strategy (_ ∷ calls) b = strategy_after strategy calls b

-- The setting in a map.
unfoldable pub setting : Text → Map Text Bool → Bool
setting strategy g = unwrap_or (lookup strategy g) false

setting-insert :
    (strategy s : Text) (b : Bool) (g : Map Text Bool)
    → setting strategy (insert s b g) ≡ (if text_eq s strategy then b else setting strategy g)
unfolding setting
setting-insert strategy s b g = rw (lookup-insert s strategy b g) (ground arith)

setting-insert_scopes :
    (strategy : Text) (scopes : List (Text × Bool)) (g : Map Text Bool)
    → setting strategy (insert_scopes scopes g) ≡ last_scope strategy scopes (setting strategy g)
unfolding insert_scopes last_scope
setting-insert_scopes strategy [] g = refl
setting-insert_scopes strategy (scope ∷ scopes) g =
    rw (← setting-insert strategy scope.0 scope.1 g)
      (setting-insert_scopes strategy scopes (insert scope.0 scope.1 g))

is_armed_for_lem :
    (strategy : Text) (b : Bool) (g : Map Text Bool)
    → is_armed_for strategy (record { armed = b; per_strategy = some g })
      ≡ (b || setting strategy g)
unfolding is_armed_for setting
is_armed_for_lem strategy b g = ground arith

-- After any calls, a strategy is armed exactly if the last setting of the switch for all, or that of
-- the strategy's own, is on, where a switch that no call sets has the setting it had. The lock is not
-- poisoned.
pub call_switches_last :
    (strategy : Text) (calls : List SwitchCall) (b : Bool) (g : Map Text Bool)
    → is_armed_for strategy (call_switches calls (record { armed = b; per_strategy = some g }))
      ≡ (armed_after calls b || strategy_after strategy calls (setting strategy g))
unfolding call_switches call_switch store_armed store_strategy set_strategy_states armed_after
    strategy_after
call_switches_last strategy [] b g = is_armed_for_lem strategy b g
call_switches_last strategy (arm_all ∷ calls) b g = call_switches_last strategy calls true g
call_switches_last strategy (clear_all ∷ calls) b g = call_switches_last strategy calls false g
call_switches_last strategy (arm_strategy s ∷ calls) b g =
    rw (← setting-insert strategy s true g) (call_switches_last strategy calls b (insert s true g))
call_switches_last strategy (clear_strategy s ∷ calls) b g =
    rw (← setting-insert strategy s false g)
      (call_switches_last strategy calls b (insert s false g))
call_switches_last strategy (set_states scopes ∷ calls) b g =
    rw (← setting-insert_scopes strategy scopes g)
      (call_switches_last strategy calls b (insert_scopes scopes g))
