-- ===== src/Engine/KillSwitch.antt =====
-- crates/engine-core/src/oms.rs: the kill switches, one for all strategies and one for each.
use predigy.Prelude.{if◌then◌else◌, unwrap_or, Bool, true, false, Option, none, some, List, [], ◌∷◌}
use predigy.Prelude.Text.{Text}
use predigy.Prelude.Map.{text_key, Map, lookup, insert}

-- The map is none once a writer has panicked under its lock.
pub record KillSwitchView : Type 0 where
  pub armed : Bool
  pub per_strategy : Option (Map Text Bool)

unfoldable pub new_view : KillSwitchView
new_view = record { armed = false; per_strategy = some [] }

-- `arm` and `clear`.
unfoldable pub store_armed : Bool → KillSwitchView → KillSwitchView
store_armed b v = record v { armed = b }

-- `arm_strategy` and `clear_strategy`.
unfoldable pub store_strategy : Text → Bool → KillSwitchView → KillSwitchView
store_strategy strategy b v = elim v.per_strategy [
  | none ↦ v
  | some g ↦ record v { per_strategy = some (insert strategy b g) }
]

unfoldable pub insert_scopes : List (Text × Bool) → Map Text Bool → Map Text Bool
insert_scopes [] g = g
insert_scopes (scope ∷ scopes) g = insert_scopes scopes (insert scope.0 scope.1 g)

unfoldable pub set_strategy_states : List (Text × Bool) → KillSwitchView → KillSwitchView
set_strategy_states scopes v = elim v.per_strategy [
  | none ↦ v
  | some g ↦ record v { per_strategy = some (insert_scopes scopes g) }
]

unfoldable pub is_armed_for : Text → KillSwitchView → Bool
is_armed_for strategy v =
    if v.armed
    then true
    else elim v.per_strategy [ none ↦ true | some g ↦ unwrap_or (lookup strategy g) false ]
