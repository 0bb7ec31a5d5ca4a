-- ===== src/Oms/KillLaws/Arms.antt =====
-- crates/oms/src/runtime.rs: the command that arms the kill switch.
use predigy.Prelude.{
  if◌then◌else◌, Bool-cases, Option-cases, ℕ, ◌+◌, ◌≡◌, refl, sym, ap, ◌∙◌, inl, inr, Bool, true,
  false, ◌||◌, not, Option, none, some, List, [], ◌∷◌, arith,
}
use predigy.Oms.{
  OrderRecord, is_terminal, Executor, EventChannel, Oms, live_orders, flag_cancel, cancel_live,
  handle_arm,
}
use predigy.Core.{position_key, OrderId}
use predigy.Prelude.Map.{text_key, Map, lookup, lookup-insert, IsUnique}
use predigy.Prelude.Text.{text_eq, text_eq_iff}
use predigy.Oms.KillLaws.{flag_cancel_unknown, flag_cancel_known, cancel_live_nil, cancel_live_cons}
use predigy.Risk.{arm_kill_switch}
use predigy.Prelude.Result.{ok}

abbrev pub listed : OrderId → List OrderId → Bool
listed a [] = false
listed a (b ∷ l) = text_eq b a || listed a l

-- How often an id is in a list.
abbrev pub times : OrderId → List OrderId → ℕ
times a [] = 0
times a (b ∷ l) = if text_eq b a then times a l + 1 else times a l

abbrev pub flagged_if : Bool → Option OrderRecord → Option OrderRecord
flagged_if b none = none
flagged_if b (some r) = some (if b then record r { cancel_in_flight = true } else r)

flagged_if-false : (o : Option OrderRecord) → flagged_if false o ≡ o
flagged_if-false none = refl
flagged_if-false (some _) = refl

lookup-flag_cancel :
    (a cid : OrderId) (m : Map OrderId OrderRecord)
    → lookup a (flag_cancel cid true m) ≡ flagged_if (text_eq cid a) (lookup a m)
lookup-flag_cancel a cid m = elim (Option-cases (lookup cid m)) [
  | inl unknown ↦ rw (flag_cancel_unknown cid true m unknown) (elim (Bool-cases (text_eq cid a)) [
    | inl same ↦ rw same (ground (arith, unknown, at_same same))
    | inr other ↦ rw other (sym (flagged_if-false (lookup a m)))
  ])
  | inr (r, known) ↦
      rw
        (
          flag_cancel_known cid true m r known,
          lookup-insert cid a (record r { cancel_in_flight = true }) m,
        )
        (elim (Bool-cases (text_eq cid a)) [
          | inl same ↦ rw same (ground (arith, known, at_same same))
          | inr other ↦ rw other (sym (flagged_if-false (lookup a m)))
        ])
]
  where
    at_same : text_eq cid a ≡ true → lookup cid m ≡ lookup a m
    at_same h = ap (λ (t : OrderId). lookup t m) ((text_eq_iff cid a).0 h)

abbrev pub is_live : Option OrderRecord → Bool
is_live none = false
is_live (some r) = not (is_terminal r || r.cancel_in_flight)

listed-live_orders_absent :
    (a : OrderId) (m : Map OrderId OrderRecord)
    → lookup a m ≡ none
    → listed a (live_orders m) ≡ false
unfolding lookup live_orders
listed-live_orders_absent a [] h = refl
listed-live_orders_absent a (e ∷ m) h = ground (arith, listed-live_orders_absent a m)

listed-live_orders :
    (a : OrderId) (m : Map OrderId OrderRecord)
    → IsUnique m
    → listed a (live_orders m) ≡ is_live (lookup a m)
unfolding lookup live_orders
listed-live_orders a [] u = refl
listed-live_orders a (e ∷ m) u =
    ground (arith, listed-live_orders a m, listed-live_orders_absent a m, (text_eq_iff e.0 a).0)

times-live_orders_absent :
    (a : OrderId) (m : Map OrderId OrderRecord) → lookup a m ≡ none → times a (live_orders m) ≡ 0
unfolding lookup live_orders
times-live_orders_absent a [] h = refl
times-live_orders_absent a (e ∷ m) h = ground (arith, times-live_orders_absent a m)

times-live_orders :
    (a : OrderId) (m : Map OrderId OrderRecord)
    → IsUnique m
    → times a (live_orders m) ≡ (if is_live (lookup a m) then 1 else 0)
unfolding lookup live_orders
times-live_orders a [] u = refl
times-live_orders a (e ∷ m) u =
    ground (arith, times-live_orders a m, times-live_orders_absent a m, (text_eq_iff e.0 a).0)

-- The venue's state after the cancels of a list of ids.
unfoldable pub cancels : {X : Type 0} → Executor X → List OrderId → X → X
cancels venue [] x = x
cancels venue (cid ∷ l) x = cancels venue l (venue.cancel cid x).1

module _ {X : Type 0} (venue : Executor X) where
  cancel_live_same :
      (l : List OrderId) (oms : Oms X)
      → ((cancel_live venue l oms).executor ≡ cancels venue l oms.executor)
        × ((cancel_live venue l oms).state ≡ oms.state)
  unfolding cancel_live cancels
  cancel_live_same [] oms = (refl, refl)
  cancel_live_same (cid ∷ l) oms =
      let (m, step, flags) = cancel_live_cons venue cid l oms in
      rw step (
        cancel_live_same l
          (record oms { executor = (venue.cancel cid oms.executor).1; orders = m }))

  module _ (works : (cid : OrderId) (x : X) → (venue.cancel cid x).0 ≡ ok tt) where
    cancel_live_works :
        (cid : OrderId) (l : List OrderId) (oms : Oms X)
        → cancel_live venue (cid ∷ l) oms
          ≡ cancel_live venue l (record oms {
            executor = (venue.cancel cid oms.executor).1;
            orders = flag_cancel cid true oms.orders;
          })
    unfolding cancel_live
    cancel_live_works cid l oms = rw (works cid oms.executor) refl

    flagged_twice :
        (a b : Bool) (o : Option OrderRecord)
        → flagged_if b (flagged_if a o) ≡ flagged_if (a || b) o
    flagged_twice true true none = refl
    flagged_twice true true (some _) = refl
    flagged_twice true false none = refl
    flagged_twice true false (some _) = refl
    flagged_twice false b none = refl
    flagged_twice false b (some _) = refl

    lookup-cancel_live :
        (a : OrderId) (l : List OrderId) (oms : Oms X)
        → lookup a (cancel_live venue l oms).orders ≡ flagged_if (listed a l) (lookup a oms.orders)
    lookup-cancel_live a [] oms =
        rw (cancel_live_nil venue oms) (sym (flagged_if-false (lookup a oms.orders)))
    lookup-cancel_live a (cid ∷ l) oms = rw (cancel_live_works cid l oms) (
        lookup-cancel_live a l (record oms {
          executor = (venue.cancel cid oms.executor).1;
          orders = flag_cancel cid true oms.orders;
        })
        ∙ ap (flagged_if (listed a l)) (lookup-flag_cancel a cid oms.orders)
        ∙ flagged_twice (text_eq cid a) (listed a l) (lookup a oms.orders))

    -- Arming the kill switch on a venue that takes cancels sends it a list of cancels, and nothing
    -- else, in which each live order without one in flight stands once and no other id stands at all.
    -- It marks exactly these orders, and changes no other record, no position and no result of the
    -- day. No id is tracked twice.
    pub handle_arm_lem :
        (oms : Oms X) (ch : EventChannel)
        → IsUnique oms.orders
        → let oms' = (handle_arm venue oms ch).1 in
          ((a : OrderId)
            → lookup a oms'.orders
              ≡ flagged_if (is_live (lookup a oms.orders)) (lookup a oms.orders))
          × (oms'.executor ≡ cancels venue (live_orders oms.orders) oms.executor)
          × ((a : OrderId)
              → times a (live_orders oms.orders) ≡ (if is_live (lookup a oms.orders) then 1 else 0))
          × (oms'.state ≡ record oms.state { kill_switch = true })
    unfolding handle_arm arm_kill_switch
    handle_arm_lem oms ch u =
        let armed = record oms { state = record oms.state { kill_switch = true } } in
        let same = cancel_live_same (live_orders oms.orders) armed in
        (
          λ a.
              lookup-cancel_live a (live_orders oms.orders) armed
              ∙ ap (λ b. flagged_if b (lookup a oms.orders)) (listed-live_orders a oms.orders u),
          same.0,
          λ a. times-live_orders a oms.orders u,
          same.1,
        )
