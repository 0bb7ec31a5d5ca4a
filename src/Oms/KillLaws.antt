-- ===== src/Oms/KillLaws.antt =====
-- crates/oms/src/runtime.rs: cancels, and the kill switch.
pub mod Stops
pub mod Arms
use predigy.Prelude.{◌≡◌, refl, ◌⊎◌, inl, inr, Bool, true, false, none, some, List, [], ◌∷◌, arith}
use predigy.Oms.{
  OrderRecord, is_terminal, ExecutorError, Executor, OmsError, Oms, flag_cancel, cancel_result,
  handle_cancel, cancel_live,
}
use predigy.Core.{position_key, OrderId}
use predigy.Prelude.Map.{text_key, Map, lookup, insert}
use predigy.Prelude.Result.{Result, ok, err}
use predigy.Oms.Ledger.{order_key}

-- The branches of a cancel.
module _ {X : Type 0} (venue : Executor X) (oms : Oms X) (cid : OrderId) where
  pub handle_cancel_unknown :
      lookup cid oms.orders ≡ none
      → handle_cancel venue oms cid ≡ (err (OmsError.unknown_order cid), oms)
  unfolding handle_cancel
  handle_cancel_unknown h = ground arith

  pub handle_cancel_done :
      (r : OrderRecord)
      → lookup cid oms.orders ≡ some r
      → is_terminal r ≡ true
      → handle_cancel venue oms cid ≡ (err (OmsError.unknown_order cid), oms)
  unfolding handle_cancel
  handle_cancel_done r h t = ground arith

  pub handle_cancel_live :
      (r : OrderRecord)
      → lookup cid oms.orders ≡ some r
      → is_terminal r ≡ false
      → handle_cancel venue oms cid
        ≡ cancel_result venue
            (record oms { executor = (venue.cancel cid oms.executor).1 })
            cid
            r
            (venue.cancel cid oms.executor).0
  unfolding handle_cancel
  handle_cancel_live r h t = ground arith

pub flag_cancel_unknown :
    (cid : OrderId) (b : Bool) (m : Map OrderId OrderRecord)
    → lookup cid m ≡ none
    → flag_cancel cid b m ≡ m
unfolding flag_cancel
flag_cancel_unknown cid b m h = ground arith

pub flag_cancel_known :
    (cid : OrderId) (b : Bool) (m : Map OrderId OrderRecord) (r : OrderRecord)
    → lookup cid m ≡ some r
    → flag_cancel cid b m ≡ insert cid (record r { cancel_in_flight = b }) m
unfolding flag_cancel
flag_cancel_known cid b m r h = ground arith

module _ {X : Type 0} (venue : Executor X) where
  -- Whatever the answer, only the flag of the record is written.
  pub cancel_result_flag :
      (oms : Oms X) (cid : OrderId) (r : OrderRecord) (answer : Result (Unit {0}) ExecutorError)
      → (b : Bool) × ((cancel_result venue oms cid r answer).1
          ≡ record oms { orders = insert cid (record r { cancel_in_flight = b }) oms.orders })
  unfolding cancel_result
  cancel_result_flag oms cid r (ok _) = (true, refl)
  cancel_result_flag oms cid r (err (ExecutorError.unknown_order _)) = (false, refl)
  cancel_result_flag oms cid r (err ExecutorError.session_closed) = (false, refl)
  cancel_result_flag oms cid r (err (ExecutorError.transport _)) = (false, refl)
  cancel_result_flag oms cid r (err (ExecutorError.rejected_by_venue _)) = (false, refl)

  pub cancel_live_nil : (oms : Oms X) → cancel_live venue [] oms ≡ oms
  unfolding cancel_live
  cancel_live_nil oms = refl

  -- One cancel of the loop: the flag is set, and reset if the executor fails.
  pub cancel_live_cons :
      (cid : OrderId) (l : List OrderId) (oms : Oms X)
      → let flagged = flag_cancel cid true oms.orders in
        (m : Map OrderId OrderRecord) × (cancel_live venue (cid ∷ l) oms
          ≡ cancel_live venue l
              (record oms { executor = (venue.cancel cid oms.executor).1; orders = m }))
        × ((m ≡ flagged) ⊎ (m ≡ flag_cancel cid false flagged))
  unfolding cancel_live
  cancel_live_cons cid l oms =
      let flagged = flag_cancel cid true oms.orders in
      elim (venue.cancel cid oms.executor).0
        as (λ a.
          (m : Map OrderId OrderRecord) × (cancel_live venue l (record oms {
            orders = elim a as (λ _. Map OrderId OrderRecord) [
              | ok _ ↦ flagged
              | err _ ↦ flag_cancel cid false flagged
            ];
            executor = (venue.cancel cid oms.executor).1;
          })
            ≡ cancel_live venue l
                (record oms { executor = (venue.cancel cid oms.executor).1; orders = m }))
          × ((m ≡ flagged) ⊎ (m ≡ flag_cancel cid false flagged))) [
            | ok _ ↦ (flagged, refl, inl refl)
            | err _ ↦ (flag_cancel cid false flagged, refl, inr refl)
          ]
