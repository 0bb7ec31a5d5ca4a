-- ===== src/Oms/Manager.antt =====
-- crates/oms/src/runtime.rs: the state of the order manager's task. The venue's state and the file
-- system stand beside it, since its calls change them.
use predigy.Core.{position_key, OrderId, Order, Intent}
use predigy.Oms.Records.{OrderRecord}
use predigy.Oms.Cids.{Files, CidAllocator}
use predigy.Prelude.{ℕ, Bool}
use predigy.Prelude.Map.{text_key, Map}
use predigy.Risk.{AccountState, RiskEngine}

pub record Oms (X : Type 0) : Type 0 where
  pub risk : RiskEngine
  pub executor : X
  pub state : AccountState
  pub orders : Map OrderId OrderRecord
  pub cid_alloc : CidAllocator
  pub files : Files

-- What the environment decides in one step: the clock, and whether a write to disk works.
pub record Env : Type 0 where
  pub now : ℕ
  pub write_ok : Bool

unfoldable pub order_of : OrderId → Intent → Order
order_of cid i = record {
  client_id = cid;
  market = i.market;
  side = i.side;
  action = i.action;
  price = i.price;
  qty = i.qty;
  order_type = i.order_type;
  tif = i.tif;
}
