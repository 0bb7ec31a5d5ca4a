-- ===== src/Oms/Spawn.antt =====
-- crates/oms/src/runtime.rs: the configuration and the start of the task.
use predigy.Core.{position_key, OrderId}
use predigy.Oms.Records.{OrderRecord}
use predigy.Oms.Cids.{Files, CidError, CidAllocator, new_allocator, with_store_and_chunk}
use predigy.Oms.Manager.{Oms}
use predigy.Oms.Persist.{StateError, StateFile, load_state, rehydrate}
use predigy.Oms.Runtime.{StateBacking}
use predigy.Prelude.{ℕ, Bool, none, some, []}
use predigy.Prelude.Map.{text_key, Map}
use predigy.Prelude.Text.{Text}
use predigy.Prelude.Result.{Result, ◌>>=◌, ok, err}
use predigy.Risk.{AccountState, new_account, RiskEngine}

pub data CidBacking : Type 0 where
  in_memory : (start_seq : ℕ) → CidBacking
  persistent : (store_path : Text) → (chunk_size : ℕ) → CidBacking

pub record OmsConfig : Type 0 where
  pub strategy_id : Text
  pub cid_backing : CidBacking
  pub state_backing : StateBacking

pub data SpawnError : Type 0 where
  cid_error : CidError → SpawnError
  state_error : StateError → SpawnError

-- The allocator that `try_spawn` builds.
unfoldable pub spawn_allocator :
    OmsConfig
    → CidBacking
    → Files
    → (read_ok write_ok : Bool) → Result CidAllocator CidError × Files
spawn_allocator config (CidBacking.in_memory start_seq) files read_ok write_ok =
    (ok (new_allocator config.strategy_id start_seq), files)
spawn_allocator config (CidBacking.persistent store_path chunk_size) files read_ok write_ok =
    with_store_and_chunk config.strategy_id (record { path = store_path }) chunk_size files read_ok
      write_ok

-- The state that `try_spawn` begins with.
unfoldable pub spawn_state :
    StateBacking → StateFile → ℕ → Result (AccountState × Map OrderId OrderRecord) StateError
spawn_state StateBacking.in_memory file now = ok (new_account, [])
spawn_state StateBacking.persistent file now = load_state file >>= λ found. elim found [
  | none ↦ ok (new_account, [])
  | some s ↦ ok (rehydrate s now)
]

module _ {X : Type 0} where
  abbrev pub spawn_with :
      RiskEngine
      → X
      → Files
      → CidAllocator
      → Result (AccountState × Map OrderId OrderRecord) StateError
      → Result (Oms X) SpawnError
  spawn_with risk x files alloc (err e) = err (SpawnError.state_error e)
  spawn_with risk x files alloc (ok (s, orders)) = ok (record {
    risk = risk;
    executor = x;
    state = s;
    orders = orders;
    cid_alloc = alloc;
    files = files;
  })

  -- The files stay changed also when the start fails.
  unfoldable pub try_spawn :
      OmsConfig
      → RiskEngine
      → X
      → Files
      → StateFile
      → ℕ
      → (read_ok write_ok : Bool) → Result (Oms X) SpawnError × Files
  unfolding spawn_allocator spawn_state
  try_spawn config risk x files file now read_ok write_ok =
      let (alloc, files') = spawn_allocator config config.cid_backing files read_ok write_ok in
      (
        elim alloc [
          | err e ↦ err (SpawnError.cid_error e)
          | ok a ↦ spawn_with risk x files' a (spawn_state config.state_backing file now)
        ],
        files',
      )
