-- ===== src/Lib.antt =====
-- Verification library of predigy's trading core: the domain types, the order book, the pre-trade
-- risk engine, the order manager, the simulator, the FIX executor and the REST executor.
--
-- The parts and how they interact. A strategy hands intents to the order manager (crates/oms). It
-- asks the risk engine (crates/risk), which reads and prunes the account state; allocates a client id
-- from a sequence number claimed on disk; sends the order through the executor; and books it. The
-- venue answers with execution reports, which move the order's record and the account's positions.
-- After each turn a snapshot of account and orders replaces the file on disk, from which the next
-- process starts. The order book (crates/book) is fed by snapshots and deltas; the simulator
-- (crates/sim) matches orders against such books in the executor's place, and the FIX executor
-- (crates/kalshi-fix) speaks to the venue in messages over a byte stream. The REST executor
-- (crates/kalshi-exec) sends requests, and has its fills from a poller and a listener. The newer engine
-- (crates/engine-core) gates its intents by kill switches.
--
-- Prelude and its child modules: tests, lists, 64-bit and 32-bit words, integers, text, maps, results.
-- A HashMap or a BTreeMap is an association list; where the source sorts, so does the model.
-- Core: crates/core/src. Sides, Prices, Orders, Positions and Fees have the types and functions of
-- side.rs, market.rs, price.rs, order.rs, intent.rs, fill.rs, position.rs and fees.rs. A panic of the
-- fee computation is `none`. Laws: Core.Fees.Bounds.
-- Book: crates/book/src/lib.rs. LevelMap is `Levels`; `apply_delta` returns the new book with the
-- outcome. Laws: Book.LevelLaws, Book.Deltas, Book.Quotes, Book.Stream,
-- Book.Totals, Book.Overflow.
-- Risk: crates/risk/src. Limits is limits.rs, Account and Snapshots are state.rs, Engine is engine.rs.
-- `check` returns the decision with the state whose window it pruned; an `Instant` is a number of
-- nanoseconds. Laws: Risk.Windows, Risk.Decisions, Risk.Exposure, Risk.Invariant, Risk.Restore.
-- Oms: crates/oms/src. Fills is position_math.rs, Records is record.rs, Digits and Cids are
-- cid.rs, Venue is executor.rs, Persist is persistence.rs; Events, Manager, Handlers, Reports,
-- Reconcile, Runtime and Spawn are runtime.rs. The executor is a record of two functions on a
-- state of its own, and a parameter of all that uses it. The event channel takes a given number of
-- events and then is closed. `turn` is one pass of the loop of `run_task`, on one report or
-- command, with the clock and the success of the disk's writes given; `run_task` folds it over a
-- list of them. Laws: Oms.FillLaws, Oms.RecordLaws, Oms.DigitLaws, Oms.CidLaws, Oms.SubmitLaws,
-- Oms.Kept, Oms.KillLaws, Oms.Ledger, Oms.ReconcileLaws, Oms.RestartLaws,
-- Oms.SavedRuns, with their children.
-- Sim: crates/sim/src. Queue is queue.rs, Matching is matching.rs, Venue is executor.rs, Books is
-- book_store.rs and replay.rs, on the events of bin/md-recorder/src/recorded.rs. Laws: Sim.QueueLaws,
-- Sim.MatchLaws, Sim.FillLevels, Sim.VenueLaws, Sim.ReplayLaws, Sim.Gaps.
-- Fix: crates/kalshi-fix/src. Strings has the slices and the UTF-8 of the standard library; Tags, Frames,
-- Sessions and Messages are tags.rs, frame.rs with error.rs, session.rs and messages.rs; Floats is the
-- `f64` parsing, printing and rounding that messages.rs uses; Tasks and Runs are executor.rs. A call
-- that fails gives an error of the crate or a panic. `run_step` is one arm of the task's `select!`, on
-- the bytes that arrived, a command or a tick, with the writer's answer and the clock's readings
-- given. A message's text is code points and its bytes are UTF-8. Laws: Fix.Utf8Laws,
-- Fix.SliceLaws, Fix.FieldLaws, Fix.FrameLaws, Fix.RoundTrip, Fix.Damage, Fix.Partial, Fix.Streams,
-- Fix.SequenceLaws, Fix.WriteLaws, Fix.RunLaws, Fix.Total, Fix.Consumed, Fix.LoopLaws, Fix.StepLaws,
-- Fix.Refusals.
-- Exec: crates/kalshi-exec/src. Mapping is mapping.rs with error.rs and the types of
-- crates/kalshi-rest/src/types.rs that it uses; Tracking and Polling are executor.rs. The answers of
-- the client and the clock are arguments. The listener's turn is `ws_fill`; the poller's are
-- `poll_begin`, `poll_next` and `poll_end`, between which the others may take theirs. A fill of the
-- listener is the record that ws_fill_to_record makes of it, and the venue gives a fill one id on both
-- paths. Laws: Exec.CountLaws, Exec.WireLaws, Exec.FillRaces.
-- Engine: crates/engine-core/src. KillSwitch is the KillSwitchView of oms.rs, a poisoned lock being a
-- map that is none; Marks has conservative_mark_cents of db.rs and cid_safe_ticker of intent.rs. Laws:
-- Engine.SwitchLaws.
-- Each part's Tests modules hold runs at fixed inputs.
--
-- Machine words: the code's sums in `u64` wrap, as in a release build; saturating and checked
-- operations are written out. Loops are structural recursion over the data they walk. The bounds are
-- the fuel of Oms.Digits, 20 digits, since the largest `u64` has 20; that of the loops of the FIX
-- decoder and executor, the length of their buffer, since each round takes a byte at least; and the
-- 1074 doublings of Fix.Floats, the range of the exponent of an `f64`, and its 2000 halvings, past which
-- every number is infinite.
--
-- Not modelled: the other network clients and wire formats, databases and command-line programs, which are
-- input and output; floating-point code (signals, strategies, quotes in dollars); the JSON text of
-- the snapshots and recorded events, whose decoding is taken to give back what was written; logging;
-- the channels of the manager's handle; the rest of engine-core and the binaries.
pub mod Prelude
pub mod Core
pub mod Book
pub mod Risk
pub mod Oms
pub mod Sim
pub mod Fix
pub mod Exec
pub mod Engine
