-- ===== src/Oms/Tests/Stores.antt =====
-- Runs of crates/oms at fixed inputs: client ids and restarts.
use predigy.Prelude.{ℕ, ◌+◌, ◌≡◌, refl, true, false, some, List, [], ◌∷◌, ◌++◌, arith}
use predigy.Oms.{
  OrderRecord, digits, show_u64, parse_from, parse_u64, trim_start, trim_end, trim, Files, CidStore,
  load, save, CidAllocator, with_store_and_chunk, refill, next_cid, snapshot, rehydrate,
}
use predigy.Oms.Tests.{ticker, flat_account, second_cid, live_record}
use predigy.Core.{Side, MarketTicker, position_key, OrderId}
use predigy.Risk.{position, avg_entry_cents}
use predigy.Risk.Invariant.{IsAccount}
use predigy.Oms.CidLaws.{IsClaimed}
use predigy.Oms.CidLaws.Restarts.{
  issue_all, AllDistinct, restart_ids_distinct, refill_failure_repeats,
}
use predigy.Oms.RestartLaws.{reclocked, rehydrate-snapshot}
use predigy.Oms.DigitLaws.{parse_u64-line}
use predigy.Prelude.Map.{text_key, Map, lookup, insert}
use predigy.Prelude.Text.{Text, text_eq}

parse_u64-line_example : parse_u64 (trim (show_u64 1042 ++ 0x0a ∷ [])) ≡ some 1042
parse_u64-line_example = parse_u64-line 1042 (omega arith)

abbrev seven : ℕ
seven = 7

abbrev store : CidStore
store = record { path = 0x70 ∷ [] }

abbrev markets : List MarketTicker
markets = ticker ∷ ticker ∷ ticker ∷ []

abbrev claimed : (prior : ℕ) → CidAllocator
claimed prior = record {
  strategy_id = 0x73 ∷ [];
  next_seq = prior;
  high_water = prior + 2;
  chunk_size = 2;
  store = some store;
}

abbrev disk : Text → Files
disk line = (store.path, line) ∷ []

restart_ids_distinct_example : AllDistinct (
    (issue_all (claimed 0) (disk (0x32 ∷ 0x0a ∷ [])) markets).0
    ++ (issue_all (claimed 4) (disk (0x36 ∷ 0x0a ∷ [])) markets).0)
unfolding with_store_and_chunk load save lookup insert text_eq show_u64 digits issue_all next_cid
    refill parse_u64 parse_from trim trim_start trim_end
restart_ids_distinct_example =
    restart_ids_distinct (0x73 ∷ []) store 2 0 [] markets markets (omega arith) refl (omega arith)
      (claimed 0) (disk (0x32 ∷ 0x0a ∷ [])) refl (claimed 4) (disk (0x36 ∷ 0x0a ∷ [])) refl

abbrev used_up : CidAllocator
used_up = record (claimed 0) { next_seq = 2 }

used_up-IsClaimed : IsClaimed store used_up (disk (0x32 ∷ 0x0a ∷ []))
unfolding load lookup text_eq parse_u64 parse_from trim trim_start trim_end
used_up-IsClaimed = record {
  stored = refl;
  claimed = refl;
  ordered = omega arith;
  chunked = omega arith;
}

refill_failure_repeats_example :
    (next_cid (claimed 2) ticker (disk (0x34 ∷ 0x0a ∷ [])) true).0
    ≡ (next_cid used_up ticker (disk (0x32 ∷ 0x0a ∷ [])) false).0
unfolding with_store_and_chunk load save lookup insert text_eq show_u64 digits next_cid refill
    parse_u64 parse_from trim trim_start trim_end
refill_failure_repeats_example =
    refill_failure_repeats store used_up (claimed 2) ticker (disk (0x32 ∷ 0x0a ∷ []))
      (disk (0x34 ∷ 0x0a ∷ [])) used_up-IsClaimed refl (omega arith) refl

flat_account-IsAccount : IsAccount flat_account
unfolding lookup
flat_account-IsAccount = record { unique = tt; positive = tt; paired = λ k h. refl }

abbrev tracked : Map OrderId OrderRecord
tracked = (second_cid, live_record) ∷ []

rehydrate-snapshot_example :
    let (s', m') = rehydrate (snapshot flat_account tracked) 9 in
    ((a : OrderId) → lookup a m' ≡ reclocked 9 (lookup a tracked))
    × ((n : MarketTicker) (b : Side)
        → (position s' n b ≡ position flat_account n b)
          × (avg_entry_cents s' n b ≡ avg_entry_cents flat_account n b))
    × (s'.daily_realized_pnl_cents ≡ flat_account.daily_realized_pnl_cents)
    × (s'.kill_switch ≡ flat_account.kill_switch)
unfolding lookup
rehydrate-snapshot_example =
    rehydrate-snapshot flat_account tracked 9 flat_account-IsAccount (refl, tt) (refl, tt)
