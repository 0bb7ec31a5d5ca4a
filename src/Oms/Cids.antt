-- ===== src/Oms/Cids.antt =====
-- crates/oms/src/cid.rs: client ids from a sequence number that is claimed on disk in chunks. The
-- file system is a map from paths to contents; each call is told whether its read or write works.
-- The temporary file that `save` renames is left out: the target is replaced at once or not at all.
use predigy.Prelude.{
  ◌==◌, if◌then◌else◌, keep, ℕ, Bool, true, false, Option, none, some, [], ◌∷◌, ◌++◌,
}
use predigy.Core.{MarketTicker, position_key, OrderId}
use predigy.Oms.Digits.{show_u64, show_padded, parse_u64, trim}
use predigy.Prelude.Map.{text_key, Map, lookup, insert}
use predigy.Prelude.Word.{u64_max, add64}
use predigy.Prelude.Text.{Text}
use predigy.Prelude.Result.{Result, ok, err}

abbrev pub Files : Type 0
Files = Map Text Text

pub data CidError : Type 0 where
  io : CidError
  parse : Text → CidError

pub record CidStore : Type 0 where
  pub path : Text

-- A missing file reads as 0.
unfoldable pub load : CidStore → Files → Bool → Result ℕ CidError
load store files read_ok =
    if read_ok
    then (elim (lookup store.path files) [
      | none ↦ ok 0
      | some s ↦ elim (parse_u64 (trim s)) [ none ↦ err (CidError.parse (trim s)) | some n ↦ ok n ]
    ])
    else err CidError.io

-- The files after the call, and whether it worked.
unfoldable pub save : CidStore → ℕ → Files → Bool → Files × Bool
save store seq files write_ok =
    (if write_ok then insert store.path (show_u64 seq ++ 0x0a ∷ []) files else files, write_ok)

pub record CidAllocator : Type 0 where
  pub strategy_id : Text
  pub next_seq : ℕ
  pub high_water : ℕ
  pub chunk_size : ℕ
  pub store : Option CidStore

abbrev pub default_chunk_size : ℕ
default_chunk_size = 1000

unfoldable pub new_allocator : Text → ℕ → CidAllocator
new_allocator strategy_id start_seq = record {
  strategy_id = strategy_id;
  next_seq = start_seq;
  high_water = u64_max;
  chunk_size = default_chunk_size;
  store = none;
}

-- After the file's value was read: the next chunk is claimed on disk before it is used.
unfoldable pub claim_chunk :
    Text → CidStore → ℕ → Files → Bool → Result ℕ CidError → Result CidAllocator CidError × Files
claim_chunk strategy_id store chunk_size files write_ok (err e) = (err e, files)
claim_chunk strategy_id store chunk_size files write_ok (ok prior_high_water) =
    let new_high_water = add64 prior_high_water chunk_size in
    let (files', saved) = save store new_high_water files write_ok in
    (
      if saved
          then ok (record {
            strategy_id = strategy_id;
            next_seq = prior_high_water;
            high_water = new_high_water;
            chunk_size = chunk_size;
            store = some store;
          })
          else err CidError.io,
      files',
    )

-- `assert!(chunk_size > 0)` is the callers' duty.
unfoldable pub with_store_and_chunk :
    Text → CidStore → ℕ → Files → (read_ok write_ok : Bool) → Result CidAllocator CidError × Files
unfolding claim_chunk
with_store_and_chunk strategy_id store chunk_size files read_ok write_ok =
    claim_chunk strategy_id store chunk_size files write_ok (load store files read_ok)

unfoldable pub with_store :
    Text → CidStore → Files → (read_ok write_ok : Bool) → Result CidAllocator CidError × Files
unfolding with_store_and_chunk
with_store strategy_id store = with_store_and_chunk strategy_id store default_chunk_size

-- A write that fails is logged only.
unfoldable pub refill : CidAllocator → Files → Bool → CidAllocator × Files
refill a files write_ok = elim a.store [
  | none ↦ (a, files)
  | some store ↦
      let new_high_water = add64 a.high_water a.chunk_size in
      (record a { high_water = new_high_water }, (save store new_high_water files write_ok).0)
]

-- `chars().filter(|c| *c != '.')`.
abbrev pub safe_market : MarketTicker → Text
safe_market = keep (λ c. if c == b'.' then false else true)

-- `format!("{}:{}:{:08}", …)`.
unfoldable pub format_cid : Text → MarketTicker → ℕ → OrderId
format_cid strategy_id market seq =
    strategy_id ++ (b':' ∷ (safe_market market ++ (b':' ∷ show_padded seq)))

unfoldable pub next_cid :
    CidAllocator → MarketTicker → Files → Bool → OrderId × CidAllocator × Files
unfolding refill format_cid
next_cid a market files write_ok =
    let (b, files') = if a.next_seq == a.high_water then refill a files write_ok else (a, files) in
    (format_cid b.strategy_id market b.next_seq, record b { next_seq = add64 b.next_seq 1 }, files')
