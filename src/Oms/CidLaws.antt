-- ===== src/Oms/CidLaws.antt =====
-- crates/oms/src/cid.rs: client ids, and the claims on disk that they are drawn from.
use predigy.Oms.{
  show_u64, show_padded, Files, CidStore, load, save, CidAllocator, with_store_and_chunk, refill,
  safe_market, format_cid, next_cid,
}
use predigy.Oms.DigitLaws.{IsDigit, show_padded-IsDigit, parse_from-show_padded, parse_u64-line}
pub mod Restarts
use predigy.Prelude.{
  ◌==◌, if◌then◌else◌, ==_iff, Bool-cases, All, ℕ, ◌+◌, ◌≤◌, ◌<◌, ◌≡◌, refl, inl, inr, true, Option,
  none, some, [], ◌∷◌, ◌++◌, arith,
}
use predigy.Core.{MarketTicker, position_key, OrderId}
use predigy.Prelude.Map.{text_key, lookup-insert_self}
use predigy.Prelude.Word.{u64_max, add64}
use predigy.Prelude.Text.{Text}
use predigy.Prelude.Result.{ok}

-- What follows the last colon.
after_colon : Text → Option Text
after_colon [] = none
after_colon (c ∷ s) = elim (after_colon s) [
  | some t ↦ some t
  | none ↦ if c == b':' then some s else none
]

after_colon-append : (s t d : Text) → after_colon t ≡ some d → after_colon (s ++ t) ≡ some d
unfolding after_colon
after_colon-append [] t d h = h
after_colon-append (c ∷ s) t d h = ground (arith, after_colon-append s t d h)

after_colon-IsDigit : (d : Text) → All IsDigit d → after_colon d ≡ none
unfolding after_colon
after_colon-IsDigit [] h = refl
after_colon-IsDigit (c ∷ s) h = ground (arith, after_colon-IsDigit s h.1)

after_colon-colon : (d : Text) → All IsDigit d → after_colon (b':' ∷ d) ≡ some d
unfolding after_colon
after_colon-colon d h = ground (arith, after_colon-IsDigit d h)

after_colon-format_cid :
    (s : Text) (m : MarketTicker) (n : ℕ) → after_colon (format_cid s m n) ≡ some (show_padded n)
unfolding format_cid
after_colon-format_cid s m n =
    after_colon-append s (b':' ∷ (safe_market m ++ (b':' ∷ show_padded n))) (show_padded n) (
      after_colon-append (b':' ∷ safe_market m) (b':' ∷ show_padded n) (show_padded n)
        (after_colon-colon (show_padded n) (show_padded-IsDigit n)))

-- Ids with different sequence numbers are different, whatever the strategies and the markets.
pub format_cid-injective :
    (s t : Text) (m k : MarketTicker) (i j : ℕ)
    → i ≤ u64_max
    → j ≤ u64_max
    → format_cid s m i ≡ format_cid t k j
    → i ≡ j
format_cid-injective s t m k i j hi hj e =
    let tails : some (show_padded i) ≡ some (show_padded j) =
      cc (after_colon-format_cid s m i, after_colon-format_cid t k j, e) in
    let same : show_padded i ≡ show_padded j = cc tails in
    cc (parse_from-show_padded i hi, parse_from-show_padded j hj, same)

pub load-save :
    (store : CidStore) (n : ℕ) (files : Files)
    → n ≤ u64_max
    → load store (save store n files true).0 true ≡ ok n
unfolding load save
load-save store n files h =
    rw (lookup-insert_self store.path (show_u64 n ++ 0x0a ∷ []) files, parse_u64-line n h)

-- A running allocator whose claim stands on disk: every number below the file's is its own.
pub record IsClaimed (store : CidStore) (a : CidAllocator) (files : Files) : Type 0 where
  pub stored : a.store ≡ some store
  pub claimed : load store files true ≡ ok a.high_water
  pub ordered : a.next_seq ≤ a.high_water
  pub chunked : 0 < a.chunk_size

-- A start claims the next chunk from where the file stood.
pub with_store_and_chunk-IsClaimed :
    (s : Text) (store : CidStore) (chunk prior : ℕ) (files : Files)
    → 0 < chunk
    → load store files true ≡ ok prior
    → prior + chunk ≤ u64_max
    → (a : CidAllocator) × (files' : Files) × (with_store_and_chunk s store chunk files true true
        ≡ (ok a, files'))
      × IsClaimed store a files'
      × (a.next_seq ≡ prior)
      × (a.high_water ≡ prior + chunk)
      × (a.chunk_size ≡ chunk)
      × (a.strategy_id ≡ s)
unfolding with_store_and_chunk save
with_store_and_chunk-IsClaimed s store chunk prior files some_chunk h fits =
    let sum : add64 prior chunk ≡ prior + chunk = omega arith in
    (
      record {
        strategy_id = s;
        next_seq = prior;
        high_water = prior + chunk;
        chunk_size = chunk;
        store = some store;
      },
      (save store (prior + chunk) files true).0,
      rw (h, sum),
      record {
        stored = refl;
        claimed = load-save store (prior + chunk) files fits;
        ordered = omega arith;
        chunked = some_chunk;
      },
      refl,
      refl,
      refl,
      refl,
    )

refill_lem :
    (store : CidStore) (a : CidAllocator) (files : Files)
    → a.store ≡ some store
    → a.high_water + a.chunk_size ≤ u64_max
    → refill a files true ≡ (
      record a { high_water = a.high_water + a.chunk_size },
      (save store (a.high_water + a.chunk_size) files true).0,
    )
unfolding refill
refill_lem store a files h fits =
    let sum : add64 a.high_water a.chunk_size ≡ a.high_water + a.chunk_size = omega arith in
    ground arith

-- What one call of `next` does.
abbrev pub Issues : CidStore → CidAllocator → MarketTicker → OrderId × CidAllocator × Files → Type 0
Issues store a m (id, b, files') =
    (id ≡ format_cid a.strategy_id m a.next_seq)
    × IsClaimed store b files'
    × (b.next_seq ≡ a.next_seq + 1)
    × (b.high_water ≤ a.high_water + a.chunk_size)
    × (b.chunk_size ≡ a.chunk_size)
    × (b.strategy_id ≡ a.strategy_id)

-- With writes that work, an id bears the next number, and the number lies under the claim that the
-- disk holds.
pub next_cid-Issues :
    (store : CidStore) (a : CidAllocator) (m : MarketTicker) (files : Files)
    → IsClaimed store a files
    → a.high_water + a.chunk_size ≤ u64_max
    → Issues store a m (next_cid a m files true)
unfolding next_cid
next_cid-Issues store a m files v fits =
    let sum : add64 a.next_seq 1 ≡ a.next_seq + 1 = omega (arith, v.ordered, v.chunked) in
    elim (Bool-cases (a.next_seq == a.high_water)) [
      | inl out ↦
          let here = (==_iff a.next_seq a.high_water).0 out in
          rw (out, refill_lem store a files v.stored fits, sum)
            (
              refl,
              record {
                stored = v.stored;
                claimed = load-save store (a.high_water + a.chunk_size) files fits;
                ordered = omega (arith, here, v.chunked);
                chunked = v.chunked;
              },
              refl,
              omega arith,
              refl,
              refl,
            )
      | inr room ↦
          rw (room, sum)
            (
              refl,
              record {
                stored = v.stored;
                claimed = v.claimed;
                ordered = ground (arith, v.ordered);
                chunked = v.chunked;
              },
              refl,
              omega arith,
              refl,
              refl,
            )
    ]
