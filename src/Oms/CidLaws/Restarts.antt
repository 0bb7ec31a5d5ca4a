-- ===== src/Oms/CidLaws/Restarts.antt =====
-- crates/oms/src/cid.rs: the ids of two runs of a process, one after the other.
use predigy.Oms.{
  Files, CidStore, load, save, CidAllocator, with_store_and_chunk, refill, format_cid, next_cid,
}
use predigy.Oms.CidLaws.{
  format_cid-injective, IsClaimed, with_store_and_chunk-IsClaimed, next_cid-Issues,
}
use predigy.Prelude.{
  length, All, ℕ, ◌+◌, ◌*◌, ◌≤◌, ◌<◌, ◌≡◌, refl, ap, subst, ◌∙◌, ◌≢◌, true, false, some, List, [],
  ◌∷◌, ◌++◌, arith,
}
use predigy.Core.{MarketTicker, position_key, OrderId}
use predigy.Prelude.Map.{text_key}
use predigy.Prelude.Word.{u64_max}
use predigy.Prelude.Text.{Text}
use predigy.Prelude.Result.{ok}

-- One id for each market in turn, with writes that work.
unfoldable pub issue_all :
    CidAllocator → Files → List MarketTicker → List OrderId × CidAllocator × Files
issue_all a files [] = ([], a, files)
issue_all a files (m ∷ ms) =
    let (id, b, files') = next_cid a m files true in
    let (ids, c, files'') = issue_all b files' ms in (id ∷ ids, c, files'')

-- The ids bear rising sequence numbers from `lo` on, below `hi`.
abbrev IsRising : (lo hi : ℕ) → List OrderId → Type 0
IsRising lo hi [] = lo ≤ hi
IsRising lo hi (id ∷ l) =
    (s : Text) × (m : MarketTicker) × (n : ℕ) × (id ≡ format_cid s m n)
    × (lo ≤ n)
    × IsRising (n + 1) hi l

IsRising-append :
    (lo mid hi : ℕ) (xs ys : List OrderId)
    → IsRising lo mid xs
    → IsRising mid hi ys
    → IsRising lo hi (xs ++ ys)
IsRising-append lo mid hi [] [] h k = omega arith
IsRising-append lo mid hi [] (id ∷ ys) h (s, m, n, e, b, r) = (s, m, n, e, omega arith, r)
IsRising-append lo mid hi (id ∷ xs) ys (s, m, n, e, b, r) k =
    (s, m, n, e, b, IsRising-append (n + 1) mid hi xs ys r k)

-- No two ids of the list are the same.
abbrev pub AllDistinct : List OrderId → Type 0
AllDistinct [] = Unit
AllDistinct (i ∷ l) = All (λ j. i ≢ j) l × AllDistinct l

IsRising-bound : (lo hi : ℕ) (l : List OrderId) → IsRising lo hi l → lo ≤ hi
IsRising-bound lo hi [] h = h
IsRising-bound lo hi (id ∷ l) (s, m, n, e, b, r) = omega (arith, IsRising-bound (n + 1) hi l r)

IsRising-fresh :
    (s : Text) (m : MarketTicker) (i lo hi : ℕ) (l : List OrderId)
    → i < lo
    → hi ≤ u64_max
    → IsRising lo hi l
    → All (λ j. format_cid s m i ≢ j) l
IsRising-fresh s m i lo hi [] h k r = tt
IsRising-fresh s m i lo hi (id ∷ l) h k (t, q, n, e, b, r) =
    let top = IsRising-bound (n + 1) hi l r in
    (
      λ same.
          omega (arith, format_cid-injective s t m q i n (omega arith) (omega arith) (same ∙ e)),
      IsRising-fresh s m i (n + 1) hi l (omega arith) k r,
    )

IsRising-AllDistinct :
    (lo hi : ℕ) (l : List OrderId) → hi ≤ u64_max → IsRising lo hi l → AllDistinct l
IsRising-AllDistinct lo hi [] k r = tt
IsRising-AllDistinct lo hi (id ∷ l) k (s, m, n, e, b, r) = (
  rw e (IsRising-fresh s m n (n + 1) hi l (omega arith) k r),
  IsRising-AllDistinct (n + 1) hi l k r,
)

-- What a run leaves behind.
abbrev Ran : CidStore → CidAllocator → ℕ → List OrderId × CidAllocator × Files → Type 0
Ran store a top (ids, b, files) =
    IsRising a.next_seq b.next_seq ids
    × IsClaimed store b files
    × (b.high_water ≤ top)
    × (b.chunk_size ≡ a.chunk_size)

issue_all-Ran :
    (store : CidStore) (ms : List MarketTicker) (a : CidAllocator) (files : Files) (top : ℕ)
    → IsClaimed store a files
    → a.high_water + length ms * a.chunk_size ≤ top
    → top ≤ u64_max
    → Ran store a top (issue_all a files ms)
unfolding issue_all
issue_all-Ran store [] a files top v h k = (omega arith, v, omega arith, refl)
issue_all-Ran store (m ∷ ms) a files top v h k =
    let (id, b, files') = next_cid a m files true in
    let (e, w, next, high, chunk, strategy) = next_cid-Issues store a m files v (omega arith) in
    let ih =
      issue_all-Ran store ms b files' top w (omega (arith, ap (λ (t : ℕ). length ms * t) chunk))
        k in
    ((a.strategy_id, m, a.next_seq, e, omega arith, rw (← next) ih.0), ih.1, ih.2, ih.3 ∙ chunk)

IsRising-widen :
    (lo hi top : ℕ) (l : List OrderId) → hi ≤ top → IsRising lo hi l → IsRising lo top l
IsRising-widen lo hi top [] h r = omega arith
IsRising-widen lo hi top (id ∷ l) h (s, m, n, e, b, r) =
    (s, m, n, e, b, IsRising-widen (n + 1) hi top l h r)

-- What a start that succeeded has claimed.
start_claim :
    (s : Text) (store : CidStore) (chunk prior : ℕ) (files : Files) (a : CidAllocator) (f : Files)
    → 0 < chunk
    → load store files true ≡ ok prior
    → prior + chunk ≤ u64_max
    → with_store_and_chunk s store chunk files true true ≡ (ok a, f)
    → IsClaimed store a f
      × (a.next_seq ≡ prior)
      × (a.high_water ≡ prior + chunk)
      × (a.chunk_size ≡ chunk)
      × (a.strategy_id ≡ s)
start_claim s store chunk prior files a f hc hl fits e =
    let (a', f', e', v, next, high, size, strategy) =
      with_store_and_chunk-IsClaimed s store chunk prior files hc hl fits in
    let same : a ≡ a' = cc (e, e') in
    let same_files : f ≡ f' = cc (e, e') in rw (same, same_files) (v, next, high, size, strategy)

-- Two runs of a process, with a crash of the first at any point: as long as the writes to disk work
-- and the numbers fit 64 bits, no id of either run is given out twice, in one run or in both.
pub restart_ids_distinct :
    (s : Text) (store : CidStore) (chunk prior : ℕ) (files : Files) (ms ns : List MarketTicker)
    → 0 < chunk
    → load store files true ≡ ok prior
    → prior + (length ms + length ns + 2) * chunk ≤ u64_max
    → (a : CidAllocator) (f : Files)
    → with_store_and_chunk s store chunk files true true ≡ (ok a, f)
    → (b : CidAllocator) (g : Files)
    → with_store_and_chunk s store chunk (issue_all a f ms).2 true true ≡ (ok b, g)
    → AllDistinct ((issue_all a f ms).0 ++ (issue_all b g ns).0)
restart_ids_distinct s store chunk prior files ms ns hc hl fits a f ea b g eb =
    let (v, next, high, size, _) =
      start_claim s store chunk prior files a f hc hl (omega arith) ea in
    let fits_first = ap (λ (t : ℕ). length ms * t) size in
    let first =
      issue_all-Ran store ms a f (prior + chunk + length ms * chunk) v (omega arith)
        (omega arith) in
    let mid = (issue_all a f ms).1 in
    let (w, next', high', size', _) =
      start_claim s store chunk mid.high_water (issue_all a f ms).2 b g hc first.1.claimed
        (omega arith) eb in
    let fits_second = ap (λ (t : ℕ). length ns * t) size' in
    let top = prior + (length ms + length ns + 2) * chunk in
    let second = issue_all-Ran store ns b g top w (omega arith) fits in
    let gap : mid.next_seq ≤ b.next_seq = omega (arith, first.1.ordered) in
    let last = second.1.ordered in
    IsRising-AllDistinct a.next_seq (issue_all b g ns).1.next_seq
      ((issue_all a f ms).0 ++ (issue_all b g ns).0) (omega arith)
      (IsRising-append a.next_seq b.next_seq (issue_all b g ns).1.next_seq (issue_all a f ms).0
        (issue_all b g ns).0
        (IsRising-widen a.next_seq mid.next_seq b.next_seq (issue_all a f ms).0 gap first.0)
        second.0)

next_cid_unsaved :
    (store : CidStore) (a : CidAllocator) (m : MarketTicker) (files : Files)
    → a.store ≡ some store
    → a.next_seq ≡ a.high_water
    → ((next_cid a m files false).0 ≡ format_cid a.strategy_id m a.high_water)
      × ((next_cid a m files false).2 ≡ files)
unfolding next_cid refill save
next_cid_unsaved store a m files hs hn = ground arith

-- When a chunk is used up and the write of the next claim fails, the allocator goes on, and a
-- restart of the same strategy gives the next id out a second time.
pub refill_failure_repeats :
    (store : CidStore) (a b : CidAllocator) (m : MarketTicker) (files f : Files)
    → IsClaimed store a files
    → a.next_seq ≡ a.high_water
    → a.high_water + 2 * a.chunk_size ≤ u64_max
    → with_store_and_chunk a.strategy_id store a.chunk_size (next_cid a m files false).2 true true
      ≡ (ok b, f)
    → (next_cid b m f true).0 ≡ (next_cid a m files false).0
refill_failure_repeats store a b m files f v out fits e =
    let (id, same) = next_cid_unsaved store a m files v.stored out in
    let e' =
      subst (λ fs. with_store_and_chunk a.strategy_id store a.chunk_size fs true true ≡ (ok b, f))
        same e in
    let (w, next, high, size, strategy) =
      start_claim a.strategy_id store a.chunk_size a.high_water files b f v.chunked v.claimed
        (omega arith) e' in
    let issued = next_cid-Issues store b m f w (omega arith) in rw (id, issued.0, strategy, next)
