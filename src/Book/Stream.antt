-- ===== src/Book/Stream.antt =====
-- crates/book/src/lib.rs: a stream of deltas between two snapshots.
use predigy.Prelude.{
  length, All, ℕ, suc, ◌≡◌, refl, ap, ◌≢◌, inl, inr, none, some, List, [], ◌∷◌, arith,
}
use predigy.Prelude.Text.{Text}
use predigy.Prelude.Word.{add64}
use predigy.Book.{
  ApplyOutcome, OrderBook, Snapshot, Delta, apply_rest_snapshot, write_delta, apply_delta,
}
use predigy.Core.{Side}
use predigy.Book.Deltas.{Accepts, apply_delta_iff, write_delta_seq, apply_delta-write_delta}

-- A client applies the deltas of a stream in turn and keeps the outcomes.
unfoldable pub apply_deltas : OrderBook → List Delta → OrderBook × List ApplyOutcome
apply_deltas b [] = (b, [])
apply_deltas b (d ∷ ds) =
    let (b', outcome) = apply_delta b d in
    let (b'', outcomes) = apply_deltas b' ds in (b'', outcome ∷ outcomes)

-- The stream is for one market and numbered without a gap after `last`.
abbrev pub IsContiguous : Text → ℕ → List Delta → Type 0
IsContiguous m last [] = Unit
IsContiguous m last (d ∷ ds) = (d.market ≡ m) × (d.seq ≡ add64 last 1) × IsContiguous m d.seq ds

abbrev pub final_seq : ℕ → List Delta → ℕ
final_seq last [] = last
final_seq last (d ∷ ds) = final_seq d.seq ds

write_delta_market : (b : OrderBook) (d : Delta) (s : Side) → (write_delta b d s).market ≡ b.market
unfolding write_delta
write_delta_market b d Side.yes_side = refl
write_delta_market b d Side.no_side = refl

pub apply_delta_market : (b : OrderBook) (d : Delta) → (apply_delta b d).0.market ≡ b.market
unfolding apply_delta
apply_delta_market b d = ground (arith, write_delta_market b d d.side)

-- What the stream leaves behind: every delta was applied, and the last number is the stream's.
abbrev pub AllApplied : ℕ → List Delta → OrderBook × List ApplyOutcome → Type 0
AllApplied last ds r =
    All (λ o. o ≡ ApplyOutcome.applied) r.1
    × (length r.1 ≡ length ds)
    × (r.0.last_seq ≡ some (final_seq last ds))

-- A gapless stream for the book's market, numbered from the book's last sequence number on, is
-- applied whole, and the book ends at the stream's last number.
pub apply_deltas_contiguous :
    (b : OrderBook) (last : ℕ) (ds : List Delta)
    → b.last_seq ≡ some last
    → IsContiguous b.market last ds
    → AllApplied last ds (apply_deltas b ds)
unfolding apply_deltas
apply_deltas_contiguous b last [] h c = (tt, refl, h)
apply_deltas_contiguous b last (d ∷ ds) h c =
    let ok : Accepts b d = (c.0, inr (last, h, c.1)) in
    let seq = write_delta_seq b d d.side in
    let market = apply_delta_market b d in
    let ih =
      apply_deltas_contiguous (apply_delta b d).0 d.seq ds (rw (apply_delta-write_delta b d ok) seq)
        (rw market c.2) in
    (((apply_delta_iff b d).1 ok, ih.0), ap suc ih.1, ih.2)

-- The sequence number that is expected next is nowhere in the stream.
abbrev pub IsMissing : ℕ → List Delta → Type 0
IsMissing expected [] = Unit
IsMissing expected (d ∷ ds) = (d.seq ≢ expected) × IsMissing expected ds

apply_delta_gap :
    (b : OrderBook) (last : ℕ) (d : Delta)
    → b.last_seq ≡ some last
    → d.seq ≢ add64 last 1
    → (apply_delta b d).0 ≡ b
unfolding apply_delta
apply_delta_gap b last d h ne = ground arith

-- Once a number is missed the book stays exactly as it was, whatever else arrives, until the missed
-- delta or a snapshot comes.
pub apply_deltas_gap :
    (b : OrderBook) (last : ℕ) (ds : List Delta)
    → b.last_seq ≡ some last
    → IsMissing (add64 last 1) ds
    → (apply_deltas b ds).0 ≡ b
unfolding apply_deltas
apply_deltas_gap b last [] h c = refl
apply_deltas_gap b last (d ∷ ds) h c =
    rw (apply_delta_gap b last d h c.0) (apply_deltas_gap b last ds h c.1)

first_delta_seq : (b : OrderBook) (s : Snapshot) → (apply_rest_snapshot b s).last_seq ≡ none
unfolding apply_rest_snapshot
first_delta_seq b s = refl

rest_snapshot_market : (b : OrderBook) (s : Snapshot) → (apply_rest_snapshot b s).market ≡ b.market
unfolding apply_rest_snapshot
rest_snapshot_market b s = refl

-- After a snapshot without a sequence number, a gapless stream for the market is applied whole,
-- whatever number it begins with.
pub apply_rest_snapshot_resync :
    (b : OrderBook) (s : Snapshot) (d : Delta) (ds : List Delta)
    → d.market ≡ b.market
    → IsContiguous b.market d.seq ds
    → AllApplied d.seq (d ∷ ds) (apply_deltas (apply_rest_snapshot b s) (d ∷ ds))
unfolding apply_deltas
apply_rest_snapshot_resync b s d ds hm c =
    let b' = apply_rest_snapshot b s in
    let ok : Accepts b' d = (rw (rest_snapshot_market b s) hm, inl (first_delta_seq b s)) in
    let ih =
      apply_deltas_contiguous (apply_delta b' d).0 d.seq ds
        (rw (apply_delta-write_delta b' d ok) (write_delta_seq b' d d.side))
        (rw (apply_delta_market b' d, rest_snapshot_market b s) c) in
    (((apply_delta_iff b' d).1 ok, ih.0), ap suc ih.1, ih.2)
