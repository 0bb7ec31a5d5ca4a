-- ===== src/Oms/ReconcileLaws.antt =====
-- crates/oms/src/runtime.rs: what the comparison with the venue reports.
use predigy.Prelude.{
  unwrap_or, All, All-append, ℕ, ◌≡◌, refl, ap, ◌≢◌, ◌↔◌, ◌⊎◌, true, none, some, List, [], ◌∷◌,
  ◌++◌, arith,
}
use predigy.Oms.{
  OrderRecord, PositionMismatch, Oms, venue_mismatches, is_listed, order_mismatches,
  insert_mismatch, sort_mismatches, dedup_after, dedup, diff_positions,
}
use predigy.Oms.Ledger.{order_key}
use predigy.Risk.{AccountState, position}
use predigy.Core.{PositionKey, position_key_eq, position_key, OrderId}
use predigy.Prelude.Map.{text_key, Map, lookup, IsUnique}

-- What the venue holds, 0 for what it does not list.
abbrev pub venue_holds : Map PositionKey ℕ → PositionKey → ℕ
venue_holds venue k = unwrap_or (lookup k venue) 0

-- A reported line: the two quantities differ, and each is what its side holds.
abbrev pub IsTrueMismatch : AccountState → Map PositionKey ℕ → PositionMismatch → Type 0
IsTrueMismatch s venue e =
    (e.oms_qty ≡ position s e.market e.side)
    × (e.venue_qty ≡ venue_holds venue (e.market, e.side))
    × (e.oms_qty ≢ e.venue_qty)

-- The venue agrees with every position that it lists, and lists every tracked market that is held.
abbrev pub AgreesListed : AccountState → Map PositionKey ℕ → Type 0
AgreesListed s venue = All (λ e. position s e.0.0 e.0.1 ≡ e.1) venue

abbrev pub AgreesTracked : AccountState → Map PositionKey ℕ → Map OrderId OrderRecord → Type 0
AgreesTracked s venue orders =
    All
      (λ e.
        (position s e.1.order.market e.1.order.side ≡ 0)
        ⊎ (is_listed (lookup (order_key e.1.order) venue) ≡ true))
      orders

venue_mismatches_nil :
    (s : AccountState) (m : Map PositionKey ℕ) → (venue_mismatches s m ≡ []) ↔ AgreesListed s m
unfolding venue_mismatches
venue_mismatches_nil s [] = ground arith
venue_mismatches_nil s ((k, q) ∷ m) = ground (arith, venue_mismatches_nil s m)

order_mismatches_nil :
    (s : AccountState) (venue : Map PositionKey ℕ) (m : Map OrderId OrderRecord)
    → (order_mismatches s venue m ≡ []) ↔ AgreesTracked s venue m
unfolding order_mismatches
order_mismatches_nil s venue [] = ground arith
order_mismatches_nil s venue (e ∷ m) = ground (arith, order_mismatches_nil s venue m)

insert_mismatch_some : (e : PositionMismatch) (l : List PositionMismatch) → insert_mismatch e l ≢ []
unfolding insert_mismatch
insert_mismatch_some e [] = ground arith
insert_mismatch_some e (f ∷ l) = ground arith

dedup_nil : (l : List PositionMismatch) → dedup l ≡ [] → l ≡ []
unfolding dedup
dedup_nil [] h = refl
dedup_nil (e ∷ l) h = ground arith

sort_mismatches_nil : (l : List PositionMismatch) → sort_mismatches l ≡ [] → l ≡ []
unfolding sort_mismatches
sort_mismatches_nil [] h = refl
sort_mismatches_nil (e ∷ l) h = ground (arith, insert_mismatch_some e (sort_mismatches l))

nil_append : (l m : List PositionMismatch) → l ++ m ≡ [] → (l ≡ []) × (m ≡ [])
nil_append [] m h = (refl, h)
nil_append (e ∷ l) m h = ground arith

-- The comparison reports nothing exactly if the venue agrees with every position that it lists, and
-- lists every market of a tracked order in which something is held.
pub diff_positions_nil :
    {X : Type 0} (oms : Oms X) (venue : Map PositionKey ℕ)
    → (diff_positions oms venue ≡ [])
      ↔ (AgreesListed oms.state venue × AgreesTracked oms.state venue oms.orders)
unfolding diff_positions dedup sort_mismatches
diff_positions_nil oms venue =
    let listed = venue_mismatches oms.state venue in
    let tracked = order_mismatches oms.state venue oms.orders in
    let i = venue_mismatches_nil oms.state venue in
    let j = order_mismatches_nil oms.state venue oms.orders in
    (
      λ h.
          let parts =
            nil_append listed tracked (sort_mismatches_nil (listed ++ tracked) (dedup_nil _ h)) in
          (i.0 parts.0, j.0 parts.1),
      λ (a, b). rw (i.1 a, j.1 b) refl,
    )

module _ (P : PositionMismatch → Type 0) where
  insert_mismatch-All :
      (e : PositionMismatch) (l : List PositionMismatch)
      → P e
      → All P l
      → All P (insert_mismatch e l)
  unfolding insert_mismatch
  insert_mismatch-All e [] h a = (h, tt)
  insert_mismatch-All e (f ∷ l) h a = ground (arith, insert_mismatch-All e l h a.1)

  sort_mismatches-All : (l : List PositionMismatch) → All P l → All P (sort_mismatches l)
  unfolding sort_mismatches
  sort_mismatches-All [] a = tt
  sort_mismatches-All (e ∷ l) a =
      insert_mismatch-All e (sort_mismatches l) a.0 (sort_mismatches-All l a.1)

  dedup_after-All :
      (e : PositionMismatch) (l : List PositionMismatch) → All P l → All P (dedup_after e l)
  unfolding dedup_after
  dedup_after-All e [] a = tt
  dedup_after-All e (f ∷ l) a = ground (arith, dedup_after-All e l a.1, dedup_after-All f l a.1)

  dedup-All : (l : List PositionMismatch) → All P l → All P (dedup l)
  unfolding dedup
  dedup-All [] a = tt
  dedup-All (e ∷ l) a = (a.0, dedup_after-All e l a.1)

-- The lines from the rest of the venue's map are true of the whole map.
venue_mismatches_true :
    (s : AccountState) (venue m : Map PositionKey ℕ)
    → All (λ e. lookup e.0 venue ≡ some e.1) m
    → All (IsTrueMismatch s venue) (venue_mismatches s m)
unfolding venue_mismatches
venue_mismatches_true s venue [] h = tt
venue_mismatches_true s venue ((k, q) ∷ m) h = ground (arith, venue_mismatches_true s venue m h.1)

order_mismatches_true :
    (s : AccountState) (venue : Map PositionKey ℕ) (m : Map OrderId OrderRecord)
    → All (IsTrueMismatch s venue) (order_mismatches s venue m)
unfolding order_mismatches
order_mismatches_true s venue [] = tt
order_mismatches_true s venue (e ∷ m) = ground (arith, order_mismatches_true s venue m)

skip_head :
    (x : PositionKey × ℕ) (venue m : Map PositionKey ℕ)
    → lookup x.0 venue ≡ none
    → All (λ e. lookup e.0 venue ≡ some e.1) m
    → All (λ e. lookup e.0 (x ∷ venue) ≡ some e.1) m
unfolding lookup
skip_head x venue [] absent a = tt
skip_head x venue (e ∷ m) absent a = (
  ground (
    arith,
    a.0,
    absent,
    λ (h : position_key_eq x.0 e.0 ≡ true).
        ap (λ (k : PositionKey). lookup k venue) ((position_key.beq_iff x.0 e.0).0 h),
  ),
  skip_head x venue m absent a.1,
)

lookup_head : (x : PositionKey × ℕ) (venue : Map PositionKey ℕ) → lookup x.0 (x ∷ venue) ≡ some x.1
unfolding lookup
lookup_head x venue = ground (arith, (position_key.beq_iff x.0 x.0).1 refl)

lookup_own :
    (venue : Map PositionKey ℕ) → IsUnique venue → All (λ e. lookup e.0 venue ≡ some e.1) venue
lookup_own [] u = tt
lookup_own (x ∷ venue) u = (lookup_head x venue, skip_head x venue venue u.0 (lookup_own venue u.1))

-- Every line that the comparison reports is true: the quantities are the manager's position and what
-- the venue holds, 0 for what it does not list, and they differ. The venue lists no key twice.
pub diff_positions_true :
    {X : Type 0} (oms : Oms X) (venue : Map PositionKey ℕ)
    → IsUnique venue
    → All (IsTrueMismatch oms.state venue) (diff_positions oms venue)
unfolding diff_positions
diff_positions_true oms venue u =
    let P = IsTrueMismatch oms.state venue in
    dedup-All P _ (
      sort_mismatches-All P _ (
        All-append P (venue_mismatches oms.state venue)
          (order_mismatches oms.state venue oms.orders)
          (venue_mismatches_true oms.state venue venue (lookup_own venue u))
          (order_mismatches_true oms.state venue oms.orders)))
