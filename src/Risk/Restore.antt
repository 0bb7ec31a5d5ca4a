-- ===== src/Risk/Restore.antt =====
-- crates/risk/src/state.rs: a restart from the persisted account state.
use predigy.Prelude.{
  ◌==◌, if◌then◌else◌, Option-cases, All, ℕ, ◌<◌, ◌≡◌, refl, ◌∙◌, inl, inr, Option, none, some,
  List, [], ◌∷◌, map, arith,
}
use predigy.Prelude.Map.{text_key, Map, lookup, IsUnique}
use predigy.Core.{
  Side, MarketTicker, PositionKey, position_key_eq, position_key_eq_iff, position_key,
}
use predigy.Risk.{
  AccountState, new_account, position, avg_entry_cents, set_position, PersistedPositionEntry,
  PersistedAccountState, persist_entry, insert_entry, sort_entries, to_persisted, restore_positions,
  from_persisted,
}
use predigy.Risk.Invariant.{IsAccount, position-set_position, avg_entry_cents-set_position}

abbrev entry_key : PersistedPositionEntry → PositionKey
entry_key e = (e.market, e.side)

-- The persisted entry of a key.
find_entry : PositionKey → List PersistedPositionEntry → Option PersistedPositionEntry
find_entry k [] = none
find_entry k (e ∷ l) = if position_key_eq (entry_key e) k then some e else find_entry k l

abbrev IsDistinct : List PersistedPositionEntry → Type 0
IsDistinct [] = Unit
IsDistinct (e ∷ l) = (find_entry (entry_key e) l ≡ none) × IsDistinct l

find_entry-insert_entry :
    (k : PositionKey) (e : PersistedPositionEntry) (l : List PersistedPositionEntry)
    → find_entry (entry_key e) l ≡ none
    → find_entry k (insert_entry e l)
      ≡ (if position_key_eq (entry_key e) k then some e else find_entry k l)
unfolding find_entry insert_entry
find_entry-insert_entry k e [] h = refl
find_entry-insert_entry k e (f ∷ l) h = ground (
  arith,
  find_entry-insert_entry k e l,
  position_key_eq_iff (entry_key f) (entry_key e),
  position_key_eq_iff (entry_key f) k,
  position_key_eq_iff (entry_key e) k,
)

insert_entry-IsDistinct :
    (e : PersistedPositionEntry) (l : List PersistedPositionEntry)
    → find_entry (entry_key e) l ≡ none
    → IsDistinct l
    → IsDistinct (insert_entry e l)
unfolding find_entry insert_entry
insert_entry-IsDistinct e [] h d = (refl, tt)
insert_entry-IsDistinct e (f ∷ l) h d = ground (
  arith,
  insert_entry-IsDistinct e l,
  find_entry-insert_entry (entry_key f) e l,
  position_key_eq_iff (entry_key f) (entry_key e),
  position_key_eq_iff (entry_key e) (entry_key f),
)

find_entry-sort_entries :
    (k : PositionKey) (l : List PersistedPositionEntry)
    → IsDistinct l
    → (find_entry k (sort_entries l) ≡ find_entry k l)
unfolding find_entry sort_entries
find_entry-sort_entries k [] d = refl
find_entry-sort_entries k (e ∷ l) d = ground (
  arith,
  find_entry-sort_entries k l d.1,
  find_entry-sort_entries (entry_key e) l d.1,
  find_entry-insert_entry k e (sort_entries l),
)

sort_entries-IsDistinct :
    (l : List PersistedPositionEntry) → IsDistinct l → IsDistinct (sort_entries l)
unfolding sort_entries
sort_entries-IsDistinct [] d = tt
sort_entries-IsDistinct (e ∷ l) d =
    insert_entry-IsDistinct e (sort_entries l) (find_entry-sort_entries (entry_key e) l d.1 ∙ d.0)
      (sort_entries-IsDistinct l d.1)

find_entry-persist :
    (k : PositionKey) (avgs m : Map PositionKey ℕ)
    → find_entry k (map (persist_entry avgs) m)
      ≡ (elim (lookup k m) [ none ↦ none | some q ↦ some (persist_entry avgs (k, q)) ])
unfolding find_entry lookup
find_entry-persist k avgs [] = refl
find_entry-persist k avgs (e ∷ m) =
    ground (arith, find_entry-persist k avgs m, position_key_eq_iff e.0 k)

persist-IsDistinct :
    (avgs m : Map PositionKey ℕ) → IsUnique m → IsDistinct (map (persist_entry avgs) m)
persist-IsDistinct avgs [] u = tt
persist-IsDistinct avgs (e ∷ m) u =
    (rw (find_entry-persist e.0 avgs m, u.0), persist-IsDistinct avgs m u.1)

-- What the loop over the entries leaves at a key: the entry's contracts, or what was there.
abbrev restored : Option PersistedPositionEntry → ℕ → ℕ
restored none old = old
restored (some e) old = e.qty

abbrev restored_avg : Option PersistedPositionEntry → ℕ → ℕ
restored_avg none old = old
restored_avg (some e) old = if e.qty == 0 then 0 else e.avg_entry_cents

position-restore_positions :
    (n : MarketTicker) (b : Side) (l : List PersistedPositionEntry) (s : AccountState)
    → IsDistinct l
    → (position (restore_positions l s) n b ≡ restored (find_entry (n, b) l) (position s n b))
      × (avg_entry_cents (restore_positions l s) n b
          ≡ restored_avg (find_entry (n, b) l) (avg_entry_cents s n b))
unfolding find_entry restore_positions
position-restore_positions n b [] s d = (refl, refl)
position-restore_positions n b (e ∷ l) s d = ground (
  arith,
  position-restore_positions n b l (set_position s e.market e.side e.qty e.avg_entry_cents) d.1,
  position-set_position s e.market n e.side b e.qty e.avg_entry_cents,
  avg_entry_cents-set_position s e.market n e.side b e.qty e.avg_entry_cents,
  position_key_eq_iff (entry_key e) (n, b),
)

find_entry-to_persisted :
    (s : AccountState) (k : PositionKey)
    → IsAccount s
    → find_entry k (to_persisted s).positions ≡ (elim (lookup k s.positions) [
      | none ↦ none
      | some q ↦ some (persist_entry s.avg_entry (k, q))
    ])
unfolding to_persisted
find_entry-to_persisted s k v =
    find_entry-sort_entries k (map (persist_entry s.avg_entry) s.positions)
      (persist-IsDistinct s.avg_entry s.positions v.unique)
    ∙ find_entry-persist k s.avg_entry s.positions

to_persisted-IsDistinct : (s : AccountState) → IsAccount s → IsDistinct (to_persisted s).positions
unfolding to_persisted
to_persisted-IsDistinct s v =
    sort_entries-IsDistinct (map (persist_entry s.avg_entry) s.positions)
      (persist-IsDistinct s.avg_entry s.positions v.unique)

-- A stored position has contracts.
lookup-positive :
    (k : PositionKey) (q : ℕ) (m : Map PositionKey ℕ)
    → All (λ e. 0 < e.1) m
    → lookup k m ≡ some q
    → 0 < q
unfolding lookup
lookup-positive k q [] a e = cc
lookup-positive k q (x ∷ m) a e = ground (arith, lookup-positive k q m a.1)

restored-position :
    (s : AccountState) (n : MarketTicker) (b : Side)
    → IsAccount s
    → (restored (find_entry (n, b) (to_persisted s).positions) 0 ≡ position s n b)
      × (restored_avg (find_entry (n, b) (to_persisted s).positions) 0 ≡ avg_entry_cents s n b)
unfolding position avg_entry_cents
restored-position s n b v =
    rw (find_entry-to_persisted s (n, b) v) (elim (Option-cases (lookup (n, b) s.positions)) [
      | inl absent ↦ ground (arith, v.paired (n, b))
      | inr (q, found) ↦ ground (arith, lookup-positive (n, b) q s.positions v.positive)
    ])

new_account-position :
    (n : MarketTicker) (b : Side)
    → (position new_account n b ≡ 0) × (avg_entry_cents new_account n b ≡ 0)
unfolding new_account position avg_entry_cents lookup
new_account-position n b = (refl, refl)

from_persisted-position :
    (p : PersistedAccountState) (n : MarketTicker) (b : Side)
    → (position (from_persisted p) n b ≡ position (restore_positions p.positions new_account) n b)
      × (avg_entry_cents (from_persisted p) n b
          ≡ avg_entry_cents (restore_positions p.positions new_account) n b)
unfolding from_persisted position avg_entry_cents
from_persisted-position p n b = (refl, refl)

set_position-recent :
    (s : AccountState) (m : MarketTicker) (a : Side) (q p : ℕ)
    → (set_position s m a q p).recent_orders ≡ s.recent_orders
unfolding set_position
set_position-recent s m a q p = ground arith

restore_positions-recent :
    (l : List PersistedPositionEntry) (s : AccountState)
    → (restore_positions l s).recent_orders ≡ s.recent_orders
unfolding restore_positions
restore_positions-recent [] s = refl
restore_positions-recent (e ∷ l) s =
    restore_positions-recent l (set_position s e.market e.side e.qty e.avg_entry_cents)
    ∙ set_position-recent s e.market e.side e.qty e.avg_entry_cents

from_persisted-to_persisted_rest :
    (s : AccountState)
    → let r = from_persisted (to_persisted s) in
      (r.daily_realized_pnl_cents ≡ s.daily_realized_pnl_cents)
      × (r.kill_switch ≡ s.kill_switch)
      × (r.recent_orders ≡ [])
unfolding from_persisted to_persisted new_account
from_persisted-to_persisted_rest s =
    (refl, refl, restore_positions-recent (to_persisted s).positions new_account)

-- A restart from a snapshot restores every position with its entry price, the day's result and the
-- kill switch, and begins with an empty window of recent orders.
pub from_persisted-to_persisted :
    (s : AccountState) (n : MarketTicker) (b : Side)
    → IsAccount s
    → let r = from_persisted (to_persisted s) in
      (position r n b ≡ position s n b)
      × (avg_entry_cents r n b ≡ avg_entry_cents s n b)
      × (r.daily_realized_pnl_cents ≡ s.daily_realized_pnl_cents)
      × (r.kill_switch ≡ s.kill_switch)
      × (r.recent_orders ≡ [])
from_persisted-to_persisted s n b v =
    let p = to_persisted s in
    let d = to_persisted-IsDistinct s v in
    let (bare, bare_avg) = from_persisted-position p n b in
    let (loop, loop_avg) = position-restore_positions n b p.positions new_account d in
    let (none_yet, none_avg) = new_account-position n b in
    let (same, same_avg) = restored-position s n b v in
    let (pnl, kill, recent) = from_persisted-to_persisted_rest s in
    (bare ∙ loop ∙ rw none_yet same, bare_avg ∙ loop_avg ∙ rw none_avg same_avg, pnl, kill, recent)
