-- ===== src/Oms/RestartLaws.antt =====
-- crates/oms/src/persistence.rs: a restart from a snapshot.
use predigy.Prelude.{
  if◌then◌else◌, Bool-cases, ℕ, ◌≡◌, refl, ap, ◌∙◌, inl, inr, Option, none, some, List, [], ◌∷◌,
  arith,
}
use predigy.Oms.{
  OrderRecord, PersistedOrderRecord, from_record, into_record, persisted_records, insert_record,
  sort_records, snapshot, restore_into, rehydrate,
}
use predigy.Core.{Side, MarketTicker, position_key, OrderId}
use predigy.Prelude.Map.{text_key, Map, lookup, insert, lookup-insert, IsUnique}
use predigy.Prelude.Text.{text_eq, text_eq_iff}
use predigy.Risk.{AccountState, position, avg_entry_cents}
use predigy.Risk.Restore.{from_persisted-to_persisted}
use predigy.Risk.Invariant.{IsAccount}

-- A record after a restart: only its two clocks start anew.
abbrev pub reclocked : ℕ → Option OrderRecord → Option OrderRecord
reclocked now none = none
reclocked now (some r) = some (record r { submitted_at = now; last_event_at = now })

-- Each order is stored under its own id.
abbrev pub IsKeyed : Map OrderId OrderRecord → Type 0
IsKeyed [] = Unit
IsKeyed (e ∷ m) = (e.1.cid ≡ e.0) × IsKeyed m

-- The records of a list, the last of an id first, and no id twice.
abbrev pub found : OrderId → List PersistedOrderRecord → Option PersistedOrderRecord
found a [] = none
found a (p ∷ l) = if text_eq p.cid a then some p else found a l

abbrev pub DistinctIds : List PersistedOrderRecord → Type 0
DistinctIds [] = Unit
DistinctIds (p ∷ l) = (found p.cid l ≡ none) × DistinctIds l

found-insert_record :
    (a : OrderId) (p : PersistedOrderRecord) (l : List PersistedOrderRecord)
    → found p.cid l ≡ none
    → found a (insert_record p l) ≡ (if text_eq p.cid a then some p else found a l)
unfolding insert_record
found-insert_record a p [] h = refl
found-insert_record a p (q ∷ l) h = ground (
  arith,
  found-insert_record a p l,
  (text_eq_iff p.cid a).0,
  (text_eq_iff q.cid a).0,
  (text_eq_iff q.cid p.cid).1,
)

insert_record-DistinctIds :
    (p : PersistedOrderRecord) (l : List PersistedOrderRecord)
    → found p.cid l ≡ none
    → DistinctIds l
    → DistinctIds (insert_record p l)
unfolding insert_record
insert_record-DistinctIds p [] h d = (refl, tt)
insert_record-DistinctIds p (q ∷ l) h d = ground (
  arith,
  found-insert_record q.cid p l,
  insert_record-DistinctIds p l,
  (text_eq_iff p.cid q.cid).0,
  (text_eq_iff q.cid p.cid).1,
)

sort_records-DistinctIds :
    (l : List PersistedOrderRecord)
    → DistinctIds l
    → DistinctIds (sort_records l) × ((a : OrderId) → found a (sort_records l) ≡ found a l)
unfolding sort_records
sort_records-DistinctIds [] d = (tt, λ a. refl)
sort_records-DistinctIds (p ∷ l) d =
    let (distinct, same) = sort_records-DistinctIds l d.1 in
    let fresh : found p.cid (sort_records l) ≡ none = same p.cid ∙ d.0 in
    (
      insert_record-DistinctIds p (sort_records l) fresh distinct,
      λ a. ground (arith, found-insert_record a p (sort_records l) fresh, same a),
    )

abbrev persisted : Option OrderRecord → Option PersistedOrderRecord
persisted none = none
persisted (some r) = some (from_record r)

found-persisted_records :
    (a : OrderId) (m : Map OrderId OrderRecord)
    → IsKeyed m
    → found a (persisted_records m) ≡ persisted (lookup a m)
unfolding lookup from_record
found-persisted_records a [] h = refl
found-persisted_records a (e ∷ m) h = rw (h.0) (elim (Bool-cases (text_eq e.0 a)) [
  | inl same ↦ rw same refl
  | inr other ↦ rw other (found-persisted_records a m h.1)
])

persisted_records-DistinctIds :
    (m : Map OrderId OrderRecord) → IsKeyed m → IsUnique m → DistinctIds (persisted_records m)
unfolding from_record
persisted_records-DistinctIds [] h u = tt
persisted_records-DistinctIds (e ∷ m) h u = (
  rw (h.0) (found-persisted_records e.0 m h.1 ∙ ap persisted u.0),
  persisted_records-DistinctIds m h.1 u.1,
)

abbrev restored : ℕ → Option PersistedOrderRecord → Option OrderRecord → Option OrderRecord
restored now none o = o
restored now (some p) o = some (into_record p now)

lookup-restore_into :
    (a : OrderId) (now : ℕ) (l : List PersistedOrderRecord) (m : Map OrderId OrderRecord)
    → DistinctIds l
    → lookup a (restore_into l now m) ≡ restored now (found a l) (lookup a m)
unfolding restore_into
lookup-restore_into a now [] m d = refl
lookup-restore_into a now (p ∷ l) m d =
    lookup-restore_into a now l (insert p.cid (into_record p now) m) d.1
    ∙ ground (arith, lookup-insert p.cid a (into_record p now) m, d.0, (text_eq_iff p.cid a).0)

restored-persisted :
    (now : ℕ) (o : Option OrderRecord) → restored now (persisted o) none ≡ reclocked now o
unfolding from_record into_record
restored-persisted now none = refl
restored-persisted now (some r) = refl

-- A snapshot that is taken, and restored by the next process: every order is tracked again under its
-- id with the same order, state, fills, price, flag and venue id, and no other order is. The account
-- has the same positions, entry prices, day's result and kill switch.
pub rehydrate-snapshot :
    (s : AccountState) (m : Map OrderId OrderRecord) (now : ℕ)
    → IsAccount s
    → IsUnique m
    → IsKeyed m
    → let (s', m') = rehydrate (snapshot s m) now in
      ((a : OrderId) → lookup a m' ≡ reclocked now (lookup a m))
      × ((n : MarketTicker) (b : Side)
          → (position s' n b ≡ position s n b) × (avg_entry_cents s' n b ≡ avg_entry_cents s n b))
      × (s'.daily_realized_pnl_cents ≡ s.daily_realized_pnl_cents)
      × (s'.kill_switch ≡ s.kill_switch)
unfolding rehydrate snapshot lookup
rehydrate-snapshot s m now v u h =
    let (distinct, same) =
      sort_records-DistinctIds (persisted_records m) (persisted_records-DistinctIds m h u) in
    (
      λ a.
          lookup-restore_into a now (sort_records (persisted_records m)) [] distinct
          ∙ ap (λ f. restored now f none) (same a ∙ found-persisted_records a m h)
          ∙ restored-persisted now (lookup a m),
      λ n b. let r = from_persisted-to_persisted s n b v in (r.0, r.1),
      (from_persisted-to_persisted s [] Side.yes_side v).2,
      (from_persisted-to_persisted s [] Side.yes_side v).3,
    )
