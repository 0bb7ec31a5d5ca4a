-- ===== src/Risk/Invariant.antt =====
-- crates/risk/src/state.rs: the invariant of the two position maps, and each change of a position.
use predigy.Prelude.{
  ◌==◌, if◌then◌else◌, Bool-cases, All, ℕ, ◌<◌, ◌≡◌, refl, inl, inr, none, [], ◌∷◌, arith,
}
use predigy.Prelude.Map.{
  Key, text_key, Map, lookup, insert, remove, lookup-insert, lookup-remove, IsUnique,
  insert-IsUnique, remove-IsUnique,
}
use predigy.Core.{Side, MarketTicker, PositionKey, position_key_eq, position_key}
use predigy.Risk.{AccountState, new_account, position, avg_entry_cents, set_position}

-- No position is listed twice or with no contracts, and no entry price stands without a position.
pub record IsAccount (s : AccountState) : Type 0 where
  pub unique : IsUnique s.positions
  pub positive : All (λ e. 0 < e.1) s.positions
  pub paired : (k : PositionKey) → lookup k s.positions ≡ none → lookup k s.avg_entry ≡ none

-- Setting a position changes the contracts of its own key only; 0 contracts clear it.
pub position-set_position :
    (s : AccountState) (m n : MarketTicker) (a b : Side) (q p : ℕ)
    → position (set_position s m a q p) n b
      ≡ (if position_key_eq (m, a) (n, b) then q else position s n b)
unfolding position set_position
position-set_position s m n a b q p =
    ground
      (arith, lookup-insert (m, a) (n, b) q s.positions, lookup-remove (m, a) (n, b) s.positions)

pub avg_entry_cents-set_position :
    (s : AccountState) (m n : MarketTicker) (a b : Side) (q p : ℕ)
    → avg_entry_cents (set_position s m a q p) n b
      ≡ (if position_key_eq (m, a) (n, b) then if q == 0 then 0 else p else avg_entry_cents s n b)
unfolding avg_entry_cents set_position
avg_entry_cents-set_position s m n a b q p =
    ground
      (arith, lookup-insert (m, a) (n, b) p s.avg_entry, lookup-remove (m, a) (n, b) s.avg_entry)

module _ {ℓ κ} {K : Type ℓ} ⦃k : Key K⦄ (P : K × ℕ → Type κ) where
  insert-All : (a : K) (v : ℕ) (m : Map K ℕ) → P (a, v) → All P m → All P (insert a v m)
  unfolding insert
  insert-All a v [] h al = (h, tt)
  insert-All a v (e ∷ m) h al = elim (Bool-cases (k.beq e.0 a)) [
    | inl same ↦ rw same (h, al.1)
    | inr other ↦ rw other (al.0, insert-All a v m h al.1)
  ]

  remove-All : (a : K) (m : Map K ℕ) → All P m → All P (remove a m)
  unfolding remove
  remove-All a [] al = tt
  remove-All a (e ∷ m) al = elim (Bool-cases (k.beq e.0 a)) [
    | inl same ↦ rw same (remove-All a m al.1)
    | inr other ↦ rw other (al.0, remove-All a m al.1)
  ]

-- Setting a position keeps the invariant, also to 0.
pub set_position-IsAccount :
    (s : AccountState) (m : MarketTicker) (a : Side) (q p : ℕ)
    → IsAccount s
    → IsAccount (set_position s m a q p)
unfolding set_position
set_position-IsAccount s m a q p v = elim (Bool-cases (q == 0)) [
  | inl zero_qty ↦ rw zero_qty (record {
    unique = remove-IsUnique (m, a) s.positions v.unique;
    positive = remove-All (λ e. 0 < e.1) (m, a) s.positions v.positive;
    paired = λ k h.
        ground (
          arith,
          lookup-remove (m, a) k s.positions,
          lookup-remove (m, a) k s.avg_entry,
          v.paired k,
        );
  })
  | inr some_qty ↦ rw some_qty (record {
    unique = insert-IsUnique (m, a) q s.positions v.unique;
    positive = insert-All (λ e. 0 < e.1) (m, a) q s.positions (ground arith) v.positive;
    paired = λ k h. ground (
      arith,
      lookup-insert (m, a) k q s.positions,
      lookup-insert (m, a) k p s.avg_entry,
      v.paired k,
    );
  })
]

pub new_account-IsAccount : IsAccount new_account
unfolding new_account lookup
new_account-IsAccount = record { unique = tt; positive = tt; paired = λ k h. refl }
