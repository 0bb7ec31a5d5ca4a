-- ===== src/Oms/Totals.antt =====
-- Sums over the tracked orders of crates/oms, as orders are booked, updated and dropped.
use predigy.Prelude.{Bool-cases, ℕ, ◌+◌, ◌≡◌, refl, inl, inr, none, some, [], ◌∷◌, arith}
use predigy.Core.{position_key}
use predigy.Prelude.Map.{Key, text_key, Map, lookup, insert, remove, IsUnique}

module _ {ℓ κ} {K : Type ℓ} {V : Type κ} ⦃k : Key K⦄ (w : V → ℕ) where
  abbrev pub total_of : Map K V → ℕ
  total_of [] = 0
  total_of (e ∷ m) = w e.1 + total_of m

  pub total_of-insert_new :
      (a : K) (v : V) (m : Map K V) → lookup a m ≡ none → total_of (insert a v m) ≡ total_of m + w v
  unfolding lookup insert
  total_of-insert_new a v [] h = omega arith
  total_of-insert_new a v (e ∷ m) h = elim (Bool-cases (k.beq e.0 a)) [
    | inl same ↦ ground arith
    | inr other ↦ ground (arith, total_of-insert_new a v m)
  ]

  pub total_of-insert :
      (a : K) (old v : V) (m : Map K V)
      → lookup a m ≡ some old
      → total_of (insert a v m) + w old ≡ total_of m + w v
  unfolding lookup insert
  total_of-insert a old v [] h = cc
  total_of-insert a old v (e ∷ m) h = elim (Bool-cases (k.beq e.0 a)) [
    | inl same ↦ ground arith
    | inr other ↦ ground (arith, total_of-insert a old v m)
  ]

  total_of-remove_absent :
      (a : K) (m : Map K V) → lookup a m ≡ none → total_of (remove a m) ≡ total_of m
  unfolding lookup remove
  total_of-remove_absent a [] h = refl
  total_of-remove_absent a (e ∷ m) h = elim (Bool-cases (k.beq e.0 a)) [
    | inl same ↦ ground arith
    | inr other ↦ ground (arith, total_of-remove_absent a m)
  ]

  pub total_of-remove :
      (a : K) (old : V) (m : Map K V)
      → IsUnique m
      → lookup a m ≡ some old
      → total_of (remove a m) + w old ≡ total_of m
  unfolding lookup remove
  total_of-remove a old [] u h = cc
  total_of-remove a old (e ∷ m) u h = elim (Bool-cases (k.beq e.0 a)) [
    | inl same ↦ ground (arith, total_of-remove_absent a m, (k.beq_iff e.0 a).0 same)
    | inr other ↦ ground (arith, total_of-remove a old m u.1)
  ]
