-- ===== src/Book/LevelLaws.antt =====
-- crates/book/src/lib.rs: the laws of the price levels as a sorted map.
use predigy.Prelude.{
  ◌==◌, if◌then◌else◌, All, ℕ, ◌≤◌, ◌<◌, ◌≡◌, refl, none, some, List, [], ◌∷◌, arith,
}
use predigy.Core.{Price, IsPrice}
use predigy.Book.LevelMap.{
  Levels, get_level, insert_level, remove_level, last_level, collect_into, collect,
}

pub get_level-insert_level :
    (p j q : ℕ) (m : Levels)
    → get_level j (insert_level p q m) ≡ (if p == j then some q else get_level j m)
unfolding get_level insert_level
get_level-insert_level p j q [] = refl
get_level-insert_level p j q (e ∷ m) = ground (arith, get_level-insert_level p j q m)

pub get_level-remove_level :
    (p j : ℕ) (m : Levels)
    → get_level j (remove_level p m) ≡ (if p == j then none else get_level j m)
unfolding get_level remove_level
get_level-remove_level p j [] = ground arith
get_level-remove_level p j (e ∷ m) = ground (arith, get_level-remove_level p j m)

-- The prices rise strictly, from above the bound.
abbrev pub IsAscending : ℕ → Levels → Type 0
IsAscending b [] = Unit
IsAscending b (e ∷ m) = (b < e.0) × IsAscending e.0 m

IsAscending-weaken : (b c : ℕ) (m : Levels) → c ≤ b → IsAscending b m → IsAscending c m
IsAscending-weaken b c [] h a = tt
IsAscending-weaken b c (e ∷ m) h a = (omega arith, a.1)

pub insert_level-IsAscending :
    (p q b : ℕ) (m : Levels) → b < p → IsAscending b m → IsAscending b (insert_level p q m)
unfolding insert_level
insert_level-IsAscending p q b [] h a = (h, tt)
insert_level-IsAscending p q b (e ∷ m) h a = ground (arith, insert_level-IsAscending p q e.0 m)

pub remove_level-IsAscending :
    (p b : ℕ) (m : Levels) → IsAscending b m → IsAscending b (remove_level p m)
unfolding remove_level
remove_level-IsAscending p b [] a = tt
remove_level-IsAscending p b (e ∷ m) a =
    ground (arith, remove_level-IsAscending p e.0 m, IsAscending-weaken e.0 b (remove_level p m))

collect_into-IsAscending :
    (m : Levels) (l : List (Price × ℕ))
    → All (λ e. IsPrice e.0) l
    → IsAscending 0 m
    → IsAscending 0 (collect_into m l)
unfolding collect_into
collect_into-IsAscending m [] h a = a
collect_into-IsAscending m ((p, q) ∷ l) h a =
    collect_into-IsAscending (insert_level p q m) l h.1
      (insert_level-IsAscending p q 0 m (omega arith) a)

pub collect-IsAscending :
    (l : List (Price × ℕ)) → All (λ e. IsPrice e.0) l → IsAscending 0 (collect l)
unfolding collect
collect-IsAscending l h = collect_into-IsAscending [] l h tt

pub get_level_above : (b j v : ℕ) (m : Levels) → IsAscending b m → get_level j m ≡ some v → b < j
unfolding get_level
get_level_above b j v [] a e = cc
get_level_above b j v (x ∷ m) a e = ground (arith, get_level_above x.0 j v m)

-- The last entry is in the map, and no entry has a higher price.
pub last_level_highest :
    (b p q : ℕ) (m : Levels)
    → IsAscending b m
    → last_level m ≡ some (p, q)
    → (get_level p m ≡ some q) × ((j v : ℕ) → get_level j m ≡ some v → j ≤ p)
unfolding get_level last_level
last_level_highest b p q [] a e = cc
last_level_highest b p q (x ∷ []) a e = (ground arith, λ j v g. ground arith)
last_level_highest b p q (x ∷ y ∷ m) a e =
    let ih = last_level_highest x.0 p q (y ∷ m) a.1 e in
    (
      ground (arith, get_level_above x.0 p q (y ∷ m) a.1 ih.0),
      λ j v g. ground (arith, ih.1 j v, get_level_above x.0 p q (y ∷ m) a.1 ih.0),
    )

module _ {ℓ} (P : Price × ℕ → Type ℓ) where
  pub insert_level-All : (p q : ℕ) (m : Levels) → P (p, q) → All P m → All P (insert_level p q m)
  unfolding insert_level
  insert_level-All p q [] h a = (h, tt)
  insert_level-All p q (e ∷ m) h a = ground (arith, insert_level-All p q m h a.1)

  pub remove_level-All : (p : ℕ) (m : Levels) → All P m → All P (remove_level p m)
  unfolding remove_level
  remove_level-All p [] a = tt
  remove_level-All p (e ∷ m) a = ground (arith, remove_level-All p m a.1)

  pub All-get_level : (j v : ℕ) (m : Levels) → All P m → get_level j m ≡ some v → P (j, v)
  unfolding get_level
  All-get_level j v [] a e = cc
  All-get_level j v (x ∷ m) a e = ground (arith, All-get_level j v m a.1)

  collect_into-All :
      (m : Levels) (l : List (Price × ℕ)) → All P l → All P m → All P (collect_into m l)
  unfolding collect_into
  collect_into-All m [] h a = a
  collect_into-All m ((p, q) ∷ l) h a =
      collect_into-All (insert_level p q m) l h.1 (insert_level-All p q m h.0 a)

  pub collect-All : (l : List (Price × ℕ)) → All P l → All P (collect l)
  unfolding collect
  collect-All l h = collect_into-All [] l h tt
