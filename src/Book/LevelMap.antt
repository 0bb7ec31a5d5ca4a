-- ===== src/Book/LevelMap.antt =====
-- crates/book/src/lib.rs: `Levels`, a `BTreeMap<Price, u32>`, as the list of its entries by price.
use predigy.Prelude.{ltb, ◌==◌, if◌then◌else◌, ℕ, Option, none, some, List, [], ◌∷◌}
use predigy.Core.{Price}

abbrev pub Levels : Type 0
Levels = List (Price × ℕ)

unfoldable pub get_level : Price → Levels → Option ℕ
get_level p [] = none
get_level p (e ∷ m) = if e.0 == p then some e.1 else get_level p m

unfoldable pub insert_level : Price → ℕ → Levels → Levels
insert_level p q [] = (p, q) ∷ []
insert_level p q (e ∷ m) =
    let rest = insert_level p q m in
    if ltb p e.0 then (p, q) ∷ e ∷ m else if e.0 == p then (p, q) ∷ m else e ∷ rest

unfoldable pub remove_level : Price → Levels → Levels
remove_level p [] = []
remove_level p (e ∷ m) = if e.0 == p then remove_level p m else e ∷ remove_level p m

-- `iter().next_back()`: the entry with the highest price.
unfoldable pub last_level : Levels → Option (Price × ℕ)
last_level [] = none
last_level (e ∷ []) = some e
last_level (e ∷ f ∷ m) = last_level (f ∷ m)

-- `into_iter().collect()`: of two entries with one price the later wins.
unfoldable pub collect_into : Levels → List (Price × ℕ) → Levels
collect_into m [] = m
collect_into m ((p, q) ∷ l) = collect_into (insert_level p q m) l

unfoldable pub collect : List (Price × ℕ) → Levels
unfolding collect_into
collect l = collect_into [] l
