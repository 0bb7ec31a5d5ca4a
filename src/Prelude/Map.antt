-- ===== src/Prelude/Map.antt =====
-- Dictionaries: a key is a type with a decided equality, a map an association list. The order of
-- the entries stands for the unspecified iteration order of a `HashMap`.
use mathlib.Core.Path.{◌≡◌, refl}
use mathlib.Core.Logic.{◌↔◌}
use mathlib.Core.Bool.{Bool, true}
use mathlib.Core.Option.{Option, none, some}
use mathlib.Core.List.{List, [], ◌∷◌}
use native.Mathlib.Omega.{arith}
use predigy.Prelude.Tests.{if◌then◌else◌}
use predigy.Prelude.Text.{Text, text_eq, text_eq_iff}

pub record Key {ℓ} (K : Type ℓ) : Type ℓ where
  pub beq : K → K → Bool
  pub beq_iff : (a b : K) → (beq a b ≡ true) ↔ (a ≡ b)

instance abbrev pub text_key : Key Text
text_key = record { beq = text_eq; beq_iff = text_eq_iff }

pub beq_refl {ℓ} : {K : Type ℓ} ⦃k : Key K⦄ (a : K) → k.beq a a ≡ true
beq_refl ⦃k⦄ a = (k.beq_iff a a).1 refl

abbrev pub Map {ℓ κ} : Type ℓ → Type κ → Type (ℓ ⊔ κ)
Map K V = List (K × V)

module _ {ℓ κ} {K : Type ℓ} {V : Type κ} ⦃k : Key K⦄ where
  unfoldable pub lookup : K → Map K V → Option V
  lookup a [] = none
  lookup a (e ∷ m) = if k.beq e.0 a then some e.1 else lookup a m

  unfoldable pub insert : K → V → Map K V → Map K V
  insert a v [] = (a, v) ∷ []
  insert a v (e ∷ m) = if k.beq e.0 a then (a, v) ∷ m else e ∷ insert a v m

  unfoldable pub remove : K → Map K V → Map K V
  remove a [] = []
  remove a (e ∷ m) = if k.beq e.0 a then remove a m else e ∷ remove a m

  pub lookup-insert :
      (a b : K) (v : V) (m : Map K V)
      → lookup b (insert a v m) ≡ (if k.beq a b then some v else lookup b m)
  unfolding lookup insert
  lookup-insert a b v [] = refl
  lookup-insert a b v (e ∷ m) =
      ground (arith, k.beq_iff e.0 a, k.beq_iff e.0 b, k.beq_iff a b, lookup-insert a b v m)

  pub lookup-remove :
      (a b : K) (m : Map K V) → lookup b (remove a m) ≡ (if k.beq a b then none else lookup b m)
  unfolding lookup remove
  lookup-remove a b [] = ground arith
  lookup-remove a b (e ∷ m) =
      ground (arith, k.beq_iff e.0 a, k.beq_iff e.0 b, k.beq_iff a b, lookup-remove a b m)

  pub lookup-insert_self : (a : K) (v : V) (m : Map K V) → lookup a (insert a v m) ≡ some v
  lookup-insert_self a v m = rw (lookup-insert a a v m, beq_refl a)

  pub lookup-remove_self : (a : K) (m : Map K V) → lookup a (remove a m) ≡ none
  lookup-remove_self a m = rw (lookup-remove a a m, beq_refl a)

  -- No key is listed twice, as in every map that is built by `insert` and `remove`.
  abbrev pub IsUnique : Map K V → Type κ
  IsUnique [] = Unit
  IsUnique (e ∷ m) = (lookup e.0 m ≡ none) × IsUnique m

  pub insert-IsUnique : (a : K) (v : V) (m : Map K V) → IsUnique m → IsUnique (insert a v m)
  unfolding insert lookup
  insert-IsUnique a v [] h = (refl, tt)
  insert-IsUnique a v (e ∷ m) h =
      ground (
        arith,
        k.beq_iff e.0 a,
        k.beq_iff a e.0,
        lookup-insert a e.0 v m,
        insert-IsUnique a v m h.1,
      )

  pub remove-IsUnique : (a : K) (m : Map K V) → IsUnique m → IsUnique (remove a m)
  unfolding remove lookup
  remove-IsUnique a [] h = tt
  remove-IsUnique a (e ∷ m) h = ground (arith, lookup-remove a e.0 m, remove-IsUnique a m h.1)
