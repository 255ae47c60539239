-- ===== src/Prelude/Sort.antt =====
-- Sorting a list by a Boolean test, as `sort.SliceStable` does.
use mathlib.Core.Logic.{inl, inr}
use mathlib.Core.Bool.{Bool}
use mathlib.Core.List.{List, [], ◌∷◌}
use estuary.Prelude.Tests.{if◌then◌else◌, Bool-cases}
use estuary.Prelude.Lists.{All}

module _ {A : Type 0} (less : A → A → Bool) where
  -- `x` goes before the first element that is not less than it.
  abbrev pub insert_sorted : A → List A → List A
  insert_sorted x [] = x ∷ []
  insert_sorted x (y ∷ ys) =
      let rest = insert_sorted x ys in if less y x then y ∷ rest else x ∷ y ∷ ys

  abbrev pub sort_stable : List A → List A
  sort_stable [] = []
  sort_stable (x ∷ xs) = insert_sorted x (sort_stable xs)

module _ {A : Type 0} (P : A → Type 0) (less : A → A → Bool) where
  insert_sorted-All : (x : A) (ys : List A) → P x → All P ys → All P (insert_sorted less x ys)
  insert_sorted-All x [] h k = (h, tt)
  insert_sorted-All x (y ∷ ys) h k = elim (Bool-cases (less y x)) [
    | inl e ↦ rw e (k.0, insert_sorted-All x ys h k.1)
    | inr e ↦ rw e (h, k)
  ]

  pub sort_stable-All : (xs : List A) → All P xs → All P (sort_stable less xs)
  sort_stable-All [] h = tt
  sort_stable-All (x ∷ xs) h =
      insert_sorted-All x (sort_stable less xs) h.0 (sort_stable-All xs h.1)
