-- ===== src/Db/Rows.antt =====
-- What the statements on a table do to its rows, by the functions on lists.
use estuary.Prelude.{
  ◌≡◌, refl, Bool, true, false, Bool-cases, if◌then◌else◌, not, List, [], ◌∷◌, ◌++◌, All, Any, map,
  keep, inl, inr, ◌⊎◌, ◌==◌, arith,
}
use estuary.Db.Table.{update, delete, count, counted, insert_new}

module _ {A : Type 0} (p : A → Bool) where
  pub update-map : (f : A → A) (xs : List A) → update p f xs ≡ map (λ x. if p x then f x else x) xs
  update-map f [] = refl
  update-map f (x ∷ xs) = elim (Bool-cases (p x)) [
    | inl e ↦ rw (e, update-map f xs) refl
    | inr e ↦ rw (e, update-map f xs) refl
  ]

  pub delete-keep : (xs : List A) → delete p xs ≡ keep (λ x. not (p x)) xs
  delete-keep [] = refl
  delete-keep (x ∷ xs) = elim (Bool-cases (p x)) [
    | inl e ↦ rw (e, delete-keep xs) refl
    | inr e ↦ rw (e, delete-keep xs) refl
  ]

  -- A table gets a row at its end, unless it has one that passes the test.
  abbrev pub Gets : A → List A → List A → Type 0
  Gets row xs ys =
      (Any (λ x. p x ≡ true) xs × (ys ≡ xs)) ⊎ (All (λ x. p x ≡ false) xs × (ys ≡ xs ++ row ∷ []))

  uncounted : (xs : List A) → (count p xs == 0) ≡ true → All (λ x. p x ≡ false) xs
  uncounted [] h = tt
  uncounted (x ∷ xs) h = elim (Bool-cases (p x)) [
    | inl e ↦ absurd (ground (arith, e, h))
    | inr e ↦ (e, uncounted xs (ground (arith, e, h)))
  ]

  pub insert_new-Gets : (row : A) (xs : List A) → Gets row xs (insert_new p row xs)
  insert_new-Gets row xs = elim (Bool-cases (count p xs == 0)) [
    | inl e ↦ rw e (inr (uncounted xs e, refl))
    | inr e ↦ rw e (inl (counted p xs e, refl))
  ]
