-- ===== src/Db/Table.antt =====
-- Tables as lists of rows in the order of their keys, and the statements on them.
use estuary.Prelude.{
  ℕ, suc, ◌≡◌, refl, Bool, true, if◌then◌else◌, List, [], ◌∷◌, ◌++◌, All, All-append, All-imp, Any,
  arith, inl, inr, Bool-cases, keep, ◌<◌, Any-append_right, false, Option, none, some, ◌==◌,
}
use mathlib.Core.List.{reverse, reverse-cons}

module _ {A : Type 0} where
  -- UPDATE ... SET ... WHERE p
  abbrev pub update : (A → Bool) → (A → A) → List A → List A
  update p f [] = []
  update p f (x ∷ xs) = let rest = update p f xs in if p x then f x ∷ rest else x ∷ rest

  -- The rows that an UPDATE changes: `RowsAffected`, and COUNT.
  abbrev pub count : (A → Bool) → List A → ℕ
  count p [] = 0
  count p (x ∷ xs) = let rest = count p xs in if p x then suc rest else rest

  -- DELETE ... WHERE p
  abbrev pub delete : (A → Bool) → List A → List A
  delete p [] = []
  delete p (x ∷ xs) = let rest = delete p xs in if p x then rest else x ∷ rest

  -- `First` with a condition.
  abbrev pub first : (A → Bool) → List A → Option A
  first p [] = none
  first p (x ∷ xs) = let rest = first p xs in if p x then some x else rest

  -- INSERT ... ON CONFLICT DO NOTHING, where `p` finds the row that the new one conflicts with.
  abbrev pub insert_new : (A → Bool) → A → List A → List A
  insert_new p x xs = if count p xs == 0 then xs ++ x ∷ [] else xs

  module _ (P : A → Type 0) (p : A → Bool) where
    -- What every row has after an UPDATE.
    pub update-All :
        (f : A → A) (xs : List A)
        → ((x : A) → P x → p x ≡ true → P (f x))
        → All P xs
        → All P (update p f xs)
    update-All f [] k h = tt
    update-All f (x ∷ xs) k h = elim (Bool-cases (p x)) [
      | inl e ↦ rw e (k x h.0 e, update-All f xs k h.1)
      | inr e ↦ rw e (h.0, update-All f xs k h.1)
    ]

    pub delete-All : (xs : List A) → All P xs → All P (delete p xs)
    delete-All [] h = tt
    delete-All (x ∷ xs) h = elim (Bool-cases (p x)) [
      | inl e ↦ rw e (delete-All xs h.1)
      | inr e ↦ rw e (h.0, delete-All xs h.1)
    ]

    pub keep-All : (xs : List A) → All P xs → All P (keep p xs)
    keep-All [] h = tt
    keep-All (x ∷ xs) h = elim (Bool-cases (p x)) [
      | inl e ↦ rw e (h.0, keep-All xs h.1)
      | inr e ↦ rw e (keep-All xs h.1)
    ]

  -- A row that passes the test is counted.
  pub count_pos : (p : A → Bool) (xs : List A) → Any (λ x. p x ≡ true) xs → 0 < count p xs
  count_pos p (x ∷ xs) (inl e) = rw e (omega arith)
  count_pos p (x ∷ xs) (inr h) = elim (Bool-cases (p x)) [
    | inl e ↦ rw e (omega arith)
    | inr e ↦ rw e (count_pos p xs h)
  ]
  count_pos p [] h = absurd h

  -- A row that is counted is there.
  pub counted : (p : A → Bool) (xs : List A) → (count p xs == 0) ≡ false → Any (λ x. p x ≡ true) xs
  counted p [] h = absurd (ground (arith, h))
  counted p (x ∷ xs) h = elim (Bool-cases (p x)) [
    | inl e ↦ inl e
    | inr e ↦ inr (counted p xs (ground (arith, e, h)))
  ]

  -- After an INSERT ... ON CONFLICT DO NOTHING there is a row with the key.
  pub insert_new-Any :
      (p : A → Bool) (a : A) (xs : List A) → p a ≡ true → Any (λ x. p x ≡ true) (insert_new p a xs)
  insert_new-Any p a xs h = elim (Bool-cases (count p xs == 0)) [
    | inl e ↦ rw e (Any-append_right (λ x. p x ≡ true) xs (a ∷ []) (inl h))
    | inr e ↦ rw e (counted p xs e)
  ]

  -- A row that an UPDATE changes is there, changed.
  pub update-Any :
      (P Q : A → Type 0) (p : A → Bool) (f : A → A) (xs : List A)
      → ((x : A) → P x → (p x ≡ true) × Q (f x))
      → Any P xs
      → Any Q (update p f xs)
  update-Any P Q p f (x ∷ xs) k (inl h) = rw (k x h).0 (inl (k x h).1)
  update-Any P Q p f (x ∷ xs) k (inr h) = elim (Bool-cases (p x)) [
    | inl e ↦ rw e (inr (update-Any P Q p f xs k h))
    | inr e ↦ rw e (inr (update-Any P Q p f xs k h))
  ]
  update-Any P Q p f [] k h = absurd h

  -- The rows that a query keeps pass its test.
  pub keep_sound : (p : A → Bool) (xs : List A) → All (λ x. p x ≡ true) (keep p xs)
  keep_sound p [] = tt
  keep_sound p (x ∷ xs) = elim (Bool-cases (p x)) [
    | inl e ↦ rw e (e, keep_sound p xs)
    | inr e ↦ rw e (keep_sound p xs)
  ]

  -- The rows that a query keeps are rows of the table that pass its test.
  pub members :
      (p : A → Bool) (xs : List A) → All (λ x. (p x ≡ true) × Any (λ y. y ≡ x) xs) (keep p xs)
  members p [] = tt
  members p (x ∷ xs) =
      let rest =
        All-imp (λ y. (p y ≡ true) × Any (λ z. z ≡ y) xs)
          (λ y. (p y ≡ true) × Any (λ z. z ≡ y) (x ∷ xs)) (keep p xs) (λ y h. (h.0, inr h.1))
          (members p xs) in
      elim (Bool-cases (p x)) [ inl e ↦ rw e ((e, inl refl), rest) | inr e ↦ rw e rest ]

  pub All-reverse : (P : A → Type 0) (xs : List A) → All P xs → All P (reverse xs)
  All-reverse P [] h = tt
  All-reverse P (x ∷ xs) h =
      rw (reverse-cons x xs) (All-append P (reverse xs) (x ∷ []) (All-reverse P xs h.1) (h.0, tt))
