-- ===== src/Pinner/Manager/Counts.antt =====
-- The counters of the pin manager against the queue that they count.
use estuary.Prelude.{
  ==_self, elem, ◌∙◌, ℕ, ◌≡◌, ◌==◌, if◌then◌else◌, List, [], ◌∷◌, true, false, arith, inl, inr,
  Bool-cases, ap,
}
use estuary.Prelude.Int.{ℤ, pos, ◌+ℤ◌, ◌-ℤ◌, is_zero, ◌<ℤ◌, ◌≤ℤ◌}
use estuary.Prelude.Map.{
  get_or, insert, get_or-insert, get_or-delete, Values, insert-Values, delete-insert-Values, keys,
}
use estuary.Pinner.Manager.{increment, decrement}

pub get_or-increment :
    (k j : ℕ) (m : List (ℕ × ℤ))
    → get_or j (increment k m) (pos 0)
      ≡ (if k == j then get_or k m (pos 0) +ℤ pos 1 else get_or j m (pos 0))
unfolding increment
get_or-increment k j m = get_or-insert k j _ _ m

pub get_or-decrement :
    (k j : ℕ) (m : List (ℕ × ℤ))
    → get_or j (decrement k m) (pos 0)
      ≡ (if k == j then get_or k m (pos 0) -ℤ pos 1 else get_or j m (pos 0))
unfolding decrement
get_or-decrement k j m =
    let m' = insert k (get_or k m (pos 0) -ℤ pos 1) m in
    ground (
      arith,
      get_or-insert k j (get_or k m (pos 0) -ℤ pos 1) (pos 0) m,
      get_or-insert k k (get_or k m (pos 0) -ℤ pos 1) (pos 0) m,
      get_or-delete k j (pos 0) m',
    )

-- Every key of a map has a count above zero.
abbrev pub IsPositive : List (ℕ × ℤ) → Type 0
IsPositive = Values (λ n. pos 0 <ℤ n)

positive_add_one : (n : ℤ) → pos 0 ≤ℤ n → pos 0 <ℤ n +ℤ pos 1
positive_add_one n h = ground arith

get_or_nonneg : (k : ℕ) (m : List (ℕ × ℤ)) → IsPositive m → pos 0 ≤ℤ get_or k m (pos 0)
unfolding get_or
get_or_nonneg k [] h = omega arith
get_or_nonneg k ((j, w) ∷ m) h = elim (Bool-cases (j == k)) [
  | inl e ↦ rw e (omega arith)
  | inr e ↦ rw e (get_or_nonneg k m h.1)
]

pub increment-IsPositive : (k : ℕ) (m : List (ℕ × ℤ)) → IsPositive m → IsPositive (increment k m)
unfolding increment
increment-IsPositive k m h =
    insert-Values (λ n. pos 0 <ℤ n) k _ m (positive_add_one _ (get_or_nonneg k m h)) h

sub_one_positive : (n : ℤ) → pos 0 <ℤ n → is_zero (n -ℤ pos 1) ≡ false → pos 0 <ℤ n -ℤ pos 1
sub_one_positive n h e = ground arith

pub decrement-IsPositive :
    (k : ℕ) (m : List (ℕ × ℤ))
    → pos 0 <ℤ get_or k m (pos 0)
    → IsPositive m
    → IsPositive (decrement k m)
unfolding decrement
decrement-IsPositive k m p h =
    let v = get_or k m (pos 0) -ℤ pos 1 in
    let same : get_or k (insert k v m) (pos 0) ≡ v =
      get_or-insert k k v (pos 0) m ∙ ap (λ b. if b then v else get_or k m (pos 0)) (==_self k) in
    elim (Bool-cases (is_zero v)) [
      | inl e ↦ rw (same, e) (delete-insert-Values (λ n. pos 0 <ℤ n) k v m h)
      | inr e ↦
          rw (same, e)
            (insert-Values (λ n. pos 0 <ℤ n) k v m (sub_one_positive (get_or k m (pos 0)) p e) h)
    ]

pub get_or_positive :
    (k : ℕ) (m : List (ℕ × ℤ)) → elem k (keys m) ≡ true → IsPositive m → pos 0 <ℤ get_or k m (pos 0)
unfolding get_or
get_or_positive k [] e h = cc
get_or_positive k ((j, w) ∷ m) e h = elim (Bool-cases (j == k)) [
  | inl here ↦ rw here h.0
  | inr there ↦ rw there (get_or_positive k m (rw there at e) h.1)
]
