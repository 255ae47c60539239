-- ===== src/Prelude/Map.antt =====
-- Go's maps with number keys as association lists: the order of the list is the order of `range`.
use Prim.Native.Nat.{ℕ}
use mathlib.Core.Logic.{inl, inr}
use mathlib.Core.Path.{◌≡◌, refl}
use mathlib.Core.List.{List, [], ◌∷◌}
use mathlib.Core.Option.{Option, none, some}
use native.Mathlib.Omega.{arith}
use estuary.Prelude.Tests.{if◌then◌else◌, ◌==◌, Bool-cases}
use estuary.Prelude.Lists.{All}

module _ {ℓ} {V : Type ℓ} where
  unfoldable pub lookup : ℕ → List (ℕ × V) → Option V
  lookup k [] = none
  lookup k ((j, v) ∷ m) = if j == k then some v else lookup k m

  -- `m[k]`, with the zero value `d` of a missing key.
  unfoldable pub get_or : ℕ → List (ℕ × V) → V → V
  get_or k [] d = d
  get_or k ((j, v) ∷ m) d = if j == k then v else get_or k m d

  -- `m[k] = v`
  unfoldable pub insert : ℕ → V → List (ℕ × V) → List (ℕ × V)
  insert k v [] = (k, v) ∷ []
  insert k v ((j, w) ∷ m) = let rest = insert k v m in if j == k then (k, v) ∷ m else (j, w) ∷ rest

  -- `delete(m, k)`
  unfoldable pub delete : ℕ → List (ℕ × V) → List (ℕ × V)
  delete k [] = []
  delete k ((j, w) ∷ m) = let rest = delete k m in if j == k then rest else (j, w) ∷ rest

  abbrev pub keys : List (ℕ × V) → List ℕ
  keys [] = []
  keys ((j, w) ∷ m) = j ∷ keys m

  pub get_or-insert :
      (k j : ℕ) (v d : V) (m : List (ℕ × V))
      → get_or j (insert k v m) d ≡ (if k == j then v else get_or j m d)
  unfolding get_or insert
  get_or-insert k j v d [] = refl
  get_or-insert k j v d ((i, w) ∷ m) = ground (arith, get_or-insert k j v d m)

  pub get_or-delete :
      (k j : ℕ) (d : V) (m : List (ℕ × V))
      → get_or j (delete k m) d ≡ (if k == j then d else get_or j m d)
  unfolding get_or delete
  get_or-delete k j d [] = ground arith
  get_or-delete k j d ((i, w) ∷ m) = ground (arith, get_or-delete k j d m)

  pub lookup-insert :
      (k l : ℕ) (new : V) (m : List (ℕ × V))
      → lookup l (insert k new m) ≡ (if k == l then some new else lookup l m)
  unfolding lookup insert
  lookup-insert k l new [] = refl
  lookup-insert k l new ((i, old) ∷ m) = ground (arith, lookup-insert k l new m)

  pub lookup-delete :
      (k l : ℕ) (m : List (ℕ × V)) → lookup l (delete k m) ≡ (if k == l then none else lookup l m)
  unfolding lookup delete
  lookup-delete k l [] = ground arith
  lookup-delete k l ((i, old) ∷ m) = ground (arith, lookup-delete k l m)

  pub delete-insert : (k : ℕ) (v : V) (m : List (ℕ × V)) → delete k (insert k v m) ≡ delete k m
  unfolding delete insert
  delete-insert k v [] = ground arith
  delete-insert k v ((j, w) ∷ m) = ground (arith, delete-insert k v m)

-- A predicate on every value of a map.
module _ {ℓ κ} {V : Type ℓ} (P : V → Type κ) where
  abbrev pub Values : List (ℕ × V) → Type κ
  Values = All (λ e. P e.1)

  pub insert-Values : (k : ℕ) (v : V) (m : List (ℕ × V)) → P v → Values m → Values (insert k v m)
  unfolding insert
  insert-Values k v [] p h = (p, tt)
  insert-Values k v ((j, w) ∷ m) p h = elim (Bool-cases (j == k)) [
    | inl e ↦ rw e (p, h.1)
    | inr e ↦ rw e (h.0, insert-Values k v m p h.1)
  ]

  pub delete-Values : (k : ℕ) (m : List (ℕ × V)) → Values m → Values (delete k m)
  unfolding delete
  delete-Values k [] h = tt
  delete-Values k ((j, w) ∷ m) h = elim (Bool-cases (j == k)) [
    | inl e ↦ rw e (delete-Values k m h.1)
    | inr e ↦ rw e (h.0, delete-Values k m h.1)
  ]

  pub get_or-Values : (k : ℕ) (d : V) (m : List (ℕ × V)) → P d → Values m → P (get_or k m d)
  unfolding get_or
  get_or-Values k d [] p h = p
  get_or-Values k d ((j, w) ∷ m) p h = elim (Bool-cases (j == k)) [
    | inl e ↦ rw e h.0
    | inr e ↦ rw e (get_or-Values k d m p h.1)
  ]

  -- Replacing the value of a key and then deleting the key is deleting it.
  pub delete-insert-Values :
      (k : ℕ) (v : V) (m : List (ℕ × V)) → Values m → Values (delete k (insert k v m))
  delete-insert-Values k v m h = rw (delete-insert k v m) (delete-Values k m h)
