-- ===== src/Db/Atomic.antt =====
-- Handlers that change nothing when they fail.
use estuary.Prelude.{◌≡◌, refl, Bool, true, false, if◌then◌else◌, arith, inl, inr, ◌⊎◌, ◌∙◌}
use estuary.Db.{
  Error, Result, ok, err, World, M, throw, ◌>>=◌, statement, query, execute, catch, undo,
  transaction,
}

pub Result-cases :
    {A : Type 0} (r : Result A) → ((a : A) × (r ≡ ok a)) ⊎ ((e : Error) × (r ≡ err e))
Result-cases (ok a) = inl (a, refl)
Result-cases (err e) = inr (e, refl)

module _ {S : Type 0} where
  -- A run that ends in an error leaves the store as it was.
  abbrev pub Atomic : {A : Type 0} → M S A → Type 0
  Atomic m = (w : World S) (e : Error) → (m w).0 ≡ err e → (m w).1.store ≡ w.store

  -- A run leaves the store as it was, whatever it returns.
  abbrev pub ReadOnly : {A : Type 0} → M S A → Type 0
  ReadOnly m = (w : World S) → (m w).1.store ≡ w.store

  pub query-ReadOnly : {A : Type 0} (f : S → A) → ReadOnly (query f)
  unfolding query
  query-ReadOnly f w = ground arith

  pub statement-Atomic : {A : Type 0} (f : S → A × S) → Atomic (statement f)
  unfolding statement
  statement-Atomic f w e h = ground arith

  pub throw-Atomic : {A : Type 0} (e : Error) → Atomic (throw {A = A} e)
  throw-Atomic e w e' h = refl

  undo-Atomic :
      {A : Type 0} (s : S) (r : Result A × World S) (e : Error)
      → (undo s r).0 ≡ err e
      → (undo s r).1.store ≡ s
  unfolding undo
  undo-Atomic s (ok a, w) e h = absurd (ground arith)
  undo-Atomic s (err e', w) e h = refl

  pub transaction-Atomic : {A : Type 0} (m : M S A) → Atomic (transaction m)
  unfolding transaction
  transaction-Atomic m w e h = undo-Atomic w.store _ e h

  pub >>=-Atomic :
      {A B : Type 0} (m : M S A) (f : A → M S B)
      → ReadOnly m
      → ((a : A) → Atomic (f a))
      → Atomic (m >>= f)
  unfolding ◌>>=◌
  >>=-Atomic m f r k w e h = elim (Result-cases (m w).0) [
    | inl (a, p) ↦ rw (p, ◌>>=◌) (k a (m w).1 e (rw (p, ◌>>=◌) at h) ∙ r w)
    | inr (e', p) ↦ rw (p, ◌>>=◌) (r w)
  ]

  pub catch-Atomic :
      {A : Type 0} (m : M S A) (h : Error → M S A)
      → Atomic m
      → ((e : Error) → Atomic (h e))
      → Atomic (catch m h)
  unfolding catch
  catch-Atomic m h p k w e q = elim (Result-cases (m w).0) [
    | inl (a, g) ↦ absurd (ground arith)
    | inr (e', g) ↦ rw (g, catch) (k e' (m w).1 e (rw (g, catch) at q) ∙ p w e' g)
  ]

  pub execute-Atomic : (f : S → S) → Atomic (execute f)
  unfolding execute
  execute-Atomic f w e h = ground arith

  pub if-Atomic :
      {A : Type 0} (b : Bool) (m n : M S A) → Atomic m → Atomic n → Atomic (if b then m else n)
  if-Atomic true m n h k = h
  if-Atomic false m n h k = k
