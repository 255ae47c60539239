-- ===== src/Db/Gives.antt =====
-- What a handler answers when it ends well, whichever of its statements fail.
use estuary.Prelude.{
  ◌≡◌, refl, sym, ◌∙◌, subst, Bool, true, false, Bool-cases, inl, inr, if◌then◌else◌, arith,
}
use estuary.Db.{Error, ok, World, M, pure, throw, ◌>>=◌, query, statement}
use estuary.Db.Atomic.{Result-cases}

module _ {S : Type 0} where
  abbrev pub Gives : {A : Type 0} → M S A → (A → Type 0) → Type 0
  Gives {A} m Q = (w : World S) (a : A) → (m w).0 ≡ ok a → Q a

  pub pure-Gives : {A : Type 0} (Q : A → Type 0) (a : A) → Q a → Gives (pure a) Q
  pure-Gives Q a q w b e = subst Q (ground (arith, e)) q

  pub throw-Gives : {A : Type 0} (Q : A → Type 0) (e : Error) → Gives (throw {A = A} e) Q
  throw-Gives Q e w a p = absurd (ground (arith, p))

  pub if-Gives :
      {A : Type 0} (Q : A → Type 0) (b : Bool) (m n : M S A)
      → Gives m Q
      → Gives n Q
      → Gives (if b then m else n) Q
  if-Gives Q true m n h k = h
  if-Gives Q false m n h k = k

  -- The answer of the last step, for every answer of the steps before.
  pub >>=-Gives :
      {A B : Type 0} (P : A → Type 0) (Q : B → Type 0) (m : M S A) (f : A → M S B)
      → Gives m P
      → ((a : A) → P a → Gives (f a) Q)
      → Gives (m >>= f) Q
  unfolding ◌>>=◌
  >>=-Gives P Q m f h k w b e = elim (Result-cases (m w).0) [
    | inl (a, p) ↦ k a (h w a p) (m w).1 b (sym (rw (p, ◌>>=◌) refl) ∙ e)
    | inr (d, p) ↦ absurd (ground (arith, p, e))
  ]

  pub any-Gives : {A : Type 0} (m : M S A) → Gives m (λ _. Unit)
  any-Gives m w a e = tt

  -- The steps of a handler that ended well.
  pub ended :
      {A B : Type 0} (m : M S A) (f : A → M S B) (w : World S) (b : B)
      → ((m >>= f) w).0 ≡ ok b
      → (a : A) × ((m w).0 ≡ ok a) × ((f a (m w).1).0 ≡ ok b)
  unfolding ◌>>=◌
  ended m f w b e = elim (Result-cases (m w).0) [
    | inl (a, p) ↦ (a, p, sym (rw (p, ◌>>=◌) refl) ∙ e)
    | inr (d, p) ↦ absurd (ground (arith, p, e))
  ]

  pub query_same :
      {A : Type 0} (f : S → A) (w : World S) (a : A) → (query f w).0 ≡ ok a → f w.store ≡ a
  unfolding query statement
  query_same f w a e = elim (Bool-cases (w.fails w.tick)) [
    | inl p ↦ absurd (ground (arith, p, e))
    | inr p ↦ ground (arith, p, e)
  ]
