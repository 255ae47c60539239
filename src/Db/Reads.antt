-- ===== src/Db/Reads.antt =====
-- Handlers that only read, where no statement fails.
use estuary.Prelude.{ℕ, suc, ◌≡◌, refl, sym, subst, ap, Bool, true, false, inl, inr, if◌then◌else◌}
use estuary.Db.{Error, Result, ok, err, World, M, pure, throw, ◌>>=◌, query, quiet}
use estuary.Db.Atomic.{Result-cases}
use estuary.Db.Run.{query-quiet}

-- The handler ends in a quiet world with the same store.
pub record Reads {S A : Type 0} (m : M S A) : Type 0 where
  pub reads : (s : S) (t now : ℕ) → (u : ℕ) × ((m (quiet s t now)).1 ≡ quiet s u now)

module _ {S : Type 0} where
  pub pure-Reads : {A : Type 0} {a : A} → Reads {S = S} (pure a)
  pure-Reads = record { reads = λ s t now. (t, refl) }

  pub throw-Reads : {A : Type 0} {e : Error} → Reads {S = S} (throw {A = A} e)
  throw-Reads = record { reads = λ s t now. (t, refl) }

  pub query-Reads : {A : Type 0} (f : S → A) → Reads (query f)
  query-Reads f = record {
    reads = λ s t now. (suc t, ap (λ r. r.1) (query-quiet f (quiet s t now) refl));
  }

  pub if-Reads :
      {A : Type 0} (b : Bool) {m n : M S A} → Reads m → Reads n → Reads (if b then m else n)
  if-Reads true h k = h
  if-Reads false h k = k

  -- What holds after a step that only reads and the steps after it.
  pub reads_bind :
      {A B : Type 0} (P : Result B × World S → Type 0) (m : M S A) (f : A → M S B) (s : S)
      (t now : ℕ)
      → Reads m
      → ((a : A) (u : ℕ) → (m (quiet s t now)).0 ≡ ok a → P (f a (quiet s u now)))
      → ((e : Error) (u : ℕ) → P (err e, quiet s u now))
      → P ((m >>= f) (quiet s t now))
  unfolding ◌>>=◌
  reads_bind P m f s t now h k l =
      let w = quiet s t now in
      let (u, q) = h.reads s t now in
      elim (Result-cases (m w).0) [
        | inl (a, p) ↦ rw (p, ◌>>=◌) (subst (λ v. P (f a v)) (sym q) (k a u p))
        | inr (e, p) ↦ rw (p, ◌>>=◌) (subst (λ v. P (err e, v)) (sym q) (l e u))
      ]

  pub >>=-Reads :
      {A B : Type 0} {m : M S A} {f : A → M S B}
      → Reads m
      → ((a : A) → Reads (f a))
      → Reads (m >>= f)
  >>=-Reads {m = m} {f = f} h k = record {
    reads = λ s t now.
        reads_bind (λ r. (u : ℕ) × (r.1 ≡ quiet s u now)) m f s t now h
          (λ a u p. (k a).reads s u now) (λ e u. (u, refl));
  }
