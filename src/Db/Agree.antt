-- ===== src/Db/Agree.antt =====
-- A run that no failing statement ends does what it does when no statement fails.
use estuary.Prelude.{
  ℕ, ◌≡◌, refl, Bool, true, false, if◌then◌else◌, arith, inl, inr, Bool-cases, ◌⊎◌, ◌∙◌,
}
use estuary.Db.{
  Error, Result, ok, err, World, M, pure, throw, ◌>>=◌, ◌>>◌, statement, query, execute, catch,
  undo, transaction, db_error, now,
}
use estuary.Db.Atomic.{Result-cases}

module _ {S : Type 0} where
  -- `v` is `w` with no failures.
  pub record IsQuiet (w v : World S) : Type 0 where
    pub same_store : w.store ≡ v.store
    pub same_now : w.now ≡ v.now
    pub no_failure : (n : ℕ) → v.fails n ≡ false

  -- From such worlds the handler ends in the same result and store, or a statement failed.
  abbrev pub Agrees : {A : Type 0} → M S A → Type 0
  Agrees m =
      (w v : World S)
      → IsQuiet w v
      → ((m w).0 ≡ err db_error) ⊎ (((m w).0 ≡ (m v).0) × IsQuiet (m w).1 (m v).1)

  pub pure-Agrees : {A : Type 0} (a : A) → Agrees (pure a)
  pure-Agrees a w v q = inr (refl, q)

  pub throw-Agrees : {A : Type 0} (e : Error) → Agrees (throw {A = A} e)
  throw-Agrees e w v q = inr (refl, q)

  pub now-Agrees : Agrees now
  now-Agrees w v q = inr (rw q.same_now, q)

  pub statement-Agrees : {A : Type 0} (f : S → A × S) → Agrees (statement f)
  unfolding statement
  statement-Agrees f w v q = elim (Bool-cases (w.fails w.tick)) [
    | inl e ↦ inl (rw e)
    | inr e ↦
        rw (e, q.no_failure v.tick, q.same_store)
          (inr
            (refl, record { same_store = refl; same_now = q.same_now; no_failure = q.no_failure }))
  ]

  pub >>=-Agrees :
      {A B : Type 0} (m : M S A) (f : A → M S B)
      → Agrees m
      → ((a : A) → Agrees (f a))
      → Agrees (m >>= f)
  unfolding ◌>>=◌
  >>=-Agrees m f h k w v q = elim (h w v q) [
    | inl e ↦ inl (rw (e, ◌>>=◌))
    | inr (same, q') ↦ elim (Result-cases (m v).0) [
      | inl (a, p) ↦ rw (same ∙ p, p, ◌>>=◌) (k a (m w).1 (m v).1 q')
      | inr (e, p) ↦ rw (same ∙ p, p, ◌>>=◌) (inr (refl, q'))
    ]
  ]

  pub catch-Agrees :
      {A : Type 0} (m : M S A) (h : Error → M S A)
      → Agrees m
      → ((e : Error) → Agrees (h e))
      → ((w : World S) → (h db_error w).0 ≡ err db_error)
      → Agrees (catch m h)
  unfolding catch
  catch-Agrees m h g k d w v q = elim (g w v q) [
    | inl e ↦ inl (rw (e, catch) (d (m w).1))
    | inr (same, q') ↦ elim (Result-cases (m v).0) [
      | inl (a, p) ↦ rw (same ∙ p, p, catch) (inr (refl, q'))
      | inr (e, p) ↦ rw (same ∙ p, p, catch) (k e (m w).1 (m v).1 q')
    ]
  ]

  undo-Agrees :
      {A : Type 0} (s s' : S) (r t : Result A × World S)
      → s ≡ s'
      → (r.0 ≡ err db_error) ⊎ ((r.0 ≡ t.0) × IsQuiet r.1 t.1)
      → ((undo s r).0 ≡ err db_error)
        ⊎ (((undo s r).0 ≡ (undo s' t).0) × IsQuiet (undo s r).1 (undo s' t).1)
  unfolding undo
  undo-Agrees s s' (ok a, w) (ok b, v) p h = h
  undo-Agrees s s' (err e, w) (err e', v) p (inl h) = inl h
  undo-Agrees s s' (err e, w) (err e', v) p (inr (h, q)) =
      inr (h, record { same_store = p; same_now = q.same_now; no_failure = q.no_failure })
  undo-Agrees s s' (ok a, w) (err e, v) p (inl h) = absurd (ground arith)
  undo-Agrees s s' (ok a, w) (err e, v) p (inr (h, q)) = absurd (ground arith)
  undo-Agrees s s' (err e, w) (ok a, v) p (inl h) = inl h
  undo-Agrees s s' (err e, w) (ok a, v) p (inr (h, q)) = absurd (ground arith)

  pub if-Agrees :
      {A : Type 0} (b : Bool) (m n : M S A) → Agrees m → Agrees n → Agrees (if b then m else n)
  if-Agrees true m n h k = h
  if-Agrees false m n h k = k

  pub execute-Agrees : (f : S → S) → Agrees (execute f)
  unfolding execute
  execute-Agrees f = statement-Agrees (λ s. (tt, f s))

  pub query-Agrees : {A : Type 0} (f : S → A) → Agrees (query f)
  unfolding query
  query-Agrees f = statement-Agrees (λ s. (f s, s))

  pub transaction-Agrees : {A : Type 0} (m : M S A) → Agrees m → Agrees (transaction m)
  unfolding transaction
  transaction-Agrees {A} m h w v q = undo-Agrees w.store v.store _ _ q.same_store (
      >>=-Agrees (execute (λ s. s)) (λ _. m >>= λ a. execute (λ s. s) >> pure a)
        (execute-Agrees (λ s. s))
        (λ _.
          >>=-Agrees m (λ a. execute (λ s. s) >> pure a) h
            (λ a.
              >>=-Agrees (execute (λ s. s)) (λ _. pure a) (execute-Agrees (λ s. s))
                (λ _. pure-Agrees a)))
        w v q)
