-- ===== src/Db/Keeps.antt =====
-- What a handler keeps of the store, whichever of its statements fail.
use estuary.Prelude.{suc, sym, subst, Bool, true, false, Bool-cases, inl, inr, if◌then◌else◌}
use estuary.Db.{
  Result, ok, err, World, M, pure, ◌>>=◌, ◌>>◌, statement, query, execute, transaction, undo,
  db_error,
}
use estuary.Db.Run.{bind_ok, bind_err, query-quiet, query_failed}
use estuary.Db.Atomic.{Result-cases}

module _ {S : Type 0} (P : S → Type 0) where
  abbrev pub Keeps : {A : Type 0} → M S A → Type 0
  Keeps m = (w : World S) → P w.store → P (m w).1.store

  pub pure-Keeps : {A : Type 0} (a : A) → Keeps (pure a)
  pure-Keeps a w h = h

  pub statement-Keeps :
      {A : Type 0} (f : S → A × S) → ((s : S) → P s → P (f s).1) → Keeps (statement f)
  unfolding statement
  statement-Keeps f k w h = elim (Bool-cases (w.fails w.tick)) [
    | inl e ↦ rw e h
    | inr e ↦ rw e (k w.store h)
  ]

  pub execute-Keeps : (f : S → S) → ((s : S) → P s → P (f s)) → Keeps (execute f)
  unfolding execute
  execute-Keeps f k = statement-Keeps (λ s. (tt, f s)) k

  pub query-Keeps : {A : Type 0} (f : S → A) → Keeps (query f)
  unfolding query
  query-Keeps f = statement-Keeps (λ s. (f s, s)) (λ s h. h)

  pub >>=-Keeps :
      {A B : Type 0} (m : M S A) (f : A → M S B)
      → Keeps m
      → ((a : A) → Keeps (f a))
      → Keeps (m >>= f)
  unfolding ◌>>=◌
  >>=-Keeps m f h k w p = elim (Result-cases (m w).0) [
    | inl (a, e) ↦ rw (e, ◌>>=◌) (k a (m w).1 (h w p))
    | inr (e, q) ↦ rw (q, ◌>>=◌) (h w p)
  ]

  -- A query, and steps that may use what was found in a store with the invariant.
  pub query_bind-Keeps :
      {A B : Type 0} (f : S → A) (k : A → M S B)
      → ((s : S) → P s → Keeps (k (f s)))
      → Keeps (query f >>= k)
  query_bind-Keeps f k h w p =
      let v : World S = record w { tick = suc w.tick } in
      elim (Bool-cases (w.fails w.tick)) [
        | inl e ↦
            subst (λ r. P r.1.store) (sym (bind_err (query f) k w db_error v (query_failed f w e)))
              p
        | inr e ↦
            subst (λ r. P r.1.store) (sym (bind_ok (query f) k w (f w.store) v (query-quiet f w e)))
              (h w.store p v p)
      ]

  pub if-Keeps :
      {A : Type 0} (b : Bool) (m n : M S A) → Keeps m → Keeps n → Keeps (if b then m else n)
  if-Keeps true m n h k = h
  if-Keeps false m n h k = k

  undo-Keeps :
      {A : Type 0} (s : S) (r : Result A × World S) → P s → P r.1.store → P (undo s r).1.store
  unfolding undo
  undo-Keeps s (ok a, w) h k = k
  undo-Keeps s (err e, w) h k = h

  pub transaction-Keeps : {A : Type 0} (m : M S A) → Keeps m → Keeps (transaction m)
  unfolding transaction
  transaction-Keeps m h w p = undo-Keeps w.store _ p (
      >>=-Keeps (execute (λ s. s)) (λ _. m >>= λ a. execute (λ s. s) >> pure a)
        (execute-Keeps (λ s. s) (λ s q. q))
        (λ _.
          >>=-Keeps m (λ a. execute (λ s. s) >> pure a) h
            (λ a.
              >>=-Keeps (execute (λ s. s)) (λ _. pure a) (execute-Keeps (λ s. s) (λ s q. q))
                (λ _. pure-Keeps a)))
        w p)
