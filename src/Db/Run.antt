-- ===== src/Db/Run.antt =====
-- Running a handler step by step, where its statements do not fail.
use estuary.Prelude.{ℕ, suc, ◌≡◌, refl, sym, subst, ap, true, false}
use estuary.Db.{
  Error, Result, ok, err, World, M, pure, ◌>>=◌, ◌>>◌, execute, transaction, undo, quiet, query,
  statement, catch, db_error,
}

module _ {S : Type 0} where
  pub bind_ok :
      {A B : Type 0} (m : M S A) (k : A → M S B) (w : World S) (a : A) (v : World S)
      → m w ≡ (ok a, v)
      → (m >>= k) w ≡ k a v
  unfolding ◌>>=◌
  bind_ok {A} {B} m k w a v p =
      subst
        (λ (r : Result A × World S).
          (elim r.0 as (λ _. Result B × World S) [ ok b ↦ k b r.1 | err e ↦ (err e, r.1) ]) ≡ k a v)
        (sym p) refl

  -- Two steps that end in the same way, before the same rest.
  pub bind_same :
      {A B : Type 0} (m n : M S A) (k : A → M S B) (w v : World S)
      → m w ≡ n v
      → (m >>= k) w ≡ (n >>= k) v
  unfolding ◌>>=◌
  bind_same {A} {B} m n k w v p =
      ap
        (λ (r : Result A × World S). (elim r.0 as (λ _. Result B × World S) [
          | ok b ↦ k b r.1
          | err e ↦ (err e, r.1)
        ]))
        p

  pub catch_ok :
      {A : Type 0} (m : M S A) (h : Error → M S A) (w : World S) (a : A) (v : World S)
      → m w ≡ (ok a, v)
      → catch m h w ≡ (ok a, v)
  unfolding catch
  catch_ok {A} m h w a v p =
      subst
        (λ (r : Result A × World S).
          (elim r.0 as (λ _. Result A × World S) [ ok b ↦ (ok b, r.1) | err e ↦ h e r.1 ])
          ≡ (ok a, v))
        (sym p) refl

  pub query-quiet :
      {A : Type 0} (f : S → A) (w : World S)
      → w.fails w.tick ≡ false
      → query f w ≡ (ok (f w.store), record w { tick = suc w.tick })
  unfolding query statement
  query-quiet f w h = rw h refl

  pub bind_err :
      {A B : Type 0} (m : M S A) (k : A → M S B) (w : World S) (e : Error) (v : World S)
      → m w ≡ (err e, v)
      → (m >>= k) w ≡ (err e, v)
  unfolding ◌>>=◌
  bind_err {A} {B} m k w e v p =
      subst
        (λ (r : Result A × World S).
          (elim r.0 as (λ _. Result B × World S) [ ok b ↦ k b r.1 | err d ↦ (err d, r.1) ])
          ≡ (err e, v))
        (sym p) refl

  pub query_failed :
      {A : Type 0} (f : S → A) (w : World S)
      → w.fails w.tick ≡ true
      → query f w ≡ (err db_error, record w { tick = suc w.tick })
  unfolding query statement
  query_failed f w h = rw h refl

  -- A handler whose error is only logged ends well, in the same world.
  pub logged_lem :
      (m : M S (Unit {0})) (w : World S)
      → ((catch m (λ e. pure tt) w).0 ≡ ok tt) × ((catch m (λ e. pure tt) w).1 ≡ (m w).1)
  unfolding catch
  logged_lem m w =
      elim (m w).0
        as (λ (q : Result (Unit {0})).
          let r : Result (Unit {0}) × World S = (elim q as (λ _. Result (Unit {0}) × World S) [
            | ok a ↦ (ok a, (m w).1)
            | err e ↦ (ok tt, (m w).1)
          ]) in
          (r.0 ≡ ok tt) × (r.1 ≡ (m w).1)) [ ok a ↦ (refl, refl) | err e ↦ (refl, refl) ]

  pub statement-quiet :
      {A : Type 0} (f : S → A × S) (s : S) (t n : ℕ)
      → statement f (quiet s t n) ≡ (ok (f s).0, quiet (f s).1 (suc t) n)
  unfolding statement
  statement-quiet f s t n = refl

  pub execute-quiet :
      (f : S → S) (s : S) (t n : ℕ) → execute f (quiet s t n) ≡ (ok tt, quiet (f s) (suc t) n)
  unfolding execute statement
  execute-quiet f s t n = refl

  -- A transaction whose body ends well.
  pub transaction-quiet :
      {A : Type 0} (m : M S A) (s s' : S) (t t' n : ℕ) (a : A)
      → m (quiet s (suc t) n) ≡ (ok a, quiet s' t' n)
      → transaction m (quiet s t n) ≡ (ok a, quiet s' (suc t') n)
  unfolding transaction execute statement ◌>>=◌ undo
  transaction-quiet {A} m s s' t t' n a p =
      ap (undo s)
        (bind_ok m (λ b. execute (λ x. x) >> pure b) (quiet s (suc t) n) a (quiet s' t' n) p)
