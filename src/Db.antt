-- ===== src/Db.antt =====
-- The database as the code uses it through gorm: each statement runs on the whole store or fails as
-- a whole, and `Transaction` undoes everything when its body, its start or its commit fails. Which
-- statements fail is a parameter of the world, `fails n` for the n-th statement, so a theorem about
-- a world is one about every pattern of failures. `now` is the time at which the handler runs.
pub mod Atomic
pub mod Table
pub mod Agree
pub mod Run
pub mod Keeps
pub mod Gives
pub mod Reads
pub mod Rows
use estuary.Prelude.{ℕ, suc, Bool, true, false, if◌then◌else◌, Option, none, some, String}

pub data Error : Type 0 where
  db_error : Error
  record_not_found : Error
  zone_could_not_be_claimed : Error
  wait_for_remote_aggregate : Error
  failure : String → Error

pub data Result (A : Type 0) : Type 0 where
  ok : A → Result A
  err : Error → Result A

pub record World (S : Type 0) : Type 0 where
  pub store : S
  pub tick : ℕ
  pub fails : ℕ → Bool
  pub now : ℕ

abbrev pub M : Type 0 → Type 0 → Type 0
M S A = World S → Result A × World S

module _ {S : Type 0} where
  abbrev pub pure : {A : Type 0} → A → M S A
  pure a w = (ok a, w)

  abbrev pub throw : {A : Type 0} → Error → M S A
  throw e w = (err e, w)

  infixl 5 ◌>>=◌ ◌>>◌
  unfoldable pub ◌>>=◌ : {A B : Type 0} → M S A → (A → M S B) → M S B
  ◌>>=◌ m f w = let r = m w in elim r.0 [ ok a ↦ f a r.1 | err e ↦ (err e, r.1) ]

  abbrev pub ◌>>◌ : {B : Type 0} → M S (Unit {0}) → M S B → M S B
  m >> k = m >>= λ _. k

  -- One statement, which reads and changes the store.
  unfoldable pub statement : {A : Type 0} → (S → A × S) → M S A
  statement f w =
      if w.fails w.tick
      then (err db_error, record w { tick = suc w.tick })
      else (ok (f w.store).0, record w { store = (f w.store).1; tick = suc w.tick })

  unfoldable pub query : {A : Type 0} → (S → A) → M S A
  unfolding statement
  query f = statement (λ s. (f s, s))

  unfoldable pub execute : (S → S) → M S (Unit {0})
  unfolding statement
  execute f = statement (λ s. (tt, f s))

  abbrev pub now : M S ℕ
  now w = (ok w.now, w)

  -- `First`: an error where there is no row.
  abbrev pub or_not_found : {A : Type 0} → Option A → M S A
  or_not_found none = throw record_not_found
  or_not_found (some a) = pure a

  -- Go's `if err := m; err != nil { ... }` on the error `e` alone.
  unfoldable pub catch : {A : Type 0} → M S A → (Error → M S A) → M S A
  catch m h w = let r = m w in elim r.0 [ ok a ↦ (ok a, r.1) | err e ↦ h e r.1 ]

  unfoldable pub undo : {A : Type 0} → S → Result A × World S → Result A × World S
  undo s (ok a, w) = (ok a, w)
  undo s (err e, w) = (err e, record w { store = s })

  -- `db.Transaction(body)`
  unfoldable pub transaction : {A : Type 0} → M S A → M S A
  unfolding undo ◌>>=◌ execute
  transaction m w = undo w.store ((execute (λ s. s) >> (m >>= λ a. execute (λ s. s) >> pure a)) w)

-- A world in which no statement fails.
abbrev pub quiet : {S : Type 0} → S → ℕ → ℕ → World S
quiet s t n = record { store = s; tick = t; fails = λ _. false; now = n }
