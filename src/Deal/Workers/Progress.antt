-- ===== src/Deal/Workers/Progress.antt =====
-- A tick of the deal workers leaves no task due.
use estuary.Prelude.{
  ℕ, suc, ◌≡◌, refl, sym, subst, List, [], ◌∷◌, Bool, true, false, Bool-cases, inl, inr, arith, All,
  Any, keep, map, ap, ◌∙◌,
}
use estuary.Prelude.Int.{ℤ}
use estuary.Db.{Result, M, World, ok, err, query, execute, statement, ◌>>=◌, now, catch}
use estuary.Db.Run.{bind_ok, query-quiet}
use estuary.Db.Table.{update, count}
use estuary.Model.{DealQueue, Store}
use estuary.Deal.Queue.{
  deal_check_complete, deal_check_failed, made_one_deal, deal_complete, deal_failed, of_content,
  checked, check_postponed, completed, postponed, on_queue, logged,
}
use estuary.Deal.Workers.{
  settle, check_tasks, deal_check_tick, check_due, deal_tasks, deal_tick, deal_due,
}

-- The rows that pass the test belong to the tasks.
abbrev pub Covers : (DealQueue → Bool) → List ℕ → List DealQueue → Type 0
Covers due ids rows = All (λ r. due r ≡ true → Any (λ id. id ≡ r.cont_id) ids) rows

-- A step that makes no row due, in a world where no statement fails.
pub record Spares (due : DealQueue → Bool) {A : Type 0} (m : M Store A) : Type 0 where
  pub no_new_task :
      (w : World Store) (ids : List ℕ)
      → Covers due ids w.store.deal_queue
      → Covers due ids (m w).1.store.deal_queue
  pub same_now : (w : World Store) → (m w).1.now ≡ w.now
  pub same_failures : (w : World Store) → (m w).1.fails ≡ w.fails

abbrev ids : List DealQueue → List ℕ
ids = map (λ r. r.cont_id)

-- An update of the rows of the first task that makes them not due.
settled :
    (due : DealQueue → Bool) (f : DealQueue → DealQueue) (id : ℕ) (rest : List ℕ)
    (rows : List DealQueue)
    → ((r : DealQueue) → due (f r) ≡ false)
    → Covers due (id ∷ rest) rows
    → Covers due rest (update (of_content id) f rows)
settled due f id rest [] k h = tt
settled due f id rest (r ∷ rows) k h = elim (Bool-cases (of_content id r)) [
  | inl e ↦ rw e ((λ d. absurd (ground (arith, k r, d))), settled due f id rest rows k h.1)
  | inr e ↦ rw e (
    (λ d. elim (h.0 d) [ inl p ↦ absurd (ground (arith, e, p)) | inr a ↦ a ]),
    settled due f id rest rows k h.1,
  )
]

none_due :
    (due : DealQueue → Bool) (rows : List DealQueue) → Covers due [] rows → count due rows ≡ 0
none_due due [] h = refl
none_due due (r ∷ rows) h = elim (Bool-cases (due r)) [
  | inl e ↦ absurd (h.0 e)
  | inr e ↦ rw e (none_due due rows h.1)
]

-- The rows that a query finds are covered by it.
covered :
    (due : DealQueue → Bool) (all rows : List DealQueue)
    → ((r : DealQueue)
        → due r ≡ true
        → Any (λ y. y ≡ r) rows
        → Any (λ id. id ≡ r.cont_id) (ids all))
    → Covers due (ids all) rows
covered due all [] k = tt
covered due all (r ∷ rows) k =
    ((λ d. k r d (inl refl)), covered due all rows (λ x d a. k x d (inr a)))

found :
    (due : DealQueue → Bool) (rows : List DealQueue) (r : DealQueue)
    → due r ≡ true
    → Any (λ y. y ≡ r) rows
    → Any (λ id. id ≡ r.cont_id) (ids (keep due rows))
found due (x ∷ rows) r d (inl e) =
    rw (subst (λ (y : DealQueue). due y ≡ true) (sym e) d)
      (inl (ap (λ (y : DealQueue). y.cont_id) e))
found due (x ∷ rows) r d (inr a) = elim (Bool-cases (due x)) [
  | inl e ↦ rw e (inr (found due rows r d a))
  | inr e ↦ rw e (found due rows r d a)
]
found due [] r d a = absurd a

-- What holds at the time `t`, before the tasks `rest` are run in a world where no statement fails.
record Tidy (due : DealQueue → Bool) (t : ℕ) (rest : List ℕ) (w : World Store) : Type 0 where
  no_failure : (n : ℕ) → w.fails n ≡ false
  time : w.now ≡ t
  covers : Covers due rest w.store.deal_queue

-- How a step ends: without an error, before the tasks `rest`.
abbrev Leaves : (DealQueue → Bool) → ℕ → List ℕ → Result (Unit {0}) × World Store → Type 0
Leaves due t rest r = (r.0 ≡ ok tt) × Tidy due t rest r.1

logged-execute :
    (f : ℕ → Store → Store) (w : World Store)
    → w.fails w.tick ≡ false
    → logged (now >>= λ u. execute (f u)) w
      ≡ (ok tt, record w { store = f w.now w.store; tick = suc w.tick })
unfolding catch execute statement ◌>>=◌
logged-execute f w h = ground (arith, h)

-- One logged update of a task's row, which makes it not due.
settle_row :
    (due : DealQueue → Bool) (f : ℕ → DealQueue → DealQueue) (t id : ℕ) (rest : List ℕ)
    (w : World Store)
    → ((r : DealQueue) → due (f t r) ≡ false)
    → Tidy due t (id ∷ rest) w
    → Leaves due t rest (logged (now >>= λ u. execute (on_queue f id u)) w)
settle_row due f t id rest w k h =
    subst (Leaves due t rest) (sym (logged-execute (on_queue f id) w (h.no_failure w.tick))) (
      refl,
      record {
        no_failure = h.no_failure;
        time = h.time;
        covers =
            settled due (f w.now) id rest w.store.deal_queue
              (subst (λ u. (r : DealQueue) → due (f u r) ≡ false) (sym h.time) k) h.covers;
      },
    )

spared :
    {A : Type 0} (due : DealQueue → Bool) (t : ℕ) (rest : List ℕ) (m : M Store A) (w : World Store)
    → Spares due m
    → Tidy due t rest w
    → Tidy due t rest (m w).1
spared due t rest m w s h = record {
  no_failure = λ n. rw (s.same_failures w) (h.no_failure n);
  time = s.same_now w ∙ h.time;
  covers = s.no_new_task w rest h.covers;
}

settle-Leaves :
    {A : Type 0} (due : DealQueue → Bool) (t id : ℕ) (rest : List ℕ) (m : M Store A)
    (done : A → M Store (Unit {0})) (failed : M Store (Unit {0})) (w : World Store)
    → Spares due m
    → ((a : A) (v : World Store) → Tidy due t (id ∷ rest) v → Leaves due t rest (done a v))
    → ((v : World Store) → Tidy due t (id ∷ rest) v → Leaves due t rest (failed v))
    → Tidy due t (id ∷ rest) w
    → Leaves due t rest (settle m done failed w)
unfolding settle
settle-Leaves {A} due t id rest m done failed w s k l h =
    let h' = spared due t (id ∷ rest) m w s h in
    elim (m w).0
      as (λ r. Leaves due t rest (elim r as (λ _. Result (Unit {0}) × World Store) [
        | ok a ↦ done a (m w).1
        | err e ↦ failed (m w).1
      ])) [ ok a ↦ k a (m w).1 h' | err e ↦ l (m w).1 h' ]

-- A step, and the steps after it.
then-Leaves :
    (due : DealQueue → Bool) (t : ℕ) (rest : List ℕ) (m k : M Store (Unit {0})) (w : World Store)
    → Leaves due t rest (m w)
    → ((v : World Store) → Tidy due t rest v → Leaves due t [] (k v))
    → Leaves due t [] ((m >>= λ _. k) w)
unfolding ◌>>=◌
then-Leaves due t rest m k w h l = rw (h.0, ◌>>=◌) (l (m w).1 h.1)

-- A tick that queries its tasks and runs them.
tick_settles :
    (due : DealQueue → Bool) (run : List DealQueue → M Store (Unit {0})) (w : World Store)
    → ((n : ℕ) → w.fails n ≡ false)
    → ((tasks : List DealQueue) (v : World Store)
        → Tidy due w.now (ids tasks) v
        → Leaves due w.now [] (run tasks v))
    → let r = (query (λ s. keep due s.deal_queue) >>= run) w in
      (r.0 ≡ ok tt) × (count due r.1.store.deal_queue ≡ 0)
tick_settles due run w h k =
    let rows = w.store.deal_queue in
    let tasks = keep due rows in
    let l =
      k tasks (record w { tick = suc w.tick })
        (record {
          no_failure = h;
          time = refl;
          covers = covered due tasks rows (found due rows);
        }) in
    subst
      (λ (r : Result (Unit {0}) × World Store).
        (r.0 ≡ ok tt) × (count due r.1.store.deal_queue ≡ 0))
      (sym (
        bind_ok (query (λ s. keep due s.deal_queue)) run w (keep due rows)
          (record w { tick = suc w.tick }) (query-quiet (λ s. keep due s.deal_queue) w (h w.tick))))
      (l.0, none_due due _ l.1.covers)

module _ (check : ℕ → M Store ℤ) (spares : (t id : ℕ) → Spares (check_due t) (check id)) where
  check_tasks-Leaves :
      (t : ℕ) (tasks : List DealQueue) (w : World Store)
      → Tidy (check_due t) t (ids tasks) w
      → Leaves (check_due t) t [] (check_tasks check tasks w)
  unfolding check_tasks deal_check_complete deal_check_failed
  check_tasks-Leaves t [] w h = (refl, h)
  check_tasks-Leaves t (x ∷ tasks) w h =
      then-Leaves (check_due t) t (ids tasks) _ (check_tasks check tasks) w
        (settle-Leaves (check_due t) t x.cont_id (ids tasks) (check x.cont_id)
          (deal_check_complete x.cont_id) (deal_check_failed x.cont_id) w (spares t x.cont_id)
          (λ n v.
            settle_row (check_due t) (checked n) t x.cont_id (ids tasks) v (λ r. ground arith))
          (λ v.
            settle_row (check_due t) check_postponed t x.cont_id (ids tasks) v (λ r. ground arith))
          h)
        (λ v. check_tasks-Leaves t tasks v)

  -- A tick of the deal check worker, where no statement fails, runs through all its tasks whatever the
  -- checks answer, and no row is due for a check after it. The checks themselves must make no row due.
  pub deal_check_tick-Settles :
      (w : World Store)
      → ((n : ℕ) → w.fails n ≡ false)
      → let r = deal_check_tick check w in
        (r.0 ≡ ok tt) × (count (check_due w.now) r.1.store.deal_queue ≡ 0)
  unfolding deal_check_tick ◌>>=◌
  deal_check_tick-Settles w h =
      tick_settles (check_due w.now) (check_tasks check) w h (check_tasks-Leaves w.now)

module _ (make : ℕ → ℤ → M Store (Unit {0}))
    (spares : (t id : ℕ) (n : ℤ) → Spares (deal_due t) (make id n)) where
  deal_tasks-Leaves :
      (t : ℕ) (tasks : List DealQueue) (w : World Store)
      → Tidy (deal_due t) t (ids tasks) w
      → Leaves (deal_due t) t [] (deal_tasks make tasks w)
  unfolding deal_tasks deal_complete deal_failed
  deal_tasks-Leaves t [] w h = (refl, h)
  deal_tasks-Leaves t (x ∷ tasks) w h =
      then-Leaves (deal_due t) t (ids tasks) _ (deal_tasks make tasks) w
        (settle-Leaves (deal_due t) t x.cont_id (ids tasks) (make x.cont_id x.deal_count)
          (λ _. deal_complete x.cont_id) (deal_failed x.cont_id) w (spares t x.cont_id x.deal_count)
          (λ _ v. settle_row (deal_due t) completed t x.cont_id (ids tasks) v (λ r. ground arith))
          (λ v. settle_row (deal_due t) postponed t x.cont_id (ids tasks) v (λ r. ground arith)) h)
        (λ v. deal_tasks-Leaves t tasks v)

  -- A tick of the deal worker, where no statement fails, runs through all its tasks whichever of them
  -- fail, and no row is due for deals after it. Making deals itself must make no row due.
  pub deal_tick-Settles :
      (w : World Store)
      → ((n : ℕ) → w.fails n ≡ false)
      → let r = deal_tick make w in
        (r.0 ≡ ok tt) × (count (deal_due w.now) r.1.store.deal_queue ≡ 0)
  unfolding deal_tick ◌>>=◌
  deal_tick-Settles w h =
      tick_settles (deal_due w.now) (deal_tasks make) w h (deal_tasks-Leaves w.now)

-- An update that keeps each row's content and makes no row due.
update-Covers :
    (due p : DealQueue → Bool) (f : DealQueue → DealQueue) (tasks : List ℕ) (rows : List DealQueue)
    → ((r : DealQueue) → due (f r) ≡ due r)
    → ((r : DealQueue) → (f r).cont_id ≡ r.cont_id)
    → Covers due tasks rows
    → Covers due tasks (update p f rows)
update-Covers due p f tasks [] k l h = tt
update-Covers due p f tasks (r ∷ rows) k l h = elim (Bool-cases (p r)) [
  | inl e ↦ rw e (
    (λ d. subst (λ id. Any (λ i. i ≡ id) tasks) (sym (l r)) (h.0 (sym (k r) ∙ d))),
    update-Covers due p f tasks rows k l h.1,
  )
  | inr e ↦ rw e (h.0, update-Covers due p f tasks rows k l h.1)
]

-- Counting a deal that was made makes no row due.
pub made_one_deal-Spares : (t id : ℕ) → Spares (deal_due t) (made_one_deal id)
unfolding made_one_deal execute statement
made_one_deal-Spares t id = record {
  no_new_task = λ w tasks h. elim (Bool-cases (w.fails w.tick)) [
    | inl e ↦ rw e h
    | inr e ↦ rw e (
        update-Covers (deal_due t) (of_content id) _ tasks w.store.deal_queue (λ r. refl)
          (λ r. refl) h)
  ];
  same_now = λ w. elim (Bool-cases (w.fails w.tick)) [ inl e ↦ rw e refl | inr e ↦ rw e refl ];
  same_failures = λ w. elim (Bool-cases (w.fails w.tick)) [ inl e ↦ rw e refl | inr e ↦ rw e refl ];
}
