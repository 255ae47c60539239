-- ===== src/Contents/Commp/Attempts.antt =====
-- The attempts of a piece commitment that fails, where contents share a CID.
use estuary.Prelude.{
  ℕ, suc, ◌+◌, ◌≤◌, ◌≡◌, refl, sym, subst, ◌∙◌, ◌==◌, false, Bool-cases, inl, inr, List, [], ◌∷◌,
  All, All-imp, none, some, arith, keep, take, String,
}
use estuary.Db.{World, Result, ok, err, failure, quiet, query, execute, statement, catch, ◌>>=◌}
use estuary.Db.Run.{bind_ok, query-quiet}
use estuary.Db.Table.{first, update}
use estuary.Model.{Content, DealQueue, Store, local_node}
use estuary.Staging.Queue.{hour}
use estuary.Contents.Commp.{
  Commitments, of_cid, on_cid, compute_failed, get_piece_comm_record, get_piece_commitment,
  run_piece_comm_compute, run_commp_for_content, commp_task, commp_tasks, commp_due, commp_tick,
}

-- A row after `n` failed attempts, the last at the time `t`.
abbrev pub failed_times : ℕ → ℕ → DealQueue → DealQueue
failed_times n t r = record r {
  commp_attempted = n + r.commp_attempted;
  commp_next_attempt_at = t + hour;
}

-- A CID whose commitment cannot be computed: no record of it, its content here, and the library fails.
abbrev pub Failing : Commitments → ℕ → String → Store → Type 0
Failing lib cid e s =
    (first (λ p. p.data_cid == cid) s.piece_comm_records ≡ none)
    × ((c : Content) × ((first (λ x. x.cid == cid) s.contents ≡ some c)
          × ((c.location ≡ local_node) × (lib.generate cid ≡ err (failure e)))))

-- Every row with the CID has been attempted at least `n` times.
abbrev AtLeast : ℕ → ℕ → List DealQueue → Type 0
AtLeast cid n = All (λ (r : DealQueue). r.cont_cid ≡ cid → n ≤ r.commp_attempted)

abbrev count_tasks : List DealQueue → ℕ
count_tasks [] = 0
count_tasks (r ∷ tasks) = suc (count_tasks tasks)

one_more :
    (cid t n : ℕ) (rows : List DealQueue)
    → AtLeast cid n rows
    → AtLeast cid (suc n) (update (of_cid cid) (failed_times 1 t) rows)
one_more cid t n [] h = tt
one_more cid t n (r ∷ rows) h = elim (Bool-cases (of_cid cid r)) [
  | inl e ↦ rw e ((λ q. ground (arith, h.0, q)), one_more cid t n rows h.1)
  | inr e ↦ rw e ((λ q. absurd (ground (arith, e, q))), one_more cid t n rows h.1)
]

any_row : (cid : ℕ) (rows : List DealQueue) → AtLeast cid 0 rows
any_row cid [] = tt
any_row cid (r ∷ rows) = ((λ _. omega arith), any_row cid rows)

exhausted : (t : ℕ) (r : DealQueue) → 3 ≤ r.commp_attempted → commp_due t r ≡ false
exhausted t r h = elim (Bool-cases r.commp_done) [
  | inl d ↦ ground (arith, d, h)
  | inr d ↦ ground (arith, d, h)
]

module _ (lib : Commitments) (cid : ℕ) (e : String) (now : ℕ) where
  no_record :
      (s : Store) (t : ℕ)
      → first (λ p. p.data_cid == cid) s.piece_comm_records ≡ none
      → commp_task lib cid (quiet s t now) ≡ run_commp_for_content lib cid (quiet s (suc t) now)
  unfolding commp_task get_piece_commitment get_piece_comm_record query statement ◌>>=◌
  no_record s t h = ground (arith, h)

  failing :
      (s : Store) (t : ℕ) (c : Content)
      → first (λ x. x.cid == cid) s.contents ≡ some c
      → c.location ≡ local_node
      → lib.generate cid ≡ err (failure e)
      → run_commp_for_content lib cid (quiet s t now)
        ≡ (ok tt, quiet (on_cid cid (failed_times 1 now) s) (suc (suc t)) now)
  unfolding run_commp_for_content run_piece_comm_compute compute_failed query execute statement
      catch ◌>>=◌
  failing s t c h l g = ground (arith, h, l, g)

  task-failed :
      (s : Store) (t : ℕ)
      → Failing lib cid e s
      → (u : ℕ) × (commp_task lib cid (quiet s t now)
          ≡ (ok tt, quiet (on_cid cid (failed_times 1 now) s) u now))
  task-failed s t (n, (c, (h, (l, g)))) =
      (suc (suc (suc t)), no_record s t n ∙ failing s (suc t) c h l g)

  -- A failed attempt of one of the contents counts for every row with the CID.
  pub tasks-failed :
      (tasks : List DealQueue) (s : Store) (t : ℕ)
      → All (λ (r : DealQueue). r.cont_cid ≡ cid) tasks
      → Failing lib cid e s
      → (u : ℕ) × ((s' : Store) × ((commp_tasks lib tasks (quiet s t now) ≡ (ok tt, quiet s' u now))
            × ((n : ℕ)
                → AtLeast cid n s.deal_queue
                → AtLeast cid (count_tasks tasks + n) s'.deal_queue)))
  unfolding commp_tasks
  tasks-failed [] s t h k =
      (t, (s, (refl, λ n a. subst (λ i. AtLeast cid i s.deal_queue) (ground arith) a)))
  tasks-failed (r ∷ tasks) s t h k =
      let (u, p) = task-failed s t k in
      let s1 = on_cid cid (failed_times 1 now) s in
      let (v, (s', (q, b))) = tasks-failed tasks s1 u h.1 k in
      (
        v,
        (
          s',
          (
            bind_ok (commp_task lib r.cont_cid) (λ _. commp_tasks lib tasks) (quiet s t now) tt
                  (quiet s1 u now)
                  (subst (λ i. commp_task lib i (quiet s t now) ≡ (ok tt, quiet s1 u now)) (sym h.0)
                    p)
                ∙ q,
            λ n a.
                subst (λ i. AtLeast cid i s'.deal_queue) (ground arith)
                  (b (suc n) (one_more cid now n s.deal_queue a)),
          ),
        ),
      )

  -- The commitment of a CID fails where the contents with it are, and the first ten due rows of the deal
  -- queue are at least three, all with this CID. Where no statement fails, a single tick of the worker
  -- uses up their attempts: no row with the CID is due at any later time.
  pub attempts_exhausted :
      (s : Store) (t : ℕ)
      → All (λ (r : DealQueue). r.cont_cid ≡ cid) (take 10 (keep (commp_due now) s.deal_queue))
      → 3 ≤ count_tasks (take 10 (keep (commp_due now) s.deal_queue))
      → Failing lib cid e s
      → ((commp_tick lib (quiet s t now)).0 ≡ ok tt)
        × ((later : ℕ)
            → All
                (λ (r : DealQueue). r.cont_cid ≡ cid → commp_due later r ≡ false)
                (commp_tick lib (quiet s t now)).1.store.deal_queue)
  unfolding commp_tick ◌>>=◌
  attempts_exhausted s t h l k =
      let due = λ (s : Store). take 10 (keep (commp_due now) s.deal_queue) in
      let (u, (s', (q, b))) = tasks-failed (due s) s (suc t) h k in
      subst
        (λ (x : Result (Unit {0}) × World Store).
          (x.0 ≡ ok tt)
          × ((later : ℕ)
              → All (λ (r : DealQueue). r.cont_cid ≡ cid → commp_due later r ≡ false)
                  x.1.store.deal_queue))
        (sym (
          bind_ok (query due) (commp_tasks lib) (quiet s t now) (due s) (quiet s (suc t) now)
            (query-quiet due (quiet s t now) refl)
          ∙ q))
        (
          refl,
          λ later.
              All-imp
                (λ (r : DealQueue).
                  r.cont_cid ≡ cid → (count_tasks (due s) + 0) ≤ r.commp_attempted)
                (λ (r : DealQueue). r.cont_cid ≡ cid → commp_due later r ≡ false) s'.deal_queue
                (λ r f p. exhausted later r (omega (arith, l, f p)))
                (b 0 (any_row cid s.deal_queue)),
        )
