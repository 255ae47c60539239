-- ===== src/Split/Queue/Completion.antt =====
-- The end of a split: all of it is written, or nothing.
use estuary.Prelude.Int.{pos}
use estuary.Db.Rows.{update-map, delete-keep}
use estuary.Prelude.{
  ℕ, ◌==◌, if◌then◌else◌, not, map, keep, true, false, sym, subst, ◌≡◌, refl, ◌∙◌, inl, inr, ◌⊎◌,
  arith, ap,
}
use estuary.Db.{World, ok, db_error, quiet, execute, transaction, statement}
use estuary.Db.Atomic.{transaction-Atomic}
use estuary.Db.Agree.{Agrees, execute-Agrees, >>=-Agrees, transaction-Agrees}
use estuary.Db.Run.{logged_lem}
use estuary.Model.{Store}
use estuary.Contents.Gc.{delete_refs}
use estuary.Split.Queue.{split_complete, finish_split, mark_split, leave_queue, split_root}

-- The tables after a split: the content is marked, inactive, not being pinned and of size 0, its
-- references and its row of the queue are gone, and all else is as it was.
pub record Split (cont_id : ℕ) (s s' : Store) : Type 0 where
  pub contents :
      s'.contents
      ≡ map
          (λ c.
            if c.id == cont_id
            then record c { dag_split = true; active = false; size = pos 0; pinning = false }
            else c)
          s.contents
  pub obj_refs : s'.obj_refs ≡ keep (λ r. not (r.content == cont_id)) s.obj_refs
  pub split_queue : s'.split_queue ≡ keep (λ r. not (r.cont_id == cont_id)) s.split_queue
  pub others :
      s' ≡ record s { contents = s'.contents; obj_refs = s'.obj_refs; split_queue = s'.split_queue }

abbrev split : ℕ → Store → Store
split cont_id s = leave_queue cont_id (delete_refs cont_id (mark_split cont_id s))

split-Split : (cont_id : ℕ) (s : Store) → Split cont_id s (split cont_id s)
split-Split cont_id s = record {
  contents = update-map (λ c. c.id == cont_id) split_root s.contents;
  obj_refs = delete-keep (λ r. r.content == cont_id) s.obj_refs;
  split_queue = delete-keep (λ r. r.cont_id == cont_id) s.split_queue;
  others = refl;
}

finish_split-Agrees : (cont_id : ℕ) → Agrees (finish_split cont_id)
unfolding finish_split
finish_split-Agrees cont_id =
    >>=-Agrees (execute (mark_split cont_id)) _ (execute-Agrees (mark_split cont_id)) (λ _.
      >>=-Agrees (execute (delete_refs cont_id)) _ (execute-Agrees (delete_refs cont_id))
        (λ _. execute-Agrees (leave_queue cont_id)))

finish_split-quiet :
    (cont_id : ℕ) (s : Store) (t now : ℕ)
    → let r = transaction (finish_split cont_id) (quiet s t now) in
      (r.0 ≡ ok tt) × (r.1.store ≡ split cont_id s)
unfolding transaction finish_split execute statement
finish_split-quiet cont_id s t now = ground arith

-- Whichever statements fail, completing a split answers no error, and either changes nothing, so that
-- the content stays in the queue, or leaves the content inactive, not being pinned, of size 0 and marked
-- as split, without its references, and out of the queue, and changes nothing else.
pub split_complete_outcome :
    (cont_id : ℕ) (w : World Store)
    → let r = split_complete cont_id w in
      (r.0 ≡ ok tt) × ((r.1.store ≡ w.store) ⊎ Split cont_id w.store r.1.store)
unfolding split_complete
split_complete_outcome cont_id w =
    let l = logged_lem (transaction (finish_split cont_id)) w in
    let q = finish_split-quiet cont_id w.store w.tick w.now in
    let stores = λ (v : World Store). v.store in
    (
      l.0,
      elim (transaction-Agrees (finish_split cont_id) (finish_split-Agrees cont_id) w
          (quiet w.store w.tick w.now)
          (record { same_store = refl; same_now = refl; no_failure = λ _. refl })) [
            | inl e ↦ inl (ap stores l.1 ∙ transaction-Atomic (finish_split cont_id) w db_error e)
            | inr (e, k) ↦ inr (
                subst (Split cont_id w.store) (sym (ap stores l.1 ∙ k.same_store ∙ q.1))
                  (split-Split cont_id w.store))
          ],
    )
