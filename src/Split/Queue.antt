-- ===== src/Split/Queue.antt =====
-- content/split/queue/queue.go: the contents that wait to be split, one row for each content.
pub mod Completion
use estuary.Prelude.{ℕ, ◌==◌, Bool, true, false}
use estuary.Prelude.Int.{ℤ, pos}
use estuary.Db.{M, Error, pure, throw, db_error, catch, ◌>>=◌, ◌>>◌, execute, now, transaction}
use estuary.Db.Table.{update, delete, insert_new}
use estuary.Model.{Content, SplitQueue, Store}
use estuary.Model.Lookup.{has_id}
use estuary.Contents.Gc.{delete_refs}

abbrev pub of_content : ℕ → SplitQueue → Bool
of_content cont_id r = r.cont_id == cont_id

abbrev pub insert_task : ℕ → ℕ → ℕ → Store → Store
insert_task cont_id user_id t s = record s {
  split_queue =
      insert_new (of_content cont_id)
        (record {
          user_id = user_id;
          cont_id = cont_id;
          failing = false;
          attempted = 0;
          next_attempt_at = t;
        })
        s.split_queue;
}

unfoldable pub queue_content : ℕ → ℕ → M Store (Unit {0})
queue_content cont_id user_id = now >>= λ t. execute (insert_task cont_id user_id t)

abbrev pub split_root : Content → Content
split_root c = record c { dag_split = true; active = false; size = pos 0; pinning = false }

abbrev pub mark_split : ℕ → Store → Store
mark_split cont_id s = record s { contents = update (has_id cont_id) split_root s.contents }

abbrev pub leave_queue : ℕ → Store → Store
leave_queue cont_id s = record s { split_queue = delete (of_content cont_id) s.split_queue }

-- The body of the transaction in `SplitComplete`.
unfoldable pub finish_split : ℕ → M Store (Unit {0})
finish_split cont_id = do
  execute (mark_split cont_id)
  execute (delete_refs cont_id)
  execute (leave_queue cont_id)

-- Errors are logged only.
unfoldable pub split_complete : ℕ → M Store (Unit {0})
unfolding finish_split
split_complete cont_id = catch (transaction (finish_split cont_id)) (λ e. pure tt)

-- `SplitFailed`: its statement names a column that the table lacks, so it fails, which is logged only.
unfoldable pub split_failed : ℕ → M Store (Unit {0})
split_failed cont_id = catch (throw db_error) (λ e. pure tt)
