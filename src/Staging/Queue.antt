-- ===== src/Staging/Queue.antt =====
-- content/stagingzone/queue/queue.go: the contents that wait to be staged, one row for each content.
use estuary.Prelude.{ℕ, ◌+◌, ◌==◌, Bool, true, false}
use estuary.Db.{M, ◌>>=◌, execute, now}
use estuary.Db.Table.{update, delete, insert_new}
use estuary.Model.{Content, StagingZoneQueue, Store}

-- Times are in seconds.
abbrev pub hour : ℕ
hour = 3600

abbrev pub of_content : ℕ → StagingZoneQueue → Bool
of_content cont_id r = r.cont_id == cont_id

-- INSERT ... ON CONFLICT DO NOTHING, where the content's id is unique.
abbrev pub insert_task : Content → Bool → ℕ → Store → Store
insert_task cont is_backfilled t s = record s {
  staging_zone_queue =
      insert_new (of_content cont.id)
        (record {
          user_id = cont.user_id;
          cont_id = cont.id;
          failing = false;
          next_attempt_at = t;
          is_back_filled = is_backfilled;
        })
        s.staging_zone_queue;
}

unfoldable pub queue_content : Content → Bool → M Store (Unit {0})
queue_content cont is_backfilled = now >>= λ t. execute (insert_task cont is_backfilled t)

abbrev pub completed : ℕ → Store → Store
completed cont_id s = record s {
  staging_zone_queue = delete (of_content cont_id) s.staging_zone_queue;
}

unfoldable pub stage_complete : ℕ → M Store (Unit {0})
stage_complete cont_id = execute (completed cont_id)

unfoldable pub stage_failed : ℕ → M Store (Unit {0})
stage_failed cont_id = do
  t ← now
  execute (λ s. record s {
    staging_zone_queue =
        update (of_content cont_id) (λ r. record r { failing = true; next_attempt_at = t + hour })
          s.staging_zone_queue;
  })
