-- ===== src/Tests/Rpc.antt =====
-- A shuttle that reports a pin and asks which contents to drop.
use estuary.Prelude.{◌≡◌, refl, [], ◌∷◌, elem, true, ◌&&◌}
use estuary.Prelude.Int.{pos}
use estuary.Db.{World, ok, quiet, query, statement, ◌>>=◌}
use estuary.Model.{Store, shuttle}
use estuary.Model.Lookup.{content_of}
use estuary.Shuttle.Rpc.{
  PinComplete, unpin_contents, collect_garbage, handle_garbage_check, handle_pinning_complete,
}
use estuary.Shuttle.Rpc.Garbage.{unwanted, handle_garbage_check-Listed}
use estuary.Shuttle.Rpc.Aggregates.{Completed, handle_pinning_complete-Completes}
use estuary.Tests.Tables.{cfg, content, database, today}

-- Content 8 is at the shuttle 1, content 2 is not, and nothing is known of content 9, which is listed
-- twice.
abbrev kept : World Store
kept =
    quiet
      (record database {
        contents = record (content 8 (pos 20)) { location = shuttle 1 } ∷ content 2 (pos 90) ∷ [];
      })
      0 5

dropped : (handle_garbage_check 1 (8 ∷ 2 ∷ 9 ∷ []) kept).0 ≡ ok (unpin_contents (2 ∷ 9 ∷ 9 ∷ []))
unfolding handle_garbage_check collect_garbage query statement ◌>>=◌
dropped = refl

handle_garbage_check-Listed_example :
    elem 9 (2 ∷ 9 ∷ 9 ∷ []) ≡ (elem 9 (8 ∷ 2 ∷ 9 ∷ []) && unwanted 1 (content_of 9 kept.store))
handle_garbage_check-Listed_example =
    handle_garbage_check-Listed 1 (8 ∷ 2 ∷ 9 ∷ []) kept (2 ∷ 9 ∷ 9 ∷ []) dropped 9

-- The aggregate of the zone is pinned at the shuttle 1.
abbrev report : PinComplete
report = record { db_id = 2; cid = 77; objects = record { cid = 77; size = 90 } ∷ [] }

handle_pinning_complete-Completes_example :
    ((handle_pinning_complete cfg 1 report today).0 ≡ ok tt)
    × Completed
        (record (content 2 (pos 90)) { aggregate = true })
        77
        (record { cid = 77; size = 90 })
        (shuttle 1)
        (handle_pinning_complete cfg 1 report today).1.store
handle_pinning_complete-Completes_example =
    handle_pinning_complete-Completes cfg 1 report (record { cid = 77; size = 90 })
      (record (content 2 (pos 90)) { aggregate = true }) database 0 5 refl refl
      (refl, (refl, (refl, (refl, refl))))
