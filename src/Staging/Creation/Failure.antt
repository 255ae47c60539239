-- ===== src/Staging/Creation/Failure.antt =====
-- Staging a content that fails changes nothing, whichever statement fails.
use estuary.Prelude.{◌≡◌, List, [], ◌∷◌, ◌==◌, not}
use estuary.Prelude.Int.{ℤ}
use estuary.Db.{
  Error, M, World, err, zone_could_not_be_claimed, db_error, record_not_found,
  wait_for_remote_aggregate, failure, transaction,
}
use estuary.Db.Atomic.{
  Atomic, >>=-Atomic, catch-Atomic, transaction-Atomic, query-ReadOnly, throw-Atomic,
  execute-Atomic, if-Atomic,
}
use estuary.Model.{Content, StagingZone, Store, Config}
use estuary.Staging.Queue.{stage_complete}
use estuary.Staging.Creation.{
  claim_zone, new_staging_zone_from_content, or_else, open_zones, try_zones, stage_new_content,
  stage_backfilled_content,
}

or_else-Atomic : (m : M Store (Unit {0})) → Atomic m → (e : Error) → Atomic (or_else m e)
unfolding or_else
or_else-Atomic m h zone_could_not_be_claimed = h
or_else-Atomic m h db_error = throw-Atomic db_error
or_else-Atomic m h record_not_found = throw-Atomic record_not_found
or_else-Atomic m h wait_for_remote_aggregate = throw-Atomic wait_for_remote_aggregate
or_else-Atomic m h (failure t) = throw-Atomic (failure t)

new_zone-Atomic :
    (cfg : Config) (cont : Content) (n : ℤ) → Atomic (new_staging_zone_from_content cfg cont n)
unfolding new_staging_zone_from_content
new_zone-Atomic cfg cont n = transaction-Atomic _

try_zones-Atomic :
    (cfg : Config) (cont : Content) (n : ℤ) (zones : List StagingZone)
    → Atomic (try_zones cfg cont n zones)
unfolding try_zones
try_zones-Atomic cfg cont n [] = new_zone-Atomic cfg cont n
try_zones-Atomic cfg cont n (z ∷ zones) =
    catch-Atomic (transaction (claim_zone cfg cont n z)) (or_else (try_zones cfg cont n zones))
      (transaction-Atomic _) (or_else-Atomic _ (try_zones-Atomic cfg cont n zones))

-- When staging a new content ends in an error, the store is as it was: the claims that were undone
-- and the one that failed left nothing behind.
pub stage_new_content-Atomic :
    (cfg : Config) (cont : Content) (n : ℤ) (w : World Store) (e : Error)
    → (stage_new_content cfg cont n w).0 ≡ err e
    → (stage_new_content cfg cont n w).1.store ≡ w.store
unfolding stage_new_content
stage_new_content-Atomic cfg cont n =
    >>=-Atomic _ (try_zones cfg cont n) (query-ReadOnly (open_zones cfg cont n))
      (try_zones-Atomic cfg cont n)

-- When staging a content of the backfill ends in an error, the store is as it was.
pub stage_backfilled_content-Atomic :
    (cfg : Config) (cont : Content) (w : World Store) (e : Error)
    → (stage_backfilled_content cfg cont w).0 ≡ err e
    → (stage_backfilled_content cfg cont w).1.store ≡ w.store
unfolding stage_backfilled_content stage_complete
stage_backfilled_content-Atomic cfg cont = if-Atomic cont.aggregate _ _ (transaction-Atomic _) (
    if-Atomic (not (cont.aggregated_in == 0)) _ _
      (catch-Atomic _ (or_else (new_staging_zone_from_content cfg cont cont.size))
        (transaction-Atomic _) (or_else-Atomic _ (new_zone-Atomic cfg cont cont.size)))
      (execute-Atomic _))
