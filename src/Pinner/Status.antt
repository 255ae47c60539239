-- ===== src/Pinner/Status.antt =====
-- pinner/status/status.go: the status of a content's pin in the database.
pub mod RoundTrip
use estuary.Prelude.{ℕ, suc, ◌+◌, ◌*◌, ◌==◌, Bool, true, false, ◌&&◌, not, if◌then◌else◌}
use estuary.Db.{M, pure, ◌>>=◌, ◌>>◌, query, execute, now, or_not_found, transaction}
use estuary.Db.Table.{update, first}
use estuary.Model.{Content, StagingZone, stuck, Store}
use estuary.Staging.Queue.{hour}
use estuary.Model.Lookup.{has_id, get_content}
use estuary.Staging.Creation.{of_zone_content}
use estuary.Pinner.Operation.{PinningStatus, queued, pinning, pinned, failed, offloaded}

abbrev pub is_pinning : PinningStatus → Bool
is_pinning pinning = true
is_pinning _ = false

abbrev pub is_failed : PinningStatus → Bool
is_failed failed = true
is_failed _ = false

abbrev pub stick : ℕ → StagingZone → StagingZone
stick t z = record z {
  attempted = suc z.attempted;
  next_attempt_at = t + 2 * hour;
  status = stuck;
  message = stuck;
}

-- UPDATE staging_zones ... for an aggregate that failed.
abbrev pub stick_zone : ℕ → ℕ → Store → Store
stick_zone cont_id t s = record s {
  staging_zones = update (of_zone_content cont_id) (stick t) s.staging_zones;
}

abbrev pub update_content : ℕ → (Content → Content) → Store → Store
update_content cont_id f s = record s { contents = update (has_id cont_id) f s.contents }

abbrev pub set_flags : PinningStatus → Content → Content
set_flags status c = record c { pinning = is_pinning status; failed = is_failed status }

abbrev pub leave_zone : Content → Content
leave_zone c = record c { aggregated_in = 0 }

-- The body of the transaction. An empty set of columns is no statement. The last statement of the
-- source, `tx.Raw(...)`, only builds a query that nothing runs, so it is none either.
unfoldable pub set_pin_status : Content → ℕ → PinningStatus → M Store (Unit {0})
set_pin_status c cont_id status =
    if c.aggregated_in == 0
    then execute (update_content cont_id (set_flags status))
    else if is_failed status
    then execute (update_content cont_id leave_zone)
    else pure tt

unfoldable pub write_pin_status : ℕ → PinningStatus → Content → M Store (Unit {0})
unfolding set_pin_status
write_pin_status cont_id status c =
    if c.aggregate && is_failed status
    then (do t ← now; execute (stick_zone cont_id t))
    else if not (c.aggregated_in == 0) && is_pinning status
    then pure tt
    else transaction (set_pin_status c cont_id status)

unfoldable pub update_content_pin_status : ℕ → PinningStatus → M Store (Unit {0})
update_content_pin_status cont_id status = get_content cont_id >>= write_pin_status cont_id status

abbrev pub get_content_pinning_status : Content → PinningStatus
get_content_pinning_status cont =
    if cont.active
    then pinned
    else if cont.failed
    then failed
    else if cont.pinning
    then pinning
    else if cont.offloaded
    then offloaded
    else queued
