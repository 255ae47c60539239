-- ===== src/Tests/Zones.antt =====
-- Staging a content of size 8 where a zone has room for it, and pins that end.
use estuary.Prelude.{
  ◌≡◌, refl, [], ◌∷◌, true, false, arith, ◌⊎◌, Any, inl, inr, ◌==◌, if◌then◌else◌,
}
use estuary.Prelude.Int.{pos}
use estuary.Db.{
  World, ok, err, db_error, quiet, transaction, catch, query, execute, statement, undo, ◌>>=◌,
}
use estuary.Model.{Store, shuttle}
use estuary.Staging.Creation.{
  claim_zone, stage_new_content, stage_backfilled_content, add_to_old_zone, try_zones,
  new_staging_zone_from_content, zone_content_id, or_else,
}
use estuary.Staging.Queue.{stage_complete}
use estuary.Staging.Creation.Placed.{Placed}
use estuary.Staging.Creation.Outcome.{stage_new_content_outcome}
use estuary.Staging.Creation.Failure.{stage_new_content-Atomic, stage_backfilled_content-Atomic}
use estuary.Staging.Creation.Bounds.{WellFormed, stage_new_content-WellFormed, claim_after_others}
use estuary.Staging.Consolidation.{
  get_contents_and_destination, gather, gather_at, weigh_all, consider,
}
use estuary.Staging.Consolidation.Destination.{Destined, gathers_at_shuttle}
use estuary.Tests.Tables.{cfg, content, zone, database, today}

-- The world in which the third statement of the handler fails.
abbrev broken : World Store
broken = record today { fails = λ n. if n == 3 then true else false }

joins_zone :
    (stage_new_content cfg (content 1 (pos 8)) (pos 8) today).1.store.staging_zones
    ≡ record zone { size = pos 98 } ∷ []
unfolding stage_new_content stage_backfilled_content add_to_old_zone try_zones claim_zone
    new_staging_zone_from_content zone_content_id or_else stage_complete transaction catch query
    execute statement undo ◌>>=◌
joins_zone = refl

stage_new_content_outcome_example :
    let r = stage_new_content cfg (content 1 (pos 8)) (pos 8) broken in
    ((r.0 ≡ err db_error) × (r.1.store ≡ database))
    ⊎ ((r.0 ≡ ok tt) × Placed cfg (content 1 (pos 8)) (pos 8) 5 database r.1.store)
stage_new_content_outcome_example =
    stage_new_content_outcome cfg (content 1 (pos 8)) (pos 8) broken (omega arith)

database-WellFormed : WellFormed cfg database
database-WellFormed = record {
  fresh = (omega arith, tt);
  distinct = (tt, tt);
  bounded = ((λ _. omega arith), tt);
}

stage_new_content-WellFormed_example :
    WellFormed cfg (stage_new_content cfg (content 1 (pos 8)) (pos 8) broken).1.store
stage_new_content-WellFormed_example =
    stage_new_content-WellFormed cfg (content 1 (pos 8)) (pos 8) broken (omega arith) (omega arith)
      database-WellFormed

new_fails : (stage_new_content cfg (content 1 (pos 8)) (pos 8) broken).0 ≡ err db_error
unfolding stage_new_content stage_backfilled_content add_to_old_zone try_zones claim_zone
    new_staging_zone_from_content zone_content_id or_else stage_complete transaction catch query
    execute statement undo ◌>>=◌
new_fails = refl

old_fails :
    (stage_backfilled_content cfg (record (content 3 (pos 4)) { aggregated_in = 2 }) broken).0
    ≡ err db_error
unfolding stage_new_content stage_backfilled_content add_to_old_zone try_zones claim_zone
    new_staging_zone_from_content zone_content_id or_else stage_complete transaction catch query
    execute statement undo ◌>>=◌
old_fails = refl

stage_new_content-Atomic_example :
    (stage_new_content cfg (content 1 (pos 8)) (pos 8) broken).1.store ≡ database
stage_new_content-Atomic_example =
    stage_new_content-Atomic cfg (content 1 (pos 8)) (pos 8) broken db_error new_fails

stage_backfilled_content-Atomic_example :
    (stage_backfilled_content cfg (record (content 3 (pos 4)) { aggregated_in = 2 }) broken).1.store
    ≡ database
stage_backfilled_content-Atomic_example =
    stage_backfilled_content-Atomic cfg (record (content 3 (pos 4)) { aggregated_in = 2 }) broken
      db_error old_fails

-- The zone was listed at size 90, has 99 when it is claimed, and another zone is there.
abbrev filled : World Store
filled =
    quiet
      (record database {
        staging_zones = record zone { id = 7 } ∷ record zone { size = pos 99 } ∷ [];
      })
      0 5

claim_after_others_example :
    let r = transaction (claim_zone cfg (content 1 (pos 8)) (pos 8) zone) filled in
    ((r.0 ≡ err db_error) × (r.1.store ≡ filled.store))
    ⊎ ((r.0 ≡ ok tt) × Any (λ z. z ≡ record zone { size = pos 107 }) r.1.store.staging_zones)
claim_after_others_example =
    claim_after_others cfg (content 1 (pos 8)) (pos 8) zone (record zone { size = pos 99 }) filled
      (inr (inl refl)) refl refl refl (omega arith)

-- Content 1 is at the primary node and content 3 at shuttle 9, and they are in the zone of content 2.
abbrev scattered : World Store
scattered =
    quiet
      (record database {
        contents =
            record (content 1 (pos 8)) { aggregated_in = 2; active = true }
            ∷ record (content 3 (pos 4)) { aggregated_in = 2; active = true; location = shuttle 9 }
            ∷ [];
      })
      0 5

gathered :
    (get_contents_and_destination (λ h. ok true) 2 scattered).0
    ≡ ok (shuttle 9, (record (content 1 (pos 8)) { aggregated_in = 2; active = true } ∷ [], pos 4))
unfolding get_contents_and_destination gather gather_at weigh_all consider query statement ◌>>=◌
gathered = refl

gathers_at_shuttle_example :
    Destined
      (λ h. ok true)
      (record (content 1 (pos 8)) { aggregated_in = 2; active = true }
        ∷ record (content 3 (pos 4)) { aggregated_in = 2; active = true; location = shuttle 9 }
        ∷ [])
      (shuttle 9)
      (record (content 1 (pos 8)) { aggregated_in = 2; active = true } ∷ [])
      (pos 4)
gathers_at_shuttle_example =
    gathers_at_shuttle (λ h. ok true) 2 scattered (shuttle 9)
      (record (content 1 (pos 8)) { aggregated_in = 2; active = true } ∷ []) (pos 4) gathered
