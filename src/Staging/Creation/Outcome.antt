-- ===== src/Staging/Creation/Outcome.antt =====
-- Staging a new content in any world: it fails and changes nothing, or a zone takes the content.
use estuary.Prelude.{ℕ, ◌≡◌, refl, sym, subst, ◌==◌, List, [], ◌∷◌, inl, inr, ◌∙◌, ◌⊎◌}
use estuary.Prelude.Int.{ℤ, pos, ◌<ℤ◌}
use estuary.Db.{
  Error, World, ok, err, db_error, quiet, transaction, statement, query, pure, execute,
  zone_could_not_be_claimed, record_not_found, wait_for_remote_aggregate, failure,
}
use estuary.Db.Agree.{
  Agrees, pure-Agrees, throw-Agrees, now-Agrees, statement-Agrees, >>=-Agrees, catch-Agrees,
  if-Agrees, execute-Agrees, query-Agrees, transaction-Agrees,
}
use estuary.Model.{Content, StagingZone, Store, Config, same_location}
use estuary.Staging.Queue.{stage_complete, completed}
use estuary.Staging.Creation.{
  claim_zone, new_staging_zone_from_content, or_else, open_zones, try_zones, stage_new_content,
  zone_content_id, is_consolidating, grow_zone, grow_content, claimable, claimable_consolidating,
  assign, create_content, zone_content, create_zone, new_zone,
}
use estuary.Staging.Creation.Claim.{staged, stage_new_content-quiet}
use estuary.Staging.Creation.Placed.{Placed, staged-Placed}
use estuary.Staging.Creation.Failure.{stage_new_content-Atomic}

complete-Agrees : (id : ℕ) → Agrees (stage_complete id)
unfolding stage_complete
complete-Agrees id = execute-Agrees (completed id)

pub claim_zone-Agrees :
    (cfg : Config) (cont : Content) (n : ℤ) (zone : StagingZone)
    → Agrees (claim_zone cfg cont n zone)
unfolding claim_zone
claim_zone-Agrees cfg cont n zone =
    let finish =
      >>=-Agrees _ (λ _. stage_complete cont.id) (execute-Agrees (grow_content zone.cont_id n))
        (λ _. complete-Agrees cont.id) in
    >>=-Agrees (execute (assign cont.id zone.cont_id)) _
      (execute-Agrees (assign cont.id zone.cont_id))
      (λ _.
        if-Agrees (is_consolidating zone.status) _ _
          (if-Agrees (same_location cont.location zone.location) _ _
            (>>=-Agrees (statement (grow_zone (claimable_consolidating cfg zone.id) cont.size)) _
              (statement-Agrees (grow_zone (claimable_consolidating cfg zone.id) cont.size))
              (λ rows. if-Agrees (rows == 1) _ _ finish (throw-Agrees zone_could_not_be_claimed)))
            (throw-Agrees zone_could_not_be_claimed))
          (>>=-Agrees (statement (grow_zone (claimable cfg zone.id) n)) _
            (statement-Agrees (grow_zone (claimable cfg zone.id) n))
            (λ rows. if-Agrees (rows == 0) _ _ (throw-Agrees zone_could_not_be_claimed) finish)))

new_zone-Agrees :
    (cfg : Config) (cont : Content) (n : ℤ) → Agrees (new_staging_zone_from_content cfg cont n)
unfolding new_staging_zone_from_content zone_content_id
new_zone-Agrees cfg cont n = transaction-Agrees _ (
    >>=-Agrees (zone_content_id cfg cont n) _
      (if-Agrees (cont.aggregated_in == 0) _ _
        (>>=-Agrees _ _ now-Agrees (λ t.
          >>=-Agrees (statement (create_content (zone_content cfg cont n t))) _
            (statement-Agrees (create_content (zone_content cfg cont n t)))
            (λ id.
              >>=-Agrees (execute (assign cont.id id)) (λ _. pure id)
                (execute-Agrees (assign cont.id id)) (λ _. pure-Agrees id))))
        (pure-Agrees cont.aggregated_in))
      (λ zone_cont.
        >>=-Agrees (execute (create_zone (new_zone cfg cont n zone_cont)))
          (λ _. stage_complete cont.id)
          (execute-Agrees (create_zone (new_zone cfg cont n zone_cont)))
          (λ _. complete-Agrees cont.id)))

or_else-Agrees :
    (cfg : Config) (cont : Content) (n : ℤ) (zones : List StagingZone)
    → Agrees (try_zones cfg cont n zones)
    → (e : Error) → Agrees (or_else (try_zones cfg cont n zones) e)
unfolding or_else
or_else-Agrees cfg cont n zones h zone_could_not_be_claimed = h
or_else-Agrees cfg cont n zones h db_error = throw-Agrees db_error
or_else-Agrees cfg cont n zones h record_not_found = throw-Agrees record_not_found
or_else-Agrees cfg cont n zones h wait_for_remote_aggregate = throw-Agrees wait_for_remote_aggregate
or_else-Agrees cfg cont n zones h (failure t) = throw-Agrees (failure t)

db_error_stays :
    (cfg : Config) (cont : Content) (n : ℤ) (zones : List StagingZone) (w : World Store)
    → (or_else (try_zones cfg cont n zones) db_error w).0 ≡ err db_error
unfolding or_else
db_error_stays cfg cont n zones w = refl

try_zones-Agrees :
    (cfg : Config) (cont : Content) (n : ℤ) (zones : List StagingZone)
    → Agrees (try_zones cfg cont n zones)
unfolding try_zones
try_zones-Agrees cfg cont n [] = new_zone-Agrees cfg cont n
try_zones-Agrees cfg cont n (z ∷ zones) =
    let rest = try_zones-Agrees cfg cont n zones in
    catch-Agrees (transaction (claim_zone cfg cont n z)) (or_else (try_zones cfg cont n zones))
      (transaction-Agrees _ (claim_zone-Agrees cfg cont n z)) (or_else-Agrees cfg cont n zones rest)
      (db_error_stays cfg cont n zones)

stage_new_content-Agrees :
    (cfg : Config) (cont : Content) (n : ℤ) → Agrees (stage_new_content cfg cont n)
unfolding stage_new_content
stage_new_content-Agrees cfg cont n =
    >>=-Agrees (query (open_zones cfg cont n)) (try_zones cfg cont n)
      (query-Agrees (open_zones cfg cont n)) (try_zones-Agrees cfg cont n)

pub stage_new_content-staged :
    (cfg : Config) (cont : Content) (n : ℤ) (w : World Store)
    → pos 0 <ℤ n
    → let r = stage_new_content cfg cont n w in
      ((r.0 ≡ err db_error) × (r.1.store ≡ w.store))
      ⊎ ((r.0 ≡ ok tt)
          × (r.1.store ≡ staged cfg cont n w.now w.store (open_zones cfg cont n w.store)))
stage_new_content-staged cfg cont n w h =
    let q = stage_new_content-quiet cfg cont n w.store w.tick w.now h in
    elim (stage_new_content-Agrees cfg cont n w (quiet w.store w.tick w.now)
      (record { same_store = refl; same_now = refl; no_failure = λ _. refl })) [
        | inl e ↦ inl (e, stage_new_content-Atomic cfg cont n w db_error e)
        | inr (e, s) ↦ inr (e ∙ q.0, s.same_store ∙ q.1)
      ]

-- Whichever statements fail, staging a new content of a positive size either ends in a database error
-- with the store unchanged, or succeeds: the most recent open zone of its user with room for it takes
-- it, and where there is none it gets a zone of its own. The content is assigned to the zone's content,
-- the zone and its content grow by its size, it leaves the queue, and nothing else changes.
pub stage_new_content_outcome :
    (cfg : Config) (cont : Content) (n : ℤ) (w : World Store)
    → pos 0 <ℤ n
    → let r = stage_new_content cfg cont n w in
      ((r.0 ≡ err db_error) × (r.1.store ≡ w.store))
      ⊎ ((r.0 ≡ ok tt) × Placed cfg cont n w.now w.store r.1.store)
stage_new_content_outcome cfg cont n w h = elim (stage_new_content-staged cfg cont n w h) [
  | inl e ↦ inl e
  | inr (e, s) ↦
      inr (
        e,
        subst (Placed cfg cont n w.now w.store) (sym s) (staged-Placed cfg cont n w.now w.store),
      )
]
