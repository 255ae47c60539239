-- ===== src/Staging/Creation.antt =====
-- content/stagingzone/creation.go: putting a content into a zone.
pub mod Failure
pub mod Claim
pub mod Placed
pub mod Outcome
pub mod Bounds
use estuary.Prelude.{
  ℕ, suc, ◌==◌, Bool, true, false, ◌&&◌, not, if◌then◌else◌, List, [], ◌∷◌, ◌++◌, String,
}
use estuary.Prelude.Int.{ℤ, ◌+ℤ◌, leb_ℤ, ltb_ℤ, pos}
use estuary.Db.{
  Error, Result, zone_could_not_be_claimed, M, pure, throw, ◌>>=◌, ◌>>◌, statement, query, execute,
  catch, transaction, now,
}
use estuary.Db.Table.{update, count, keep_sound}
use estuary.Model.{
  Content, StagingZone, ZoneStatus, opened, consolidating, done, aggregating, stuck, Store, Config,
  same_location,
}
use estuary.Model.Lookup.{has_id}
use estuary.Staging.Queue.{stage_complete}
use mathlib.Core.List.{reverse}
use estuary.Prelude.{keep}

abbrev pub is_open : ZoneStatus → Bool
is_open opened = true
is_open _ = false

abbrev pub is_consolidating : ZoneStatus → Bool
is_consolidating consolidating = true
is_consolidating _ = false

-- UPDATE contents SET aggregated_in = ... WHERE id = ...
abbrev pub assign : ℕ → ℕ → Store → Store
assign cont_id zone_cont s = record s {
  contents = update (has_id cont_id) (λ c. record c { aggregated_in = zone_cont }) s.contents;
}

-- UPDATE contents SET size = size + ? WHERE id = ?
abbrev pub grow_content : ℕ → ℤ → Store → Store
grow_content cont_id by s = record s {
  contents = update (has_id cont_id) (λ c. record c { size = c.size +ℤ by }) s.contents;
}

-- UPDATE staging_zones SET size = size + ? WHERE p, with the rows affected.
abbrev pub grow_zone : (StagingZone → Bool) → ℤ → Store → ℕ × Store
grow_zone p by s = (
  count p s.staging_zones,
  record s { staging_zones = update p (λ z. record z { size = z.size +ℤ by }) s.staging_zones },
)

-- The condition of the write that claims an open zone.
abbrev pub claimable : Config → ℕ → StagingZone → Bool
claimable cfg id z = z.id == id && ltb_ℤ z.size cfg.max_size && is_open z.status

abbrev pub claimable_consolidating : Config → ℕ → StagingZone → Bool
claimable_consolidating cfg id z =
    z.id == id && ltb_ℤ z.size cfg.max_size && is_consolidating z.status

-- The body of the transaction in `stageNewContent`.
unfoldable pub claim_zone : Config → Content → ℤ → StagingZone → M Store (Unit {0})
claim_zone cfg cont cont_size zone = do
  execute (assign cont.id zone.cont_id)
  if is_consolidating zone.status
      then (if same_location cont.location zone.location
          then (do
            rows ← statement (grow_zone (claimable_consolidating cfg zone.id) cont.size)
            if rows == 1
                then (do execute (grow_content zone.cont_id cont_size); stage_complete cont.id)
                else throw zone_could_not_be_claimed)
          else throw zone_could_not_be_claimed)
      else (do
        rows ← statement (grow_zone (claimable cfg zone.id) cont_size)
        if rows == 0
            then throw zone_could_not_be_claimed
            else (do execute (grow_content zone.cont_id cont_size); stage_complete cont.id))

-- The aggregate content that `newStagingZoneFromContent` makes for a new zone.
abbrev pub zone_content : Config → Content → ℤ → ℕ → ℕ → Content
zone_content cfg cont cont_size created id = record {
  id = id;
  created_at = created;
  cid = 0;
  name = "aggregate";
  user_id = cont.user_id;
  size = cont_size;
  active = false;
  offloaded = false;
  replication = cfg.replication;
  aggregated_in = 0;
  aggregate = true;
  pinning = false;
  failed = false;
  location = cont.location;
  dag_split = false;
  split_from = 0;
}

abbrev pub new_zone : Config → Content → ℤ → ℕ → ℕ → StagingZone
new_zone cfg cont cont_size zone_cont id = record {
  id = id;
  created_at = cont.created_at;
  min_size = cfg.min_size;
  max_size = cfg.max_size;
  size = cont_size;
  user_id = cont.user_id;
  cont_id = zone_cont;
  location = cont.location;
  status = opened;
  message = opened;
  attempted = 0;
  next_attempt_at = 0;
}

-- The two `Create` statements, with the key that the database gives.
abbrev pub create_content : (ℕ → Content) → Store → ℕ × Store
create_content row s = (
  s.next_content,
  record s { contents = s.contents ++ row s.next_content ∷ []; next_content = suc s.next_content },
)

abbrev pub create_zone : (ℕ → StagingZone) → Store → Store
create_zone row s = record s {
  staging_zones = s.staging_zones ++ row s.next_zone ∷ [];
  next_zone = suc s.next_zone;
}

-- The key of the zone's content: the one that an old content is assigned to, or a new one.
unfoldable pub zone_content_id : Config → Content → ℤ → M Store ℕ
zone_content_id cfg cont cont_size =
    if cont.aggregated_in == 0
    then (do
      t ← now
      id ← statement (create_content (zone_content cfg cont cont_size t))
      execute (assign cont.id id)
      pure id)
    else pure cont.aggregated_in

unfoldable pub new_staging_zone_from_content : Config → Content → ℤ → M Store (Unit {0})
unfolding zone_content_id
new_staging_zone_from_content cfg cont cont_size = transaction (do
  zone_cont ← zone_content_id cfg cont cont_size
  execute (create_zone (new_zone cfg cont cont_size zone_cont))
  stage_complete cont.id)

-- The query of `stageNewContent`: the open zones of the user with room, the most recent first. The
-- batches of 500 are one query, so this is the source with at most 500 such zones.
abbrev pub has_room : Config → Content → ℤ → StagingZone → Bool
has_room cfg cont cont_size z =
    z.user_id == cont.user_id && leb_ℤ (z.size +ℤ cont_size) cfg.max_size && is_open z.status

abbrev pub open_zones : Config → Content → ℤ → Store → List StagingZone
open_zones cfg cont cont_size s = reverse (keep (has_room cfg cont cont_size) s.staging_zones)

-- Handling `ErrZoneCouldNotBeClaimed` by another attempt, and any other error by returning it.
unfoldable pub or_else : M Store (Unit {0}) → Error → M Store (Unit {0})
or_else m zone_could_not_be_claimed = m
or_else m e = throw e

-- The loop over the zones: the next one if this one could not be claimed.
unfoldable pub try_zones : Config → Content → ℤ → List StagingZone → M Store (Unit {0})
try_zones cfg cont cont_size [] = new_staging_zone_from_content cfg cont cont_size
try_zones cfg cont cont_size (zone ∷ zones) =
    let rest = try_zones cfg cont cont_size zones in
    catch (transaction (claim_zone cfg cont cont_size zone)) (or_else rest)

unfoldable pub stage_new_content : Config → Content → ℤ → M Store (Unit {0})
stage_new_content cfg cont cont_size = do
  zones ← query (open_zones cfg cont cont_size)
  try_zones cfg cont cont_size zones

abbrev pub of_zone_content : ℕ → StagingZone → Bool
of_zone_content cont_id z = z.cont_id == cont_id

-- The aggregate's own branch: its zone is done if it is active.
unfoldable pub stage_old_aggregate : Content → M Store (Unit {0})
stage_old_aggregate cont = transaction (do
  if cont.active
      then execute (λ s. record s {
        staging_zones =
            update (of_zone_content cont.id)
              (λ z. record z { status = done; message = done; created_at = cont.created_at })
              s.staging_zones;
      })
      else pure tt
  stage_complete cont.id)

-- The branch of an old content that is assigned to an aggregate.
unfoldable pub add_to_old_zone : Content → M Store (Unit {0})
add_to_old_zone cont = transaction (do
  rows ← statement (grow_zone (of_zone_content cont.aggregated_in) cont.size)
  if rows == 1 then stage_complete cont.id else throw zone_could_not_be_claimed)

unfoldable pub stage_backfilled_content : Config → Content → M Store (Unit {0})
unfolding stage_old_aggregate add_to_old_zone
stage_backfilled_content cfg cont =
    if cont.aggregate
    then stage_old_aggregate cont
    else if not (cont.aggregated_in == 0)
    then catch (add_to_old_zone cont) (or_else (new_staging_zone_from_content cfg cont cont.size))
    else stage_complete cont.id
