-- ===== src/Tests/Shuttles.antt =====
-- Two shuttles: 1 has space, and 2, where the user's open zone is, is low on it.
use estuary.Prelude.{ℕ, ◌≡◌, refl, [], ◌∷◌, true, false, some, Bool}
use estuary.Prelude.Int.{pos}
use estuary.Db.{World, ok, quiet, ◌>>=◌, query, statement}
use estuary.Model.{ShuttleConnection, Shuttle, Store, shuttle}
use estuary.Shuttle.Location.{
  preferred, all_shuttles_low_space, is_online, online_shuttles, choose_location, storage_among,
  storage_with, get_location_for_storage, primary_staging_location, location_or_none,
}
use estuary.Shuttle.Location.Serving.{
  Answers, Serves, get_location_for_storage-Answers, full_shuttle_preferred,
}
use estuary.Tests.Tables.{database, zone}

abbrev connected : ℕ → Bool → ShuttleConnection
connected handle low = record {
  handle = handle;
  updated_at = 1000;
  is_private = false;
  content_adding_disabled = false;
  space_low = low;
  blockstore_size = 500;
  blockstore_free = 100;
  pin_count = pos 3;
  pin_queue_length = pos 0;
}

abbrev registered : ℕ → Shuttle
registered handle = record { handle = handle; is_open = true; priority = pos 0 }

abbrev with_shuttles : World Store
with_shuttles =
    quiet
      (record database {
        staging_zones = record zone { location = shuttle 2 } ∷ [];
        shuttle_connections = connected 1 false ∷ connected 2 true ∷ [];
        shuttles = registered 1 ∷ registered 2 ∷ [];
      })
      0 1100

-- The shuttle that is low on space is chosen.
chosen : (get_location_for_storage false 7 with_shuttles).0 ≡ ok (shuttle 2)
unfolding get_location_for_storage storage_with storage_among choose_location online_shuttles
    is_online primary_staging_location location_or_none query statement ◌>>=◌
chosen = refl

get_location_for_storage-Answers_example : Answers false (Serves with_shuttles) (shuttle 2)
get_location_for_storage-Answers_example =
    get_location_for_storage-Answers false 7 with_shuttles (shuttle 2) chosen

full_shuttle_preferred_example :
    (all_shuttles_low_space (connected 1 false ∷ connected 2 true ∷ []) ≡ true)
    × (preferred
          (connected 1 false ∷ connected 2 true ∷ [])
          (registered 1 ∷ registered 2 ∷ [])
          (some (shuttle 2))
        ≡ some 2)
full_shuttle_preferred_example =
    full_shuttle_preferred (connected 1 false ∷ connected 2 true ∷ [])
      (registered 1 ∷ registered 2 ∷ []) 2 (refl, (refl, tt)) refl
