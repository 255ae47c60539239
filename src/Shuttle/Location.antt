-- ===== src/Shuttle/Location.antt =====
-- shuttle/location.go and, of shuttle/shuttle.go, IsOnline and CanAddContent: which shuttle a content goes
-- to, and which one it is fetched from.
pub mod Serving
use estuary.Prelude.{
  ℕ, ◌+◌, ◌*◌, ◌==◌, ltb, Bool, true, false, ◌&&◌, ◌||◌, not, if◌then◌else◌, List, [], ◌∷◌, Option,
  none, some, keep, map, elem, sort_stable,
}
use estuary.Prelude.Int.{ℤ, ltb_ℤ}
use estuary.Db.{
  M, Error, Result, ok, err, record_not_found, failure, pure, throw, ◌>>=◌, query, now,
  or_not_found,
}
use estuary.Db.Table.{first}
use estuary.Staging.Creation.{is_open}
use estuary.Model.{
  Content, StagingZone, opened, ZoneStatus, ShuttleConnection, Shuttle, Location, local_node,
  shuttle, same_location, Store,
}

-- Five minutes, where an hour is 3600.
abbrev pub online_window : ℕ
online_window = 5 * 60

abbrev pub has_handle : ℕ → ShuttleConnection → Bool
has_handle handle c = c.handle == handle

-- `getConnectionByHandle`: no connection is no error.
abbrev pub connection : ℕ → Store → Option ShuttleConnection
connection handle s = first (has_handle handle) s.shuttle_connections

-- A connection that was updated in the last five minutes.
abbrev pub is_recent : ℕ → Option ShuttleConnection → Bool
is_recent t none = false
is_recent t (some c) = ltb t (c.updated_at + online_window)

unfoldable pub is_online : ℕ → M Store Bool
is_online handle = now >>= λ t. query (connection handle) >>= λ c. pure (is_recent t c)

abbrev pub adding_enabled : Option ShuttleConnection → Bool
adding_enabled none = true
adding_enabled (some c) = not c.content_adding_disabled

unfoldable pub can_add_content : ℕ → M Store Bool
can_add_content handle = query (connection handle) >>= λ c. pure (adding_enabled c)

-- A connection that new contents may go to.
abbrev pub is_active : ShuttleConnection → Bool
is_active c = not c.is_private && not c.content_adding_disabled

-- `allShuttlesLowSpace` after the loop: only a connection that is not active clears it.
abbrev pub all_shuttles_low_space : List ShuttleConnection → Bool
all_shuttles_low_space [] = true
all_shuttles_low_space (c ∷ cs) =
    let rest = all_shuttles_low_space cs in if is_active c then rest else false

-- `lowSpace[handle]`
abbrev pub low_space : List ShuttleConnection → ℕ → Bool
low_space [] handle = false
low_space (c ∷ cs) handle =
    let rest = low_space cs handle in
    if is_active c && c.handle == handle then c.space_low else rest

abbrev pub active_shuttles : List ShuttleConnection → List ℕ
active_shuttles cs = map (λ c. c.handle) (keep is_active cs)

-- ORDER BY priority DESC, with equal priorities in the order of the table.
abbrev pub by_priority : List Shuttle → List Shuttle
by_priority = sort_stable (λ a b. ltb_ℤ b.priority a.priority)

abbrev pub open_shuttles : List ℕ → Store → List Shuttle
open_shuttles handles s = by_priority (keep (λ x. elem x.handle handles && x.is_open) s.shuttles)

unfoldable pub online_shuttles : List Shuttle → M Store (List Shuttle)
online_shuttles [] = pure []
online_shuttles (x ∷ xs) = is_online x.handle >>= λ online.
    online_shuttles xs >>= λ rest. pure (if online then x ∷ rest else rest)

-- Shuttles with space go first.
abbrev pub less_full : List ShuttleConnection → Shuttle → Shuttle → Bool
less_full cs a b = not (low_space cs a.handle) && low_space cs b.handle

abbrev pub is_open_zone_of : ℕ → StagingZone → Bool
is_open_zone_of user z = z.user_id == user && is_open z.status

abbrev pub is_old_zone_of : ℕ → Content → Bool
is_old_zone_of user c = c.user_id == user && c.aggregate && not c.active

-- `return "", nil` on any error: the location is missing.
unfoldable pub location_or_none : M Store Location → M Store (Option Location)
location_or_none m w =
    let r = m w in elim r.0 [ ok l ↦ (ok (some l), r.1) | err e ↦ (ok none, r.1) ]

abbrev pub old_zone : ℕ → M Store Location
old_zone user =
    query (λ s. first (is_old_zone_of user) s.contents) >>= or_not_found >>= λ c. pure c.location

-- The open zone's location, the old zone's where there is no open zone.
abbrev pub or_old_zone : ℕ → Option StagingZone → M Store Location
or_old_zone user none = old_zone user
or_old_zone user (some z) = pure z.location

unfoldable pub primary_staging_location : ℕ → M Store (Option Location)
primary_staging_location user =
    location_or_none
      (query (λ s. first (is_open_zone_of user) s.staging_zones) >>= or_old_zone user)

-- The preferred location if it has space and a shuttle of the list is there.
abbrev pub preferred : List ShuttleConnection → List Shuttle → Option Location → Option ℕ
preferred cs xs none = none
preferred cs xs (some local_node) = none
preferred cs xs (some (shuttle h)) =
    if (all_shuttles_low_space cs || not (low_space cs h)) && elem h (map (λ x. x.handle) xs)
    then some h
    else none

abbrev pub or_first : Option ℕ → Shuttle → Location
or_first none x = shuttle x.handle
or_first (some h) x = shuttle h

-- No shuttle: the primary node, unless adding to it is disabled.
abbrev pub no_shuttle : Bool → M Store Location
no_shuttle disable_local_adding =
    if disable_local_adding then throw (failure "no shuttles available") else pure local_node

unfoldable pub choose_location : Bool → ℕ → List ShuttleConnection → List Shuttle → M Store Location
choose_location disable_local_adding user cs [] = no_shuttle disable_local_adding
choose_location disable_local_adding user cs (x ∷ xs) =
    primary_staging_location user >>= λ ploc. pure (or_first (preferred cs (x ∷ xs) ploc) x)

unfoldable pub storage_among : Bool → ℕ → List ShuttleConnection → List Shuttle → M Store Location
storage_among disable_local_adding user cs db_shuttles = online_shuttles db_shuttles >>= λ xs.
    choose_location disable_local_adding user cs (sort_stable (less_full cs) xs)

unfoldable pub storage_with : Bool → ℕ → List ShuttleConnection → M Store Location
storage_with disable_local_adding user cs =
    query (open_shuttles (active_shuttles cs)) >>= storage_among disable_local_adding user cs

unfoldable pub get_location_for_storage : Bool → ℕ → M Store Location
get_location_for_storage disable_local_adding user =
    query (λ s. s.shuttle_connections) >>= storage_with disable_local_adding user

-- For retrieval every connection that is not private will do, online or not.
abbrev pub public_handles : List ShuttleConnection → List ℕ
public_handles cs = map (λ c. c.handle) (keep (λ c. not c.is_private) cs)

abbrev pub at_content : Location → List Shuttle → Option ℕ
at_content local_node xs = none
at_content (shuttle h) xs = if elem h (map (λ x. x.handle) xs) then some h else none

unfoldable pub retrieval_among : Bool → Content → List Shuttle → M Store Location
retrieval_among disable_local_adding content [] = no_shuttle disable_local_adding
retrieval_among disable_local_adding content (x ∷ xs) =
    pure (or_first (at_content content.location (x ∷ xs)) x)

unfoldable pub get_location_for_retrieval : Bool → Content → M Store Location
get_location_for_retrieval disable_local_adding content =
    query (λ s. s.shuttle_connections) >>= λ cs.
    query (open_shuttles (public_handles cs)) >>= retrieval_among disable_local_adding content
