-- ===== src/Staging/Consolidation.antt =====
-- content/stagingzone/aggregation.go: where the contents of a zone are gathered when they are at several
-- locations. Whether a shuttle can take contents is the shuttle manager's answer.
pub mod Weighing
pub mod Destination
use estuary.Prelude.{
  ℕ, ◌==◌, Bool, true, false, ◌&&◌, not, if◌then◌else◌, List, [], ◌∷◌, Option, none, some, keep,
}
use estuary.Prelude.Int.{ℤ, pos, ◌+ℤ◌, ltb_ℤ}
use estuary.Db.{M, Error, Result, ok, err, failure, pure, throw, ◌>>=◌, query}
use estuary.Model.{Content, Location, local_node, shuttle, same_location, Store}

-- The sizes by location.
abbrev pub data_at : Location → List (Location × ℤ) → ℤ
data_at l [] = pos 0
data_at l ((k, n) ∷ sizes) = let rest = data_at l sizes in if same_location k l then n else rest

-- The variables of the loop; no location yet is the empty one.
pub record Choice : Type 0 where
  pub data_by_loc : List (Location × ℤ)
  pub cur_max : ℤ
  pub dst_location : Option Location

abbrev pub no_choice : Choice
no_choice = record { data_by_loc = []; cur_max = pos 0; dst_location = none }

-- `dataByLoc[c.Location] = dataByLoc[c.Location] + c.Size`
abbrev pub weigh : Content → Choice → Choice
weigh c s = record s {
  data_by_loc = (c.location, data_at c.location s.data_by_loc +ℤ c.size) ∷ s.data_by_loc;
}

abbrev pub prefer : Location → Bool → Choice → Choice
prefer l can_add s =
    if ltb_ℤ s.cur_max (data_at l s.data_by_loc) && can_add
    then record s { cur_max = data_at l s.data_by_loc; dst_location = some l }
    else s

unfoldable pub consider : (ℕ → Result Bool) → Location → Choice → Result Choice
consider can_add local_node s = ok s
consider can_add (shuttle h) s = elim (can_add h) [
  | err e ↦ err e
  | ok can ↦ ok (prefer (shuttle h) can s)
]

-- The loop over the contents of the zone.
unfoldable pub weigh_all : (ℕ → Result Bool) → List Content → Choice → Result Choice
weigh_all can_add [] s = ok s
weigh_all can_add (c ∷ contents) s = elim (consider can_add c.location (weigh c s)) [
  | err e ↦ err e
  | ok s' ↦ weigh_all can_add contents s'
]

abbrev pub in_zone : ℕ → Content → Bool
in_zone zone_cont c = c.active && c.aggregated_in == zone_cont

abbrev pub must_move : Location → Content → Bool
must_move dst c = not (same_location c.location dst)

-- The contents that are not at the destination.
abbrev pub contents_to_move : ℕ → Location → Store → List Content
contents_to_move zone_cont dst s = keep (must_move dst) (keep (in_zone zone_cont) s.contents)

unfoldable pub gather_at : ℕ → ℤ → Option Location → M Store (Location × (List Content × ℤ))
gather_at zone_cont cur_max none = throw (failure "no destination location could be determined")
gather_at zone_cont cur_max (some dst) =
    query (λ s. (dst, (contents_to_move zone_cont dst s, cur_max)))

unfoldable pub gather : ℕ → Result Choice → M Store (Location × (List Content × ℤ))
gather zone_cont (err e) = throw e
gather zone_cont (ok choice) = gather_at zone_cont choice.cur_max choice.dst_location

-- The destination, the contents to move there, and the size that is there.
unfoldable pub get_contents_and_destination :
    (ℕ → Result Bool) → ℕ → M Store (Location × (List Content × ℤ))
get_contents_and_destination can_add zone_cont =
    query (λ s. keep (in_zone zone_cont) s.contents) >>= λ contents.
    gather zone_cont (weigh_all can_add contents no_choice)
