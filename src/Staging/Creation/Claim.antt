-- ===== src/Staging/Creation/Claim.antt =====
-- Staging a new content when no statement fails: the zone that takes it, and what is written.
use estuary.Prelude.{
  ℕ, suc, ◌≡◌, ap, ◌==◌, List, [], ◌∷◌, true, false, Bool-cases, inl, inr, arith, All, Any, Any-imp,
  keep, if◌then◌else◌,
}
use estuary.Prelude.Int.{ℤ, pos, ◌<ℤ◌}
use estuary.Db.{Result, World, ok, quiet, transaction, catch, statement, query, execute, ◌>>=◌}
use estuary.Db.Run.{catch_ok}
use estuary.Db.Table.{count, count_pos, members, All-reverse}
use estuary.Model.{Content, StagingZone, ZoneStatus, Store, Config}
use estuary.Staging.Queue.{stage_complete, completed}
use estuary.Staging.Creation.{
  claim_zone, new_staging_zone_from_content, or_else, open_zones, try_zones, stage_new_content,
  assign, grow_content, grow_zone, claimable, zone_content, new_zone, create_content, create_zone,
  has_room, is_open, is_consolidating,
}

-- The store after a content has joined a zone.
abbrev pub joined : Config → Content → ℤ → StagingZone → Store → Store
joined cfg cont n zone s = completed cont.id (
    grow_content zone.cont_id n
      (grow_zone (claimable cfg zone.id) n (assign cont.id zone.cont_id s)).1)

-- The store after a content has got a zone of its own, at the time `t`.
abbrev pub founded : Config → Content → ℤ → ℕ → Store → Store
founded cfg cont n t s =
    if cont.aggregated_in == 0
    then completed cont.id (
        create_zone (new_zone cfg cont n s.next_content)
          (assign cont.id s.next_content (create_content (zone_content cfg cont n t) s).1))
    else completed cont.id (create_zone (new_zone cfg cont n cont.aggregated_in) s)

not_consolidating : (z : ZoneStatus) → is_open z ≡ true → is_consolidating z ≡ false
not_consolidating z h = ground arith

pub claim_quiet :
    (cfg : Config) (cont : Content) (n : ℤ) (zone : StagingZone) (s : Store) (t now : ℕ)
    → is_open zone.status ≡ true
    → (count (claimable cfg zone.id) s.staging_zones == 0) ≡ false
    → transaction (claim_zone cfg cont n zone) (quiet s t now)
      ≡ (ok tt, quiet (joined cfg cont n zone s) (suc (suc (suc (suc (suc (suc t)))))) now)
unfolding transaction claim_zone stage_complete statement execute
claim_quiet cfg cont n zone s t now h k = ground (arith, not_consolidating zone.status h)

found_quiet :
    (cfg : Config) (cont : Content) (n : ℤ) (s : Store) (t now : ℕ)
    → let r = new_staging_zone_from_content cfg cont n (quiet s t now) in
      (r.0 ≡ ok tt) × (r.1.store ≡ founded cfg cont n now s)
unfolding new_staging_zone_from_content transaction stage_complete statement execute
found_quiet cfg cont n s t now = elim (Bool-cases (cont.aggregated_in == 0)) [
  | inl e ↦ ground arith
  | inr e ↦ ground arith
]

-- The zone that the query gives first, or a new one.
abbrev pub staged : Config → Content → ℤ → ℕ → Store → List StagingZone → Store
staged cfg cont n now s [] = founded cfg cont n now s
staged cfg cont n now s (zone ∷ _) = joined cfg cont n zone s

has_room-claimable :
    (cfg : Config) (cont : Content) (n : ℤ) (z : StagingZone)
    → pos 0 <ℤ n
    → has_room cfg cont n z ≡ true
    → (is_open z.status ≡ true) × (claimable cfg z.id z ≡ true)
has_room-claimable cfg cont n z h r = ground arith

try_zones-quiet :
    (cfg : Config) (cont : Content) (n : ℤ) (s : Store) (t now : ℕ) (zones : List StagingZone)
    → pos 0 <ℤ n
    → All (λ z. (has_room cfg cont n z ≡ true) × Any (λ y. y ≡ z) s.staging_zones) zones
    → let r = try_zones cfg cont n zones (quiet s t now) in
      (r.0 ≡ ok tt) × (r.1.store ≡ staged cfg cont n now s zones)
unfolding try_zones catch
try_zones-quiet cfg cont n s t now [] h all = found_quiet cfg cont n s t now
try_zones-quiet cfg cont n s t now (z ∷ zones) h all =
    let (accepts, fits) = has_room-claimable cfg cont n z h all.0.0 in
    let hit = count_pos (claimable cfg z.id) s.staging_zones (
      Any-imp (λ y. y ≡ z) (λ y. claimable cfg z.id y ≡ true) s.staging_zones (λ y e. rw e fits)
        all.0.1) in
    let c = claim_quiet cfg cont n z s t now accepts (ground (arith, hit)) in
    let q =
      catch_ok (transaction (claim_zone cfg cont n z)) (or_else (try_zones cfg cont n zones))
        (quiet s t now) tt (quiet (joined cfg cont n z s) (suc (suc (suc (suc (suc (suc t)))))) now)
        c in
    (
      ap (λ (r : Result (Unit {0}) × World Store). r.0) q,
      ap (λ (r : Result (Unit {0}) × World Store). r.1.store) q,
    )

-- When no statement fails, staging a new content succeeds. The most recent open zone of its user with
-- room for it takes it; where there is none it gets a zone of its own.
pub stage_new_content-quiet :
    (cfg : Config) (cont : Content) (n : ℤ) (s : Store) (t now : ℕ)
    → pos 0 <ℤ n
    → let r = stage_new_content cfg cont n (quiet s t now) in
      (r.0 ≡ ok tt) × (r.1.store ≡ staged cfg cont n now s (open_zones cfg cont n s))
unfolding stage_new_content query ◌>>=◌
stage_new_content-quiet cfg cont n s t now h =
    try_zones-quiet cfg cont n s (suc t) now (open_zones cfg cont n s) h (
      All-reverse _ (keep (has_room cfg cont n) s.staging_zones)
        (members (has_room cfg cont n) s.staging_zones))
