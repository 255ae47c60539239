-- ===== src/Contents/Offloading.antt =====
-- content/offloading.go: freeing space by taking contents off the primary node and the shuttles. The
-- content lock is held throughout `OffloadContents`.
pub mod Choice
pub mod Blocks
use estuary.Prelude.{
  ℕ, suc, ◌+◌, ◌==◌, ltb, Bool, true, false, ◌&&◌, ◌||◌, not, if◌then◌else◌, List, [], ◌∷◌, ◌++◌,
  Option, none, some, map, keep, elem, sort_stable,
}
use estuary.Prelude.Int.{ℤ, pos, ◌-ℤ◌, leb_ℤ, ltb_ℤ}
use estuary.Db.{
  M, Error, Result, ok, err, failure, pure, throw, ◌>>=◌, ◌>>◌, query, execute, or_not_found,
}
use estuary.Db.Table.{update, first, count}
use estuary.Model.{
  Content, ContentDeal, Object, ObjRef, Location, local_node, shuttle, same_location, Store,
}
use estuary.Model.Lookup.{has_id, get_content}
use estuary.Contents.Gc.{objects_for_pin, same_object, delete_block, of_pin}

-- How the deals of a content stand.
pub record Replicas : Type 0 where
  pub good : ℕ
  pub in_progress : ℕ
  pub failed : ℕ

abbrev pub tally : List ContentDeal → Replicas
tally [] = record { good = 0; in_progress = 0; failed = 0 }
tally (d ∷ deals) =
    let r = tally deals in
    if d.failed
    then record r { failed = suc r.failed }
    else if ltb_ℤ (pos 0) d.deal_id
    then record r { good = suc r.good }
    else record r { in_progress = suc r.in_progress }

unfoldable pub content_is_properly_replicated : ℕ → M Store Replicas
content_is_properly_replicated c =
    query (λ s. keep (λ d. d.content == c) s.content_deals) >>= λ deals. pure (tally deals)

abbrev pub at_location : Option Location → Content → Bool
at_location none c = true
at_location (some l) c = same_location l c.location

abbrev pub of_users : List ℕ → Content → Bool
of_users [] c = true
of_users (u ∷ users) c = elem c.user_id (u ∷ users)

abbrev pub is_removable : Option Location → List ℕ → Content → Bool
is_removable loc users c =
    c.active
    && not c.offloaded
    && (c.aggregate || not (ltb 0 c.aggregated_in))
    && at_location loc c
    && of_users users c

unfoldable pub replicated_enough : Bool → List Content → M Store (List Content)
replicated_enough all [] = pure []
replicated_enough all (c ∷ conts) = content_is_properly_replicated c.id >>= λ r.
    replicated_enough all conts >>= λ rest.
    pure (if all || leb_ℤ c.replication (pos r.good) then c ∷ rest else rest)

unfoldable pub get_removal_candidates : Bool → Option Location → List ℕ → M Store (List Content)
get_removal_candidates all loc users =
    query (λ s. keep (is_removable loc users) s.contents) >>= replicated_enough all

unfoldable pub get_last_access_for_content : Content → M Store ℕ
get_last_access_for_content cont =
    query (λ s. first (λ o. o.cid == cont.cid) s.objects) >>= or_not_found >>= λ o.
    pure o.last_access

-- A content whose last access is not found is left out, with a line in the log.
unfoldable pub accesses : List Content → M Store (List (Content × ℕ))
accesses [] w = (ok [], w)
accesses (c ∷ conts) w =
    let r = get_last_access_for_content c w in
    let rest = accesses conts r.1 in
    elim r.0 [
      | err e ↦ rest
      | ok t ↦ elim rest.0 [ ok cs ↦ (ok ((c, t) ∷ cs), rest.1) | err e ↦ (err e, rest.1) ]
    ]

-- `sort.Slice` leaves the order of equal times open; here they keep their order.
unfoldable pub get_last_accesses : List Content → M Store (List (Content × ℕ))
get_last_accesses conts = accesses conts >>= λ offs. pure (sort_stable (λ a b. ltb a.1 b.1) offs)

-- The contents to remove, and the bytes that remain to be freed.
abbrev pub grab : ℤ → List (Content × ℕ) → List Content × ℤ
grab remaining [] = ([], remaining)
grab remaining ((c, t) ∷ offs) =
    let left = remaining -ℤ c.size in
    let rest = grab left offs in if leb_ℤ left (pos 0) then (c ∷ [], left) else (c ∷ rest.0, rest.1)

-- What is to be deleted here, and what the shuttles are told to unpin.
pub record Gathered : Type 0 where
  pub local : List ℕ
  pub remote : List (ℕ × ℕ)

abbrev pub gather : Location → List ℕ → Gathered → Gathered
gather local_node ids g = record g { local = g.local ++ ids }
gather (shuttle h) ids g = record g { remote = g.remote ++ map (λ id. (h, id)) ids }

abbrev pub mark_content : (Content → Bool) → Store → Store
mark_content p s = record s { contents = update p (λ c. record c { offloaded = true }) s.contents }

abbrev pub mark_refs : (ObjRef → Bool) → Store → Store
mark_refs p s = record s { obj_refs = update p (λ r. record r { offloaded = 1 }) s.obj_refs }

abbrev pub in_aggregate : ℕ → Content → Bool
in_aggregate id c = c.aggregated_in == id

abbrev pub ids_in_aggregate : ℕ → Store → List ℕ
ids_in_aggregate id s = map (λ c. c.id) (keep (in_aggregate id) s.contents)

-- The contents of an aggregate.
unfoldable pub offload_children : ℕ → M Store (List ℕ)
offload_children c = do
  execute (mark_content (in_aggregate c))
  execute (λ s. mark_refs (λ r. elem r.content (ids_in_aggregate c s)) s)
  query (ids_in_aggregate c)

unfoldable pub offload_found : ℕ → Gathered → Content → M Store Gathered
offload_found c g cont =
    if ltb 0 cont.aggregated_in then throw (failure "cannot offload aggregated content") else (do
      execute (mark_content (has_id c))
      execute (mark_refs (of_pin c))
      if cont.aggregate
          then (do
            children ← offload_children c
            pure (gather cont.location (cont.id ∷ children) g))
          else pure (gather cont.location (cont.id ∷ []) g))

unfoldable pub offload_each : List ℕ → Gathered → M Store Gathered
offload_each [] g = pure g
offload_each (c ∷ conts) g = get_content c >>= offload_found c g >>= offload_each conts

-- `deleteIfNotPinnedLock`, with its answer.
unfoldable pub delete_if_not_pinned_lock : Object → M Store Bool
delete_if_not_pinned_lock o = query (λ s. count (same_object o) s.objects) >>= λ rows.
    if rows == 0 then execute (delete_block o.cid) >>= (λ _. pure true) else pure false

unfoldable pub delete_objects : List Object → ℕ → M Store ℕ
delete_objects [] n = pure n
delete_objects (o ∷ objs) n =
    delete_if_not_pinned_lock o >>= λ del. delete_objects objs (if del then suc n else n)

unfoldable pub delete_local : List ℕ → ℕ → M Store ℕ
delete_local [] n = pure n
delete_local (c ∷ conts) n =
    query (objects_for_pin c) >>= λ objs. delete_objects objs n >>= delete_local conts

-- The commands to the shuttles go out in between; that they fail is only logged.
unfoldable pub offload_contents : List ℕ → M Store ℕ
offload_contents conts =
    offload_each conts (record { local = []; remote = [] }) >>= λ g. delete_local g.local 0

-- The answer of `ClearUnused`: the space freed, by its own account, the contents chosen, and the number
-- of blocks removed, if that did not fail.
pub record CollectionResult : Type 0 where
  pub space_freed : ℤ
  pub contents_freed : List Content
  pub blocks_removed : Option ℕ

unfoldable pub offload_chosen : List Content → M Store (Option ℕ)
offload_chosen chosen w =
    let r = offload_contents (map (λ c. c.id) chosen) w in
    elim r.0 [ ok n ↦ (ok (some n), r.1) | err e ↦ (ok none, r.1) ]

unfoldable pub clear_chosen : ℤ → Bool → List (Content × ℕ) → M Store CollectionResult
clear_chosen request dryrun offs =
    let g = grab request offs in
    let removed = if dryrun then pure (some 0) else offload_chosen g.0 in
    removed >>= λ n.
    pure (record { space_freed = request -ℤ g.1; contents_freed = g.0; blocks_removed = n })

unfoldable pub clear_unused : ℤ → Option Location → List ℕ → Bool → M Store CollectionResult
clear_unused request loc users dryrun =
    get_removal_candidates false loc users >>= get_last_accesses >>= clear_chosen request dryrun
