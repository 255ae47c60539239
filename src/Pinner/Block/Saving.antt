-- ===== src/Pinner/Block/Saving.antt =====
-- What saving the objects of a pinned DAG leaves in the tables.
use estuary.Prelude.{
  ℕ, suc, ◌+◌, ◌-◌, ◌%◌, ◌^◌, ◌≡◌, refl, sym, subst, ap, ◌∙◌, ◌==◌, ◌&&◌, ltb, true, false,
  if◌then◌else◌, List, [], ◌∷◌, ◌++◌, map, sum, length, some, inl, inr, ◌⊎◌,
}
use estuary.Prelude.Int.{ℤ, pos, negsuc, ◌<ℤ◌, ◌≤ℤ◌}
use estuary.Db.{ok, quiet}
use estuary.Db.Rows.{Gets, insert_new-Gets, update-map}
use estuary.Model.{Content, Object, ObjRef, Location, StagingZoneQueue, SplitQueue, Store, Config}
use estuary.Model.Lookup.{content_of}
use estuary.Deal.Queue.Admission.{waiting_row}
use estuary.Pinner.Block.{
  Node, activate, content_size, count_nodes, object_rows, add_objects_to_database,
}
use estuary.Pinner.Block.Routing.{saved, add_objects_to_database-Routes}

abbrev total : List Node → ℕ
total [] = 0
total (o ∷ objects) = o.size + total objects

-- A number as an int64.
abbrev wrapped : ℕ → ℤ
wrapped n = if ltb (n % 2 ^ 64) (2 ^ 63) then pos (n % 2 ^ 64) else negsuc (2 ^ 64 - 1 - n % 2 ^ 64)

-- The rows of the objects and of the references to them, with the keys from `next` on.
abbrev objects_from : ℕ → List Node → List Object
objects_from next [] = []
objects_from next (o ∷ objects) =
    record { id = next; cid = o.cid; size = o.size; reads = 0; last_access = 0 }
    ∷ objects_from (suc next) objects

abbrev refs_from : ℕ → ℕ → List Node → List ObjRef
refs_from cont next [] = []
refs_from cont next (o ∷ objects) =
    record { content = cont; object = next; offloaded = 0 } ∷ refs_from cont (suc next) objects

abbrev staging_row : Content → ℕ → StagingZoneQueue
staging_row cont now = record {
  user_id = cont.user_id;
  cont_id = cont.id;
  failing = false;
  next_attempt_at = now;
  is_back_filled = false;
}

abbrev split_row : Content → ℕ → SplitQueue
split_row cont now = record {
  user_id = cont.user_id;
  cont_id = cont.id;
  failing = false;
  attempted = 0;
  next_attempt_at = now;
}

module _ (cfg : Config) (cont row : Content) (size : ℤ) (now : ℕ) (s s' : Store) where
  abbrev ToStaging : Type 0
  ToStaging =
      (size <ℤ cfg.min_size)
      × (Gets (λ r. r.cont_id == cont.id) (staging_row cont now) s.staging_zone_queue
            s'.staging_zone_queue
          × ((s'.split_queue ≡ s.split_queue) × (s'.deal_queue ≡ s.deal_queue)))

  abbrev ToSplit : Type 0
  ToSplit =
      (cfg.max_size <ℤ size)
      × (Gets (λ r. r.cont_id == cont.id) (split_row cont now) s.split_queue s'.split_queue
          × ((s'.staging_zone_queue ≡ s.staging_zone_queue) × (s'.deal_queue ≡ s.deal_queue)))

  abbrev ToDeals : Type 0
  ToDeals =
      ((cfg.min_size ≤ℤ size) × (size ≤ℤ cfg.max_size))
      × (Gets (λ r. r.cont_id == row.id) (waiting_row row now) s.deal_queue s'.deal_queue
          × ((s'.staging_zone_queue ≡ s.staging_zone_queue) × (s'.split_queue ≡ s.split_queue)))

-- The tables after the objects of a content are saved.
pub record Saved (cfg : Config) (cont row : Content) (objects : List Node) (loc : Location)
    (now : ℕ) (s s' : Store) : Type 0 where
  contents :
      s'.contents
      ≡ map
          (λ c.
            if c.id == cont.id
            then record c {
              active = true;
              size = wrapped (total objects);
              pinning = false;
              location = loc;
            }
            else c)
          s.contents
  objects_added : s'.objects ≡ s.objects ++ objects_from s.next_object objects
  refs_added : s'.obj_refs ≡ s.obj_refs ++ refs_from cont.id s.next_object objects
  next : s'.next_object ≡ s.next_object + length objects
  queue :
      ToStaging cfg cont row (wrapped (total objects)) now s s'
      ⊎ (ToSplit cfg cont row (wrapped (total objects)) now s s'
          ⊎ ToDeals cfg cont row (wrapped (total objects)) now s s')
  others : s' ≡ record s {
    contents = s'.contents;
    objects = s'.objects;
    obj_refs = s'.obj_refs;
    next_object = s'.next_object;
    staging_zone_queue = s'.staging_zone_queue;
    split_queue = s'.split_queue;
    deal_queue = s'.deal_queue;
  }

total-sum : (objects : List Node) → sum (map (λ o. o.size) objects) ≡ total objects
total-sum [] = refl
total-sum (o ∷ objects) = rw (total-sum objects) refl

rows_same : (next : ℕ) (objects : List Node) → object_rows next objects ≡ objects_from next objects
rows_same next [] = refl
rows_same next (o ∷ objects) = rw (rows_same (suc next) objects) refl

refs_same :
    (cont next : ℕ) (objects : List Node)
    → map
        (λ (id : ℕ). record { content = cont; object = id; offloaded = 0 })
        (map (λ o. o.id) (object_rows next objects))
      ≡ refs_from cont next objects
refs_same cont next [] = refl
refs_same cont next (o ∷ objects) = rw (refs_same cont (suc next) objects) refl

count_same : (objects : List Node) → count_nodes objects ≡ length objects
count_same [] = refl
count_same (o ∷ objects) = rw (count_same objects) refl

size_same : (objects : List Node) → content_size objects ≡ wrapped (total objects)
size_same objects = ap wrapped (total-sum objects)

module _ (cfg : Config) (cont row : Content) (objects : List Node) (loc : Location) (now : ℕ)
    (s : Store) where
  abbrev before : Store
  before = saved cont objects loc s

  filed-Saved :
      (s' : Store)
      → s'.contents ≡ before.contents
      → s'.objects ≡ before.objects
      → s'.obj_refs ≡ before.obj_refs
      → s'.next_object ≡ before.next_object
      → (s' ≡ record s {
        contents = s'.contents;
        objects = s'.objects;
        obj_refs = s'.obj_refs;
        next_object = s'.next_object;
        staging_zone_queue = s'.staging_zone_queue;
        split_queue = s'.split_queue;
        deal_queue = s'.deal_queue;
      })
      → (ToStaging cfg cont row (content_size objects) now s s'
          ⊎ (ToSplit cfg cont row (content_size objects) now s s'
              ⊎ ToDeals cfg cont row (content_size objects) now s s'))
      → Saved cfg cont row objects loc now s s'
  filed-Saved s' c o r n rest q = record {
    contents =
        c
        ∙ update-map (λ c. c.id == cont.id) (activate (content_size objects) loc) s.contents
        ∙ ap
            (λ (z : ℤ).
              map
                (λ c.
                  if c.id == cont.id
                  then record c { active = true; size = z; pinning = false; location = loc }
                  else c)
                s.contents)
            (size_same objects);
    objects_added = o ∙ ap (λ l. s.objects ++ l) (rows_same s.next_object objects);
    refs_added = r ∙ ap (λ l. s.obj_refs ++ l) (refs_same cont.id s.next_object objects);
    next = n ∙ ap (λ k. s.next_object + k) (count_same objects);
    queue =
        subst
          (λ z.
            ToStaging cfg cont row z now s s'
            ⊎ (ToSplit cfg cont row z now s s' ⊎ ToDeals cfg cont row z now s s'))
          (size_same objects) q;
    others = rest;
  }

-- Where no statement fails, saving the objects of a content that is in no aggregate and is no root of a
-- split succeeds. The content is active, at the location, with the sum of the sizes of its objects as an
-- int64; each object has a new row and a reference; and the content goes into one queue by that size,
-- with a fresh row unless it is there: the staging queue below MinSize, the split queue above MaxSize,
-- and the deal queue in between. Nothing else changes.
pub add_objects_to_database-Saves :
    (cfg : Config) (cont row : Content) (objects : List Node) (loc : Location) (s : Store)
    (t now : ℕ)
    → content_of cont.id s ≡ some row
    → row.aggregated_in ≡ 0
    → (row.dag_split && row.split_from == 0) ≡ false
    → let r = add_objects_to_database cfg cont objects loc (quiet s t now) in
      (r.0 ≡ ok tt) × Saved cfg cont row objects loc now s r.1.store
add_objects_to_database-Saves cfg cont row objects loc s t now h a b =
    let s1 = saved cont objects loc s in
    let new = activate (content_size objects) loc row in
    let file = filed-Saved cfg cont row objects loc now s in
    let Is = Saved cfg cont row objects loc now s in
    let (good, which) = add_objects_to_database-Routes cfg cont row objects loc s t now h a b in
    (
      good,
      elim which [
        | inl (small, e) ↦ subst Is (sym e) (
            file (estuary.Staging.Queue.insert_task cont false now s1) refl refl refl refl refl (
              inl (
                small,
                (
                  insert_new-Gets (λ r. r.cont_id == cont.id) (staging_row cont now)
                      s.staging_zone_queue,
                  (refl, refl),
                ),
              )))
        | inr (inl (large, e)) ↦ subst Is (sym e) (
            file (estuary.Split.Queue.insert_task cont.id cont.user_id now s1) refl refl refl refl
              refl
              (inr (
                inl (
                  large,
                  (
                    insert_new-Gets (λ r. r.cont_id == cont.id) (split_row cont now) s.split_queue,
                    (refl, refl),
                  ),
                ))))
        | inr (inr (fits, e)) ↦ subst Is (sym e) (
            file (estuary.Deal.Queue.insert_task new now s1) refl refl refl refl refl (
              inr (
                inr (
                  fits,
                  (
                    insert_new-Gets (λ r. r.cont_id == row.id) (waiting_row row now) s.deal_queue,
                    (refl, refl),
                  ),
                ))))
      ],
    )
