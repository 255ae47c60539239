-- ===== src/Pinner/Block.antt =====
-- pinner/block/block.go: saving the objects of a pinned DAG, and the queue that its content goes to.
pub mod Routing
pub mod Saving
use estuary.Prelude.{
  ℕ, suc, ◌+◌, ◌-◌, ◌%◌, ◌^◌, ◌==◌, ltb, Bool, true, false, if◌then◌else◌, List, [], ◌∷◌, ◌++◌, sum,
  map,
}
use estuary.Prelude.Int.{ℤ, pos, negsuc, ltb_ℤ}
use estuary.Db.{M, pure, ◌>>=◌, ◌>>◌, statement, execute, transaction}
use estuary.Db.Table.{update}
use estuary.Model.{Content, Object, ObjRef, Location, Store, Config}
use estuary.Model.Lookup.{has_id}
use estuary.Pinner.Status.{update_content}

-- `int64(n)`, with its wrap-around.
abbrev pub int64 : ℕ → ℤ
int64 n = let m = n % 2 ^ 64 in if ltb m (2 ^ 63) then pos m else negsuc (2 ^ 64 - 1 - m)

-- A node of the DAG: its CID and the length of its data.
pub record Node : Type 0 where
  pub cid : ℕ
  pub size : ℕ

-- The int64 sum of the sizes.
abbrev pub content_size : List Node → ℤ
content_size objects = int64 (sum (map (λ o. o.size) objects))

-- The rows for the objects, with the keys from `next` on.
abbrev pub object_rows : ℕ → List Node → List Object
object_rows next [] = []
object_rows next (o ∷ objects) =
    record { id = next; cid = o.cid; size = o.size; reads = 0; last_access = 0 }
    ∷ object_rows (suc next) objects

abbrev pub count_nodes : List Node → ℕ
count_nodes [] = 0
count_nodes (o ∷ objects) = suc (count_nodes objects)

-- The keys are the database's answer.
abbrev pub create_objects : List Node → Store → List ℕ × Store
create_objects objects s = (
  map (λ o. o.id) (object_rows s.next_object objects),
  record s {
    objects = s.objects ++ object_rows s.next_object objects;
    next_object = s.next_object + count_nodes objects;
  },
)

abbrev pub create_refs : ℕ → List ℕ → Store → Store
create_refs cont_id ids s = record s {
  obj_refs = s.obj_refs ++ map (λ id. record { content = cont_id; object = id; offloaded = 0 }) ids;
}

abbrev pub activate : ℤ → Location → Content → Content
activate size loc c = record c { active = true; size = size; pinning = false; location = loc }

-- The queue that a content goes to by its size.
unfoldable pub route : Config → Content → ℤ → M Store (Unit {0})
route cfg cont size =
    if ltb_ℤ size cfg.min_size
    then estuary.Staging.Queue.queue_content cont false
    else if ltb_ℤ cfg.max_size size
    then estuary.Split.Queue.queue_content cont.id cont.user_id
    else estuary.Deal.Queue.queue_content cfg cont.id

-- The body of the transaction in `addObjectsToDatabase`.
unfoldable pub save_objects : Config → Content → List Node → Location → M Store (Unit {0})
save_objects cfg cont objects loc = do
  ids ← statement (create_objects objects)
  execute (create_refs cont.id ids)
  execute (update_content cont.id (activate (content_size objects) loc))
  route cfg cont (content_size objects)

unfoldable pub add_objects_to_database :
    Config → Content → List Node → Location → M Store (Unit {0})
add_objects_to_database cfg cont objects loc = transaction (save_objects cfg cont objects loc)
