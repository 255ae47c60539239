-- ===== src/Contents/Gc.antt =====
-- content/gc.go: removing a pin, with the objects and blocks that nothing else needs. The content lock
-- is taken by each deletion and not across them; a handler runs here without another in between.
pub mod Safety
use estuary.Prelude.{
  ℕ, ◌==◌, Bool, true, false, ◌&&◌, ◌||◌, not, if◌then◌else◌, List, [], ◌∷◌, Option, none, some,
  map, keep, elem,
}
use estuary.Prelude.Int.{ℤ, ◌-ℤ◌}
use estuary.Db.{M, pure, ◌>>=◌, ◌>>◌, query, execute, transaction}
use estuary.Db.Table.{update, delete, first, count}
use estuary.Model.{Content, Object, ObjRef, Store}
use estuary.Model.Lookup.{has_id, get_content}

abbrev pub of_pin : ℕ → ObjRef → Bool
of_pin cont r = r.content == cont

-- The row that a left join gives where there is no object.
abbrev pub no_object : Object
no_object = record { id = 0; cid = 0; size = 0; reads = 0; last_access = 0 }

abbrev pub joined_object : Option Object → Object
joined_object none = no_object
joined_object (some o) = o

-- The objects of a content: its references, joined with the objects.
abbrev pub objects_for_pin : ℕ → Store → List Object
objects_for_pin cont s =
    map (λ r. joined_object (first (λ o. o.id == r.object) s.objects))
      (keep (of_pin cont) s.obj_refs)

abbrev pub delete_refs : ℕ → Store → Store
delete_refs cont s = record s { obj_refs = delete (of_pin cont) s.obj_refs }

-- An object of the list that no reference names.
abbrev pub is_unreferenced : List ℕ → List ObjRef → Object → Bool
is_unreferenced ids refs o = count (λ r. r.object == o.id) refs == 0 && elem o.id ids

abbrev pub clear_unreferenced : List ℕ → Store → Store
clear_unreferenced ids s = record s { objects = delete (is_unreferenced ids s.obj_refs) s.objects }

unfoldable pub clear_unreferenced_objects : List Object → M Store (Unit {0})
clear_unreferenced_objects objs = execute (clear_unreferenced (map (λ o. o.id) objs))

abbrev pub same_object : Object → Object → Bool
same_object o x = x.id == o.id || x.cid == o.cid

abbrev pub delete_block : ℕ → Store → Store
delete_block cid s = record s { blocks = delete (λ b. b == cid) s.blocks }

-- `deleteIfNotPinnedLock`: the block goes if no object is it or has its CID.
unfoldable pub delete_if_not_pinned : Object → M Store (Unit {0})
delete_if_not_pinned o = do
  rows ← query (λ s. count (same_object o) s.objects)
  if rows == 0 then execute (delete_block o.cid) else pure tt

unfoldable pub delete_all_not_pinned : List Object → M Store (Unit {0})
delete_all_not_pinned [] = pure tt
delete_all_not_pinned (o ∷ objs) = delete_if_not_pinned o >> delete_all_not_pinned objs

abbrev pub delete_content : ℕ → Store → Store
delete_content id s = record s { contents = delete (has_id id) s.contents }

abbrev pub shrink_aggregate : ℕ → ℤ → Store → Store
shrink_aggregate id size s = record s {
  contents = update (has_id id) (λ c. record c { size = c.size -ℤ size }) s.contents;
}

-- The last transaction of `UnpinContent`.
unfoldable pub delete_pin : Content → M Store (Unit {0})
delete_pin pin = do
  execute (delete_content pin.id)
  if pin.aggregated_in == 0 then pure tt else execute (shrink_aggregate pin.aggregated_in pin.size)

unfoldable pub unpin_content : ℕ → M Store (Unit {0})
unpin_content contid = do
  pin ← get_content contid
  objs ← query (objects_for_pin pin.id)
  execute (delete_refs pin.id)
  clear_unreferenced_objects objs
  delete_all_not_pinned objs
  transaction (delete_pin pin)
