-- ===== src/Contents/Offloading/Blocks.antt =====
-- Offloading leaves every block where it is.
use estuary.Prelude.{
  ℕ, ◌<◌, ◌≡◌, refl, sym, subst, inl, inr, Bool, true, false, Bool-cases, if◌then◌else◌, List, [],
  ◌∷◌, All, All-imp, Any, Any-imp, map, keep, elem, arith, ltb, ◌==◌,
}
use estuary.Db.{World, pure, ◌>>=◌, execute}
use estuary.Db.Keeps.{
  Keeps, pure-Keeps, execute-Keeps, >>=-Keeps, query-Keeps, query_bind-Keeps, if-Keeps,
}
use estuary.Db.Table.{first, count, count_pos, update-All, keep-All}
use estuary.Model.{Content, Object, ObjRef, Store}
use estuary.Model.Lookup.{has_id, get_content, get_content-Keeps}
use estuary.Contents.Gc.{objects_for_pin, same_object, of_pin, joined_object, delete_block}
use estuary.Contents.Offloading.{
  Gathered, mark_content, mark_refs, in_aggregate, ids_in_aggregate, offload_children,
  offload_found, offload_each, delete_if_not_pinned_lock, delete_objects, delete_local,
  offload_contents, gather,
}

-- The object that a reference names is in the table.
abbrev pub HasObject : List Object → ℕ → Type 0
HasObject objects id = Any (λ o. o.id ≡ id) objects

module _ (objects : List Object) (blocks : List ℕ) where
  record Stays (s : Store) : Type 0 where
    same_objects : s.objects ≡ objects
    same_blocks : s.blocks ≡ blocks
    references : All (λ (r : ObjRef). HasObject objects r.object) s.obj_refs

  mark_content-Stays : (p : Content → Bool) (s : Store) → Stays s → Stays (mark_content p s)
  mark_content-Stays p s h = record {
    same_objects = h.same_objects;
    same_blocks = h.same_blocks;
    references = h.references;
  }

  mark_refs-Stays : (p : ObjRef → Bool) (s : Store) → Stays s → Stays (mark_refs p s)
  mark_refs-Stays p s h = record {
    same_objects = h.same_objects;
    same_blocks = h.same_blocks;
    references =
        update-All (λ (r : ObjRef). HasObject objects r.object) p _ s.obj_refs (λ r k e. k)
          h.references;
  }

  offload_children-Stays : (c : ℕ) → Keeps Stays (offload_children c)
  unfolding offload_children
  offload_children-Stays c =
      >>=-Keeps Stays (execute (mark_content (in_aggregate c))) _
        (execute-Keeps Stays _ (mark_content-Stays (in_aggregate c)))
        (λ _.
          >>=-Keeps Stays (execute (λ s. mark_refs (λ r. elem r.content (ids_in_aggregate c s)) s))
            _ (execute-Keeps Stays _ (λ s. mark_refs-Stays _ s))
            (λ _. query-Keeps Stays (ids_in_aggregate c)))

  offload_found-Stays :
      (c : ℕ) (g : Gathered) (cont : Content) → Keeps Stays (offload_found c g cont)
  unfolding offload_found
  offload_found-Stays c g cont =
      if-Keeps Stays (ltb 0 cont.aggregated_in) _ _ (λ w h. h)
        (>>=-Keeps Stays (execute (mark_content (has_id c))) _
          (execute-Keeps Stays _ (mark_content-Stays (has_id c)))
          (λ _.
            >>=-Keeps Stays (execute (mark_refs (of_pin c))) _
              (execute-Keeps Stays _ (mark_refs-Stays (of_pin c)))
              (λ _.
                if-Keeps Stays cont.aggregate _ _
                  (>>=-Keeps Stays (offload_children c) _ (offload_children-Stays c)
                    (λ children. pure-Keeps Stays (gather cont.location (cont.id ∷ children) g)))
                  (pure-Keeps Stays (gather cont.location (cont.id ∷ []) g)))))

  offload_each-Stays : (conts : List ℕ) (g : Gathered) → Keeps Stays (offload_each conts g)
  unfolding offload_each
  offload_each-Stays [] g = pure-Keeps Stays g
  offload_each-Stays (c ∷ conts) g =
      >>=-Keeps Stays (get_content c >>= offload_found c g) (offload_each conts)
        (>>=-Keeps Stays (get_content c) (offload_found c g) (get_content-Keeps Stays c)
          (offload_found-Stays c g))
        (offload_each-Stays conts)

  -- An object that is in the table is counted, so nothing is deleted.
  lock-Stays : (o : Object) → HasObject objects o.id → Keeps Stays (delete_if_not_pinned_lock o)
  unfolding delete_if_not_pinned_lock
  lock-Stays o h =
      query_bind-Keeps Stays (λ s. count (same_object o) s.objects) _
        (λ s k.
          let pos : 0 < count (same_object o) s.objects = count_pos (same_object o) s.objects (
            subst (Any (λ x. same_object o x ≡ true)) (sym k.same_objects) (
              Any-imp (λ x. x.id ≡ o.id) (λ x. same_object o x ≡ true) objects
                (λ x e. ground (arith, e)) h)) in
          let none_missing : (count (same_object o) s.objects == 0) ≡ false = ground (arith, pos) in
          subst
            (λ b.
              Keeps Stays
                (if b then execute (delete_block o.cid) >>= (λ _. pure true) else pure false))
            (sym none_missing) (pure-Keeps Stays false))

  delete_objects-Stays :
      (objs : List Object) (n : ℕ)
      → All (λ o. HasObject objects o.id) objs
      → Keeps Stays (delete_objects objs n)
  unfolding delete_objects
  delete_objects-Stays [] n h = pure-Keeps Stays n
  delete_objects-Stays (o ∷ objs) n h =
      >>=-Keeps Stays (delete_if_not_pinned_lock o) _ (lock-Stays o h.0)
        (λ del. delete_objects-Stays objs _ h.1)

All-map :
    {A B : Type 0} (P : B → Type 0) (f : A → B) (xs : List A)
    → All (λ x. P (f x)) xs
    → All P (map f xs)
All-map P f [] h = tt
All-map P f (x ∷ xs) h = (h.0, All-map P f xs h.1)

joined_known :
    (id : ℕ) (os objects : List Object)
    → HasObject os id
    → HasObject objects id
    → HasObject objects (joined_object (first (λ o. o.id == id) os)).id
joined_known id [] objects h k = absurd h
joined_known id (o ∷ os) objects h k = elim (Bool-cases (o.id == id)) [
  | inl e ↦ let q : id ≡ o.id = ground (arith, e) in rw e (subst (HasObject objects) q k)
  | inr e ↦
      rw e (
        joined_known id os objects (elim h [ inl p ↦ absurd (ground (arith, e, p)) | inr a ↦ a ]) k)
]

objects_known :
    (objects : List Object) (c : ℕ) (s : Store)
    → s.objects ≡ objects
    → All (λ (r : ObjRef). HasObject objects r.object) s.obj_refs
    → All (λ o. HasObject objects o.id) (objects_for_pin c s)
objects_known objects c s e h =
    All-map (λ o. HasObject objects o.id)
      (λ (r : ObjRef). joined_object (first (λ o. o.id == r.object) s.objects))
      (keep (of_pin c) s.obj_refs)
      (All-imp (λ (r : ObjRef). HasObject objects r.object) _ (keep (of_pin c) s.obj_refs)
        (λ r k.
          joined_known r.object s.objects objects (subst (λ os. HasObject os r.object) (sym e) k) k)
        (keep-All (λ (r : ObjRef). HasObject objects r.object) (of_pin c) s.obj_refs h))

module _ (objects : List Object) (blocks : List ℕ) where
  delete_local-Stays :
      (conts : List ℕ) (n : ℕ) → Keeps (Stays objects blocks) (delete_local conts n)
  unfolding delete_local
  delete_local-Stays [] n = pure-Keeps (Stays objects blocks) n
  delete_local-Stays (c ∷ conts) n =
      query_bind-Keeps (Stays objects blocks) (objects_for_pin c) _ (λ s h.
        >>=-Keeps (Stays objects blocks) (delete_objects (objects_for_pin c s) n)
          (delete_local conts)
          (delete_objects-Stays objects blocks (objects_for_pin c s) n
            (objects_known objects c s h.same_objects h.references))
          (delete_local-Stays conts))

  offload_contents-Stays : (conts : List ℕ) → Keeps (Stays objects blocks) (offload_contents conts)
  unfolding offload_contents
  offload_contents-Stays conts =
      let none_yet : Gathered = record { local = []; remote = [] } in
      >>=-Keeps (Stays objects blocks) (offload_each conts none_yet) (λ g. delete_local g.local 0)
        (offload_each-Stays objects blocks conts none_yet) (λ g. delete_local-Stays g.local 0)

-- Offloading contents deletes no block, whichever statements fail, where the object of every reference
-- is in the table: the rows of the objects stay, and a block with an object is taken for one that is
-- still pinned.
pub offload_contents-blocks :
    (conts : List ℕ) (w : World Store)
    → All (λ (r : ObjRef). HasObject w.store.objects r.object) w.store.obj_refs
    → (offload_contents conts w).1.store.blocks ≡ w.store.blocks
offload_contents-blocks conts w h =
    let r =
      offload_contents-Stays w.store.objects w.store.blocks conts w
        (record { same_objects = refl; same_blocks = refl; references = h }) in
    r.same_blocks
