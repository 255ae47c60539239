-- ===== src/Contents/Gc/Safety.antt =====
-- Unpinning a content takes nothing from the others.
use estuary.Prelude.{
  ℕ, suc, ◌≡◌, refl, sym, subst, ◌==◌, ==_self, List, [], ◌∷◌, Bool, true, false, Bool-cases, inl,
  inr, arith, All, Any, Any-imp, map,
}
use estuary.Db.Run.{bind_ok, bind_err, query-quiet, query_failed}
use estuary.Model.Lookup.{get_content, get_content-Keeps}
use estuary.Db.{Result, World, db_error, query, execute, statement}
use estuary.Db.Table.{delete, count, count_pos, delete-All}
use estuary.Db.Keeps.{
  Keeps, pure-Keeps, execute-Keeps, query-Keeps, >>=-Keeps, if-Keeps, transaction-Keeps,
}
use estuary.Model.{Content, Object, ObjRef, Store}
use estuary.Contents.Gc.{
  unpin_content, delete_refs, of_pin, clear_unreferenced, clear_unreferenced_objects,
  is_unreferenced, same_object, delete_block, delete_if_not_pinned, delete_all_not_pinned,
  delete_content, shrink_aggregate, delete_pin, objects_for_pin,
}

-- The object that a reference names is there, and so is its block.
abbrev IsHeld : Store → ObjRef → Type 0
IsHeld s r = Any (λ o. (o.id ≡ r.object) × Any (λ b. b ≡ o.cid) s.blocks) s.objects

-- Every reference of every content is held.
abbrev pub AllHeld : Store → Type 0
AllHeld s = All (IsHeld s) s.obj_refs

module _ {A : Type 0} where
  -- A row that stays after a DELETE.
  delete-Any :
      (P : A → Type 0) (p : A → Bool) (xs : List A)
      → ((x : A) → P x → p x ≡ false)
      → Any P xs
      → Any P (delete p xs)
  delete-Any P p (x ∷ xs) k (inl h) = rw (k x h) (inl h)
  delete-Any P p (x ∷ xs) k (inr h) = elim (Bool-cases (p x)) [
    | inl e ↦ rw e (delete-Any P p xs k h)
    | inr e ↦ rw e (inr (delete-Any P p xs k h))
  ]
  delete-Any P p [] k h = absurd h

  each :
      (P Q : A → Type 0) (xs : List A)
      → ((x : A) → Any (λ y. y ≡ x) xs → P x → Q x)
      → All P xs
      → All Q xs
  each P Q [] k h = tt
  each P Q (x ∷ xs) k h = (k x (inl refl) h.0, each P Q xs (λ y a. k y (inr a)) h.1)

  both : (P Q : A → Type 0) (xs : List A) → All P xs → Any Q xs → Any (λ x. P x × Q x) xs
  both P Q (x ∷ xs) h (inl q) = inl (h.0, q)
  both P Q (x ∷ xs) h (inr a) = inr (both P Q xs h.1 a)
  both P Q [] h a = absurd a

  -- A count of no rows: none passes the test.
  none_counted : (p : A → Bool) (xs : List A) → count p xs ≡ 0 → All (λ x. p x ≡ false) xs
  none_counted p [] h = tt
  none_counted p (x ∷ xs) h = elim (Bool-cases (p x)) [
    | inl e ↦ absurd (ground (arith, e, h))
    | inr e ↦ (e, none_counted p xs (ground (arith, e, h)))
  ]

delete_refs-AllHeld : (cont : ℕ) (s : Store) → AllHeld s → AllHeld (delete_refs cont s)
delete_refs-AllHeld cont s h = delete-All (IsHeld s) (of_pin cont) s.obj_refs h

-- An object that a reference names is not unreferenced.
referenced :
    (ids : List ℕ) (refs : List ObjRef) (r : ObjRef) (o : Object)
    → Any (λ y. y ≡ r) refs
    → o.id ≡ r.object
    → is_unreferenced ids refs o ≡ false
referenced ids refs r o a e =
    let hit =
      count_pos (λ y. y.object == o.id) refs
        (Any-imp (λ y. y ≡ r) (λ y. (y.object == o.id) ≡ true) refs
          (λ y p. rw (p, e) (==_self r.object)) a) in
    let nz : (count (λ y. y.object == o.id) refs == 0) ≡ false = ground (arith, hit) in rw nz refl

clear-AllHeld : (ids : List ℕ) (s : Store) → AllHeld s → AllHeld (clear_unreferenced ids s)
clear-AllHeld ids s h =
    each (IsHeld s) (IsHeld (clear_unreferenced ids s)) s.obj_refs
      (λ r a.
        delete-Any (λ o. (o.id ≡ r.object) × Any (λ b. b ≡ o.cid) s.blocks)
          (is_unreferenced ids s.obj_refs) s.objects (λ o k. referenced ids s.obj_refs r o a k.0))
      h

other_cid : (o x : Object) (b : ℕ) → same_object o x ≡ false → b ≡ x.cid → (b == o.cid) ≡ false
other_cid o x b h e = ground (arith, h, e)

-- The block of a CID that no object has.
block-AllHeld :
    (o : Object) (s : Store)
    → count (same_object o) s.objects ≡ 0
    → AllHeld s
    → AllHeld (delete_block o.cid s)
block-AllHeld o s none h =
    each (IsHeld s) (IsHeld (delete_block o.cid s)) s.obj_refs
      (λ r _ held.
        Any-imp
          (λ x. (same_object o x ≡ false) × ((x.id ≡ r.object) × Any (λ b. b ≡ x.cid) s.blocks))
          (λ x. (x.id ≡ r.object) × Any (λ b. b ≡ x.cid) (delete_block o.cid s).blocks) s.objects
          (λ x k. (
            k.1.0,
            delete-Any (λ b. b ≡ x.cid) (λ b. b == o.cid) s.blocks (λ b e. other_cid o x b k.0 e)
                k.1.1,
          ))
          (both (λ x. same_object o x ≡ false) _ s.objects
            (none_counted (same_object o) s.objects none) held))
      h

drop_block-AllHeld :
    (o : Object) (v : World Store)
    → count (same_object o) v.store.objects ≡ 0
    → AllHeld v.store
    → AllHeld (execute (delete_block o.cid) v).1.store
unfolding execute statement
drop_block-AllHeld o v z k = elim (Bool-cases (v.fails v.tick)) [
  | inl e ↦ rw e k
  | inr e ↦ rw e (block-AllHeld o v.store z k)
]

delete_if_not_pinned-Keeps : (o : Object) → Keeps AllHeld (delete_if_not_pinned o)
unfolding delete_if_not_pinned
delete_if_not_pinned-Keeps o w h = elim (Bool-cases (w.fails w.tick)) [
  | inl e ↦
      subst (λ (r : Result (Unit {0}) × World Store). AllHeld r.1.store)
        (sym (
          bind_err (query (λ s. count (same_object o) s.objects)) _ w db_error _
            (query_failed (λ s. count (same_object o) s.objects) w e)))
        h
  | inr e ↦
      subst (λ (r : Result (Unit {0}) × World Store). AllHeld r.1.store)
        (sym (
          bind_ok (query (λ s. count (same_object o) s.objects)) _ w _ _
            (query-quiet (λ s. count (same_object o) s.objects) w e)))
        (elim (Bool-cases (count (same_object o) w.store.objects == 0)) [
          | inl z ↦
              rw z (drop_block-AllHeld o (record w { tick = suc w.tick }) (ground (arith, z)) h)
          | inr z ↦ rw z h
        ])
]

delete_all-Keeps : (objs : List Object) → Keeps AllHeld (delete_all_not_pinned objs)
unfolding delete_all_not_pinned
delete_all-Keeps [] = pure-Keeps AllHeld tt
delete_all-Keeps (o ∷ objs) =
    >>=-Keeps AllHeld (delete_if_not_pinned o) (λ _. delete_all_not_pinned objs)
      (delete_if_not_pinned-Keeps o) (λ _. delete_all-Keeps objs)

delete_pin-Keeps : (pin : Content) → Keeps AllHeld (delete_pin pin)
unfolding delete_pin
delete_pin-Keeps pin =
    >>=-Keeps AllHeld (execute (delete_content pin.id)) _
      (execute-Keeps AllHeld (delete_content pin.id) (λ s h. h))
      (λ _.
        if-Keeps AllHeld (pin.aggregated_in == 0) _ _ (pure-Keeps AllHeld tt)
          (execute-Keeps AllHeld (shrink_aggregate pin.aggregated_in pin.size) (λ s h. h)))

-- Whichever statements fail, and so wherever the handler stops, unpinning a content keeps what every
-- remaining reference needs: its object is in the database and the object's block in the block store.
pub unpin_content-Keeps :
    (contid : ℕ) (w : World Store) → AllHeld w.store → AllHeld (unpin_content contid w).1.store
unfolding unpin_content clear_unreferenced_objects
unpin_content-Keeps contid =
    >>=-Keeps AllHeld (get_content contid) _ (get_content-Keeps AllHeld contid) (λ pin.
      >>=-Keeps AllHeld (query (objects_for_pin pin.id)) _
        (query-Keeps AllHeld (objects_for_pin pin.id))
        (λ objs.
          >>=-Keeps AllHeld (execute (delete_refs pin.id)) _
            (execute-Keeps AllHeld (delete_refs pin.id) (delete_refs-AllHeld pin.id))
            (λ _.
              >>=-Keeps AllHeld (clear_unreferenced_objects objs) _
                (execute-Keeps AllHeld (clear_unreferenced (map (λ o. o.id) objs))
                  (clear-AllHeld (map (λ o. o.id) objs)))
                (λ _.
                  >>=-Keeps AllHeld (delete_all_not_pinned objs) _ (delete_all-Keeps objs)
                    (λ _. transaction-Keeps AllHeld (delete_pin pin) (delete_pin-Keeps pin))))))
