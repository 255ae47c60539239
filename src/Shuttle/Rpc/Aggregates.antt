-- ===== src/Shuttle/Rpc/Aggregates.antt =====
-- The pin of an aggregate at a shuttle.
use estuary.Prelude.{
  ℕ, suc, Any-append_right, ◌≡◌, refl, sym, subst, ap, ◌∙◌, ◌==◌, ◌&&◌, true, false, List, [], ◌∷◌,
  some, arith, All, Any, ==_self, Bool-cases, inl, inr,
}
use estuary.Prelude.Int.{ltb_ℤ}
use estuary.Db.{World, ok, quiet, statement, execute, query, ◌>>=◌, Result}
use estuary.Db.Run.{bind_ok, transaction-quiet, query-quiet}
use estuary.Db.Table.{update}
use estuary.Model.{
  Content, Object, ObjRef, DealQueue, StagingZone, Location, shuttle, done, Store, Config,
}
use estuary.Model.Lookup.{content_of, first_id, first-update}
use estuary.Pinner.Block.{Node, create_objects, create_refs}
use estuary.Pinner.Block.Routing.{deal_quiet}
use estuary.Deal.Queue.{task, of_content}
use estuary.Db.Table.{insert_new-Any}
use estuary.Pinner.Status.{update_content}
use estuary.Shuttle.Rpc.{
  PinComplete, complete_aggregate, finish_zone, save_aggregate, pin_aggregate, pin_found,
  pin_looked_up, handle_pinning_complete,
}

-- The store when the aggregate is saved, before it is queued.
abbrev saved : Content → ℕ → Node → Location → Store → Store
saved cont cid o loc s =
    let r = create_objects (o ∷ []) s in
    finish_zone cont.id loc
      (update_content cont.id (complete_aggregate cid loc) (create_refs cont.id r.0 r.1))

save_aggregate-quiet :
    (cfg : Config) (cont : Content) (cid : ℕ) (o : Node) (loc : Location) (s s' : Store)
    (t t' now : ℕ)
    → estuary.Deal.Queue.queue_content cfg cont.id
        (quiet (saved cont cid o loc s) (suc (suc (suc (suc t)))) now)
      ≡ (ok tt, quiet s' t' now)
    → save_aggregate cfg cont cid o loc (quiet s t now) ≡ (ok tt, quiet s' t' now)
unfolding save_aggregate statement execute ◌>>=◌
save_aggregate-quiet cfg cont cid o loc s s' t t' now h = h

-- What the completion leaves: the content is active at the shuttle with its CID and is no longer being
-- pinned, it has a row of its object and a reference to that, its staging zones are done there, and it is
-- in the deal queue.
pub record Completed (c : Content) (cid : ℕ) (o : Node) (loc : Location) (s : Store) : Type 0 where
  content :
      content_of c.id s
      ≡ some (record c { active = true; pinning = false; cid = cid; location = loc })
  zones :
      All
        (λ (z : StagingZone). z.cont_id ≡ c.id → (z.status ≡ done) × (z.location ≡ loc))
        s.staging_zones
  referenced :
      Any
        (λ (x : Object).
          ((x.cid ≡ o.cid) × (x.size ≡ o.size))
          × Any (λ (r : ObjRef). (r.content ≡ c.id) × (r.object ≡ x.id)) s.obj_refs)
        s.objects
  queued : Any (λ (r : DealQueue). (r.cont_id == c.id) ≡ true) s.deal_queue

zones_done :
    (id : ℕ) (loc : Location) (zones : List StagingZone)
    → All
        (λ (z : StagingZone). z.cont_id ≡ id → (z.status ≡ done) × (z.location ≡ loc))
        (update
          (λ z. z.cont_id == id)
          (λ z. record z { status = done; message = done; location = loc })
          zones)
zones_done id loc [] = tt
zones_done id loc (z ∷ zones) = elim (Bool-cases (z.cont_id == id)) [
  | inl e ↦ rw e ((λ _. (refl, refl)), zones_done id loc zones)
  | inr e ↦ rw e ((λ q. absurd (ground (arith, e, q))), zones_done id loc zones)
]

saved-Completed :
    (c : Content) (cid : ℕ) (o : Node) (loc : Location) (s : Store) (now : ℕ)
    → content_of c.id s ≡ some c
    → Completed c cid o loc
        (estuary.Deal.Queue.insert_task (complete_aggregate cid loc c) now (saved c cid o loc s))
saved-Completed c cid o loc s now h = record {
  content = first-update c.id (complete_aggregate cid loc) s.contents c (λ x. refl) h;
  zones = zones_done c.id loc s.staging_zones;
  referenced =
      Any-append_right _ s.objects _
        (inl ((refl, refl), Any-append_right _ s.obj_refs _ (inl (refl, refl))));
  queued =
      insert_new-Any (of_content c.id) (task (complete_aggregate cid loc c) now) s.deal_queue
        (==_self c.id);
}

-- The conditions on an aggregate that waits for its pin, with a size that deals are made for.
abbrev pub Waits : Config → Content → Type 0
Waits cfg c =
    (c.active ≡ false)
    × ((c.aggregate ≡ true)
        × ((c.aggregated_in ≡ 0)
            × (((c.dag_split && c.split_from == 0) ≡ false) × (ltb_ℤ c.size cfg.min_size ≡ false))))

pin_aggregate-quiet :
    (cfg : Config) (c : Content) (cid : ℕ) (o : Node) (loc : Location) (s : Store) (t now : ℕ)
    → content_of c.id s ≡ some c
    → Waits cfg c
    → (u : ℕ) × (pin_aggregate cfg c cid (o ∷ []) loc (quiet s t now) ≡ (
      ok tt,
      quiet
          (estuary.Deal.Queue.insert_task (complete_aggregate cid loc c) now (saved c cid o loc s))
          u
          now,
    ))
unfolding pin_aggregate
pin_aggregate-quiet cfg c cid o loc s t now h (a, (b, (d, (e, f)))) =
    let new = complete_aggregate cid loc c in
    let t1 = suc (suc (suc (suc (suc t)))) in
    let s1 = saved c cid o loc s in
    let s2 = estuary.Deal.Queue.insert_task new now s1 in
    (
      suc (suc (suc t1)),
      transaction-quiet (save_aggregate cfg c cid o loc) s s2 t (suc (suc t1)) now tt (
          save_aggregate-quiet cfg c cid o loc s s2 (suc t) (suc (suc t1)) now (
            deal_quiet cfg c.id new s1 t1 now
              (first-update c.id (complete_aggregate cid loc) s.contents c (λ x. refl) h) refl d e
              f)),
    )

pin_found-quiet :
    (cfg : Config) (handle : ℕ) (p : PinComplete) (o : Node) (c : Content) (w : World Store)
    → p.objects ≡ o ∷ []
    → Waits cfg c
    → pin_found cfg handle p c w ≡ pin_aggregate cfg c p.cid (o ∷ []) (shuttle handle) w
unfolding pin_found
pin_found-quiet cfg handle p o c w q (a, (b, d)) = rw (a, b, q) refl

-- Where no statement fails, the message that the pin of a waiting aggregate is complete, with one
-- object, succeeds: the aggregate is active at the shuttle with the CID of the message and is no longer
-- being pinned, it has an object row with the CID and the size of the message's object
-- and a reference to it, its staging zones are done there, and it is in the deal queue. The aggregate is in no
-- other, is no root of a split, and is not smaller than MinSize.
pub handle_pinning_complete-Completes :
    (cfg : Config) (handle : ℕ) (p : PinComplete) (o : Node) (c : Content) (s : Store) (t now : ℕ)
    → content_of p.db_id s ≡ some c
    → p.objects ≡ o ∷ []
    → Waits cfg c
    → ((handle_pinning_complete cfg handle p (quiet s t now)).0 ≡ ok tt)
      × Completed c p.cid o
          (shuttle handle)
          (handle_pinning_complete cfg handle p (quiet s t now)).1.store
unfolding handle_pinning_complete
handle_pinning_complete-Completes cfg handle p o c s t now h q k =
    let g = subst (λ i. content_of i s ≡ some c) (sym (first_id p.db_id s.contents c h)) h in
    let (u, r) = pin_aggregate-quiet cfg c p.cid o (shuttle handle) s (suc t) now g k in
    subst
      (λ (x : Result (Unit {0}) × World Store).
        (x.0 ≡ ok tt) × Completed c p.cid o (shuttle handle) x.1.store)
      (sym (
        bind_ok (query (content_of p.db_id)) (pin_looked_up cfg handle p) (quiet s t now) (some c)
          (quiet s (suc t) now)
          (query-quiet (content_of p.db_id) (quiet s t now) refl
            ∙ ap (λ o. (ok o, quiet s (suc t) now)) h)
        ∙ pin_found-quiet cfg handle p o c (quiet s (suc t) now) q k
        ∙ r))
      (refl, saved-Completed c p.cid o (shuttle handle) s now g)
