-- ===== src/Pinner/Block/Routing.antt =====
-- The queue that a content reaches when its objects are saved.
use estuary.Prelude.{
  ℕ, suc, ◌≡◌, refl, sym, subst, ◌∙◌, ◌==◌, ◌&&◌, List, true, false, Bool-cases, inl, inr, arith,
  some, ◌⊎◌,
}
use estuary.Prelude.Int.{ℤ, ◌<ℤ◌, ◌≤ℤ◌, ltb_ℤ}
use estuary.Db.{Result, World, ok, quiet, statement, execute, ◌>>=◌}
use estuary.Db.Run.{bind_ok, statement-quiet, execute-quiet, transaction-quiet}
use estuary.Model.{Content, Location, Store, Config}
use estuary.Model.Lookup.{content_of, get_content, get_content-quiet, first-update}
use estuary.Deal.Queue.{queue_found}
use estuary.Pinner.Status.{update_content}
use estuary.Pinner.Block.{
  Node, content_size, create_objects, create_refs, activate, route, save_objects,
  add_objects_to_database,
}

-- The store when the objects are saved and the content is active.
abbrev pub saved : Content → List Node → Location → Store → Store
saved cont objects loc s =
    let r = create_objects objects s in
    update_content cont.id (activate (content_size objects) loc) (create_refs cont.id r.0 r.1)

-- What follows when the content is routed.
routed :
    (cfg : Config) (cont : Content) (objects : List Node) (loc : Location) (s s' : Store)
    (t t' now : ℕ)
    → route cfg cont
        (content_size objects)
        (quiet (saved cont objects loc s) (suc (suc (suc (suc t)))) now)
      ≡ (ok tt, quiet s' t' now)
    → add_objects_to_database cfg cont objects loc (quiet s t now) ≡ (ok tt, quiet s' (suc t') now)
unfolding add_objects_to_database save_objects
routed cfg cont objects loc s s' t t' now h =
    let r = create_objects objects s in
    let refs = create_refs cont.id r.0 in
    let act = update_content cont.id (activate (content_size objects) loc) in
    transaction-quiet (save_objects cfg cont objects loc) s s' t t' now tt (
      bind_ok (statement (create_objects objects)) _ _ r.0 (quiet r.1 (suc (suc t)) now)
        (statement-quiet (create_objects objects) s (suc t) now)
      ∙ bind_ok (execute refs) _ _ tt (quiet (refs r.1) (suc (suc (suc t))) now)
          (execute-quiet refs r.1 (suc (suc t)) now)
      ∙ bind_ok (execute act) _ _ tt (quiet (act (refs r.1)) (suc (suc (suc (suc t)))) now)
          (execute-quiet act (refs r.1) (suc (suc (suc t))) now)
      ∙ h)

-- The three ways of a content by its size.
abbrev pub Routes :
    Config → Content → Content → ℤ → ℕ → Store → Result (Unit {0}) × World Store → Type 0
Routes cfg cont row size now s r =
    (r.0 ≡ ok tt)
    × (((size <ℤ cfg.min_size) × (r.1.store ≡ estuary.Staging.Queue.insert_task cont false now s))
        ⊎ (((cfg.max_size <ℤ size)
              × (r.1.store ≡ estuary.Split.Queue.insert_task cont.id cont.user_id now s))
            ⊎ (((cfg.min_size ≤ℤ size) × (size ≤ℤ cfg.max_size))
                × (r.1.store ≡ estuary.Deal.Queue.insert_task row now s))))

found_quiet :
    (cfg : Config) (c : Content) (s : Store) (t now : ℕ)
    → c.active ≡ true
    → c.aggregated_in ≡ 0
    → (c.dag_split && c.split_from == 0) ≡ false
    → ltb_ℤ c.size cfg.min_size ≡ false
    → queue_found cfg c (quiet s t now)
      ≡ (ok tt, quiet (estuary.Deal.Queue.insert_task c now s) (suc t) now)
unfolding queue_found execute statement ◌>>=◌
found_quiet cfg c s t now a b d e = ground (arith, a, b, d, e)

staging_quiet :
    (cont : Content) (s : Store) (t now : ℕ)
    → estuary.Staging.Queue.queue_content cont false (quiet s t now)
      ≡ (ok tt, quiet (estuary.Staging.Queue.insert_task cont false now s) (suc t) now)
unfolding estuary.Staging.Queue.queue_content execute statement ◌>>=◌
staging_quiet cont s t now = refl

split_quiet :
    (cont : Content) (s : Store) (t now : ℕ)
    → estuary.Split.Queue.queue_content cont.id cont.user_id (quiet s t now)
      ≡ (ok tt, quiet (estuary.Split.Queue.insert_task cont.id cont.user_id now s) (suc t) now)
unfolding estuary.Split.Queue.queue_content execute statement ◌>>=◌
split_quiet cont s t now = refl

pub deal_quiet :
    (cfg : Config) (id : ℕ) (c : Content) (s : Store) (t now : ℕ)
    → content_of id s ≡ some c
    → c.active ≡ true
    → c.aggregated_in ≡ 0
    → (c.dag_split && c.split_from == 0) ≡ false
    → ltb_ℤ c.size cfg.min_size ≡ false
    → estuary.Deal.Queue.queue_content cfg id (quiet s t now)
      ≡ (ok tt, quiet (estuary.Deal.Queue.insert_task c now s) (suc (suc t)) now)
unfolding estuary.Deal.Queue.queue_content
deal_quiet cfg id c s t now h a b d e =
    bind_ok (get_content id) (queue_found cfg) (quiet s t now) c (quiet s (suc t) now)
      (get_content-quiet id c s t now h)
    ∙ found_quiet cfg c s (suc t) now a b d e

-- The same of the store that the handler ends in.
pub add_objects_to_database-Routes :
    (cfg : Config) (cont row : Content) (objects : List Node) (loc : Location) (s : Store)
    (t now : ℕ)
    → content_of cont.id s ≡ some row
    → row.aggregated_in ≡ 0
    → (row.dag_split && row.split_from == 0) ≡ false
    → Routes cfg cont
        (activate (content_size objects) loc row)
        (content_size objects)
        now
        (saved cont objects loc s)
        (add_objects_to_database cfg cont objects loc (quiet s t now))
unfolding route
add_objects_to_database-Routes cfg cont row objects loc s t now h a b =
    let size = content_size objects in
    let s1 = saved cont objects loc s in
    let t1 = suc (suc (suc (suc t))) in
    let new = activate size loc row in
    let u = first-update cont.id (activate size loc) s.contents row (λ x. refl) h in
    elim (Bool-cases (ltb_ℤ size cfg.min_size)) [
      | inl e ↦
          subst (Routes cfg cont new size now s1)
            (sym (
              routed cfg cont objects loc s (estuary.Staging.Queue.insert_task cont false now s1) t
                (suc t1) now (rw e (staging_quiet cont s1 t1 now))))
            (refl, inl (ground (arith, e), refl))
      | inr e ↦ elim (Bool-cases (ltb_ℤ cfg.max_size size)) [
        | inl d ↦
            subst (Routes cfg cont new size now s1)
              (sym (
                routed cfg cont objects loc s
                  (estuary.Split.Queue.insert_task cont.id cont.user_id now s1) t (suc t1) now
                  (rw (e, d) (split_quiet cont s1 t1 now))))
              (refl, inr (inl (ground (arith, d), refl)))
        | inr d ↦
            subst (Routes cfg cont new size now s1)
              (sym (
                routed cfg cont objects loc s (estuary.Deal.Queue.insert_task new now s1) t
                  (suc (suc t1)) now
                  (rw (e, d) (deal_quiet cfg cont.id new s1 t1 now u refl a b e))))
              (refl, inr (inr ((ground (arith, e), ground (arith, d)), refl)))
      ]
    ]
