-- ===== src/Tests/Queues.antt =====
-- Queues, ticks of the workers, and the end of a content.
use estuary.Prelude.{◌≡◌, refl, List, [], ◌∷◌, true, arith, inl, inr, ◌⊎◌}
use estuary.Prelude.Int.{pos}
use estuary.Db.{ok, quiet}
use estuary.Model.{Content, Store, local_node}
use estuary.Contents.Gc.{unpin_content}
use estuary.Contents.Gc.Safety.{AllHeld, unpin_content-Keeps}
use estuary.Split.Queue.{split_complete}
use estuary.Split.Queue.Completion.{Split, split_complete_outcome}
use estuary.Deal.Queue.{queue_content}
use estuary.Deal.Queue.Admission.{Admits, queue_content-Admits}
use estuary.Pinner.Operation.{failed, pinning}
use estuary.Pinner.Status.{update_content_pin_status, get_content_pinning_status, set_flags}
use estuary.Pinner.Status.RoundTrip.{Leaves, update_content_pin_status-get, failed_keeps_zone_size}
use estuary.Pinner.Block.{Node, add_objects_to_database}
use estuary.Pinner.Manager.{choose_user, no_choice}
use estuary.Pinner.Manager.Fairness.{IsLeast, choose_user-IsLeast}
use estuary.Pinner.Block.Saving.{Saved, add_objects_to_database-Saves}
use estuary.Tests.Tables.{cfg, content, database, today}

database-AllHeld : AllHeld database
database-AllHeld = (
  inl (refl, inl refl),
  (inr (inl (refl, inr (inl refl))), (inr (inr (inl (refl, inr (inl refl)))), tt)),
)

unpin_content-Keeps_example : AllHeld (unpin_content 1 today).1.store
unpin_content-Keeps_example = unpin_content-Keeps 1 today database-AllHeld

split_complete_outcome_example :
    let r = split_complete 1 today in
    (r.0 ≡ ok tt) × ((r.1.store ≡ database) ⊎ Split 1 database r.1.store)
split_complete_outcome_example = split_complete_outcome 1 today

-- Content 6 is pinned and large enough.
abbrev pinned_store : Store
pinned_store = record database { contents = record (content 6 (pos 20)) { active = true } ∷ [] }

queue_content-Admits_example :
    Admits cfg
      (record (content 6 (pos 20)) { active = true })
      5
      pinned_store
      (queue_content cfg 6 (quiet pinned_store 0 5))
queue_content-Admits_example =
    queue_content-Admits cfg 6 (record (content 6 (pos 20)) { active = true }) pinned_store 0 5 refl

update_content_pin_status-get_example :
    Leaves 1
      (set_flags pinning (content 1 (pos 8)))
      database
      (update_content_pin_status 1 pinning (quiet database 0 5))
    × (get_content_pinning_status (set_flags pinning (content 1 (pos 8))) ≡ pinning)
update_content_pin_status-get_example =
    update_content_pin_status-get 1 (content 1 (pos 8)) pinning database 0 5 refl refl refl refl
      refl (λ p. absurd (ground (arith, p))) (λ p. absurd (ground (arith, p)))

abbrev child : Content
child = record (content 3 (pos 4)) { aggregated_in = 2 }

failed_keeps_zone_size_example :
    Leaves 3
      (record child { aggregated_in = 0 })
      database
      (update_content_pin_status 3 failed (quiet database 0 5))
failed_keeps_zone_size_example =
    failed_keeps_zone_size 3 child database 0 5 refl (λ p. absurd (omega (arith, p))) refl

-- Two nodes of sizes 20 and 30.
abbrev nodes : List Node
nodes = record { cid = 60; size = 20 } ∷ record { cid = 61; size = 30 } ∷ []

add_objects_to_database-Saves_example :
    let r = add_objects_to_database cfg (content 1 (pos 0)) nodes local_node (quiet database 0 5) in
    (r.0 ≡ ok tt)
    × Saved cfg (content 1 (pos 0)) (content 1 (pos 8)) nodes local_node 5 database r.1.store
add_objects_to_database-Saves_example =
    add_objects_to_database-Saves cfg (content 1 (pos 0)) (content 1 (pos 8)) nodes local_node
      database 0 5 refl refl refl

choose_user-IsLeast_example :
    IsLeast
      ((4, pos 2) ∷ [])
      ((4, pos 1) ∷ (3, pos 1) ∷ [])
      no_choice
      (choose_user ((4, pos 2) ∷ []) ((4, pos 1) ∷ (3, pos 1) ∷ []) no_choice)
choose_user-IsLeast_example =
    choose_user-IsLeast ((4, pos 2) ∷ []) ((4, pos 1) ∷ (3, pos 1) ∷ []) no_choice
