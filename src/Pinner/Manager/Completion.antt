-- ===== src/Pinner/Manager/Completion.antt =====
-- What a completed pin frees, and what the guard holds back.
use estuary.Prelude.{ℕ, ◌≡◌, ◌==◌, none, some, Bool, arith, false}
use estuary.Prelude.Int.{pos, ◌-ℤ◌}
use estuary.Prelude.Map
use estuary.Pinner.Operation.{PinningOperation}
use estuary.Pinner.Queue.{PinQueue}
use estuary.Pinner.Manager.{PinManager, complete, enqueue_pin_op}
use estuary.Pinner.Manager.Counts.{get_or-decrement}
use estuary.Pinner.Manager.Pop.{active_of}

module _ {q : PinQueue} where
  pub complete-active :
      (pm : PinManager q) (po : PinningOperation) (now : ℕ)
      → active_of (complete q pm po now).0 po.user_id ≡ active_of pm po.user_id -ℤ pos 1
  unfolding complete
  complete-active pm po now = ground (arith, get_or-decrement po.user_id po.user_id pm.active_pins)

  pub complete-active_other :
      (pm : PinManager q) (po : PinningOperation) (now u : ℕ)
      → (po.user_id == u) ≡ false
      → active_of (complete q pm po now).0 u ≡ active_of pm u
  unfolding complete
  complete-active_other pm po now u d = ground (arith, get_or-decrement po.user_id u pm.active_pins)

  pub complete-guard :
      (pm : PinManager q) (po : PinningOperation) (now : ℕ)
      → Map.lookup po.cont_id (complete q pm po now).0.duplicate_guard ≡ none
  unfolding complete
  complete-guard pm po now =
      ground (arith, Map.lookup-delete po.cont_id po.cont_id pm.duplicate_guard)

  -- The guard drops an operation whose content it has.
  pub enqueue_guarded :
      (pm : PinManager q) (po : PinningOperation) (t : Bool)
      → Map.lookup po.cont_id pm.duplicate_guard ≡ some t
      → enqueue_pin_op q pm po ≡ some pm
  unfolding enqueue_pin_op
  enqueue_guarded pm po t e = rw (e, enqueue_pin_op)
