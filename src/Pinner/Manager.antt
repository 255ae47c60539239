-- ===== src/Pinner/Manager.antt =====
-- pinner/pinmgr.go: the manager's bookkeeping. Each function below runs under `pinQueueLk`, so it is
-- one step from a state to a state. Go's maps are association lists in the order of `range`, which
-- Go leaves open and so do the theorems. `none` from `enqueue_pin_op` is `log.Fatal`.
pub mod Counts
pub mod Fairness
pub mod Pop
pub mod Invariant
pub mod Serve
pub mod Completion
pub mod Restart
use estuary.Prelude.{
  ℕ, ◌==◌, if◌then◌else◌, not, ◌&&◌, List, [], ◌∷◌, Option, none, some, Bool, true, false,
}
use estuary.Prelude.Int.{ℤ, pos, ◌+ℤ◌, ◌-ℤ◌, ltb_ℤ, leb_ℤ, is_zero}
use estuary.Prelude.Map
use estuary.Pinner.Operation.{PinningOperation}
use estuary.Pinner.Operation
use estuary.Pinner.Queue.{PinQueue, item, out_of_bounds, read_error}

-- `m[k]++` and `m[k]--`, where the count is dropped at zero.
unfoldable pub increment : ℕ → List (ℕ × ℤ) → List (ℕ × ℤ)
increment k m = Map.insert k (Map.get_or k m (pos 0) +ℤ pos 1) m

unfoldable pub decrement : ℕ → List (ℕ × ℤ) → List (ℕ × ℤ)
decrement k m =
    let m' = Map.insert k (Map.get_or k m (pos 0) -ℤ pos 1) m in
    if is_zero (Map.get_or k m' (pos 0)) then Map.delete k m' else m'

pub record Choice : Type 0 where
  pub min_count : ℤ
  pub user : ℕ
  pub success : Bool

abbrev pub no_choice : Choice
no_choice = record { min_count = pos 10000; user = 0; success = false }

-- The loop of `popNextPinOp` over the users that have something queued.
unfoldable pub choose_user : List (ℕ × ℤ) → List (ℕ × ℤ) → Choice → Choice
choose_user active [] c = c
choose_user active ((u, n) ∷ counts) c = choose_user active counts (
    if ltb_ℤ (Map.get_or u active (pos 0)) c.min_count
    then record { min_count = Map.get_or u active (pos 0); user = u; success = true }
    else c)

-- The queue that an operation goes to: user 0's, for one that the limiter does not hold back.
abbrev pub queue_user : PinningOperation → ℕ
queue_user po = if po.skip_limiter then 0 else po.user_id

module _ (q : PinQueue) where
  pub record PinManager : Type 0 where
    pub duplicate_guard : List (ℕ × Bool)
    pub active_pins : List (ℕ × ℤ)
    pub pin_queue_count : List (ℕ × ℤ)
    pub pin_queue : q.Queue
    pub max_active_per_user : ℤ

  unfoldable pub complete : PinManager → PinningOperation → ℕ → PinManager × PinningOperation
  complete pm po now = (
    record pm {
      duplicate_guard = Map.delete po.cont_id pm.duplicate_guard;
      active_pins = decrement po.user_id pm.active_pins;
    },
    Operation.complete po now,
  )

  unfoldable pub pin_queue_size : PinManager → ℕ
  pin_queue_size pm = q.size pm.pin_queue

  unfoldable pub pick_user : PinManager → Choice
  pick_user pm =
      if ltb_ℤ (pos 0) (Map.get_or 0 pm.pin_queue_count (pos 0))
      then record { min_count = pos 10000; user = 0; success = true }
      else choose_user pm.active_pins pm.pin_queue_count no_choice

  -- The second half of `popNextPinOp`, from "Dequeue the next item in the queue" on.
  unfoldable pub dequeue_user : PinManager → ℕ → Option PinningOperation × PinManager
  dequeue_user pm user =
      let r = q.dequeue pm.pin_queue user in
      let pm' = record pm {
        pin_queue = r.1;
        pin_queue_count = decrement user pm.pin_queue_count;
        active_pins = increment user pm.active_pins;
      } in
      elim r.0 [
        | item b ↦ (q.decode b, pm')
        | out_of_bounds ↦ (none, pm')
        | read_error ↦ (none, pm')
      ]

  -- The tests of `popNextPinOp` between the search for a user and the dequeue.
  unfoldable pub pop_chosen : PinManager → Choice → Option PinningOperation × PinManager
  pop_chosen pm c =
      if leb_ℤ pm.max_active_per_user c.min_count && not (c.user == 0)
      then (none, pm)
      else if not c.success
      then (none, pm)
      else dequeue_user pm c.user

  unfoldable pub pop_next_pin_op : PinManager → Option PinningOperation × PinManager
  pop_next_pin_op pm = if q.size pm.pin_queue == 0 then (none, pm) else pop_chosen pm (pick_user pm)

  unfoldable pub enqueue_pin_op : PinManager → PinningOperation → Option PinManager
  enqueue_pin_op pm po = elim (Map.lookup po.cont_id pm.duplicate_guard) [
    | some _ ↦ some pm
    | none ↦ elim (q.encode po) [
      | none ↦ none
      | some bytes ↦ elim (q.enqueue pm.pin_queue (queue_user po) bytes) [
        | none ↦ none
        | some pin_queue ↦ some (record pm {
          pin_queue = pin_queue;
          duplicate_guard = Map.insert po.cont_id true pm.duplicate_guard;
          pin_queue_count = increment (queue_user po) pm.pin_queue_count;
        })
      ]
    ]
  ]
