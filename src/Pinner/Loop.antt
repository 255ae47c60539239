-- ===== src/Pinner/Loop.antt =====
-- pinner/pinmgr.go: `doPinning`, `Run` and `pinWorker`. The goroutines of the manager meet at three
-- channels; which of them moves next is the scheduler's choice, so the whole is a step relation.
-- What the callbacks `RunPinFunc` and `StatusChangeFunc` return is a parameter of each step.
pub mod Invariant
pub mod NoLoss
pub mod Limits
pub mod Abandoned
pub mod Stuck
use estuary.Prelude.{ℕ, String, ◌≡◌, List, [], ◌∷◌, ◌++◌, Option, none, some, Bool, true, false}
use estuary.Pinner.Operation
use estuary.Pinner.Operation.{PinningOperation, pinning}
use estuary.Pinner.Queue.{PinQueue}
use estuary.Pinner.Manager.{PinManager, complete, enqueue_pin_op, pop_next_pin_op}

-- The errors that the callbacks return to `doPinning`, in the order of its calls.
pub record Callbacks : Type 0 where
  pub on_pinning : Option String
  pub run_pin : Option String
  pub on_failed : Option String

-- An error of `StatusChangeFunc`, or one of `RunPinFunc`, wrapped.
pub data PinError : Type 0 where
  status_error : String → PinError
  run_pin_failed : String → PinError

module _ (q : PinQueue) where
  unfoldable pub do_pinning :
      PinManager q
      → PinningOperation
      → Callbacks
      → ℕ
      → PinManager q × PinningOperation × Option PinError
  do_pinning pm po calls now =
      let started = Operation.set_status po pinning now in
      elim calls.on_pinning [
        | some e ↦ (pm, started, some (status_error e))
        | none ↦ elim calls.run_pin [
          | some e ↦ (
            pm,
            Operation.fail started e now,
            elim calls.on_failed [
              | some e2 ↦ some (status_error e2)
              | none ↦ some (run_pin_failed e)
            ],
          )
          | none ↦ ((complete q pm started now).0, (complete q pm started now).1, none)
        ]
      ]

  -- The manager, the `next` of `Run`, what the workers hold, and what waits in `pinComplete`.
  pub record System : Type 0 where
    pub manager : PinManager q
    pub next : Option PinningOperation
    pub in_progress : List PinningOperation
    pub pin_complete : List PinningOperation

  unfoldable pub pop_into_next : System → System
  pop_into_next s = let r = pop_next_pin_op q s.manager in record s { next = r.0; manager = r.1 }

  -- `case op := <-pm.pinQueueIn`; `none` is a fatal error of `enqueuePinOp`.
  unfoldable pub receive : System → PinningOperation → Option System
  receive s op = elim s.next [
    | none ↦ some (record s { next = some op })
    | some _ ↦ elim (enqueue_pin_op q s.manager op) [
      | none ↦ none
      | some pm ↦ some (record s { manager = pm })
    ]
  ]

  -- `case pm.pinQueueOut <- next`: a worker drops a nil operation.
  unfoldable pub hand_out : System → System
  hand_out s = elim s.next [
    | none ↦ pop_into_next s
    | some op ↦ pop_into_next (record s { in_progress = op ∷ s.in_progress })
  ]

  -- `case <-pm.pinComplete`, with `rest` left in the channel.
  unfoldable pub wake : System → List PinningOperation → System
  wake s rest = elim s.next [
    | none ↦ pop_into_next (record s { pin_complete = rest })
    | some _ ↦ record s { pin_complete = rest }
  ]

  -- A worker ends the operation `po` between `xs` and `ys`, and reports it.
  unfoldable pub finish :
      System
      → List PinningOperation
      → PinningOperation
      → List PinningOperation
      → Callbacks
      → ℕ
      → System
  finish s xs po ys calls now =
      let r = do_pinning s.manager po calls now in
      record s { manager = r.0; in_progress = xs ++ ys; pin_complete = s.pin_complete ++ r.1 ∷ [] }

  pub data Step (s t : System) : Type 0 where
    receives : (op : PinningOperation) → receive s op ≡ some t → Step s t
    hands_out : hand_out s ≡ t → Step s t
    wakes :
        (op : PinningOperation) (rest : List PinningOperation)
        → s.pin_complete ≡ op ∷ rest
        → wake s rest ≡ t
        → Step s t
    finishes :
        (xs : List PinningOperation) (po : PinningOperation) (ys : List PinningOperation)
        (calls : Callbacks) (now : ℕ)
        → s.in_progress ≡ xs ++ po ∷ ys
        → finish s xs po ys calls now ≡ t
        → Step s t

  pub data Reach (s : System) : System → Type 0 where
    here : Reach s s
    more : {t u : System} → Reach s t → Step t u → Reach s u
