-- ===== src/Pinner/Manager/Invariant.antt =====
-- The counts of the manager are the lengths of the durable queues, before and after every operation.
use estuary.Prelude.{
  ℕ, ◌≡◌, refl, ◌==◌, if◌then◌else◌, [], ◌∷◌, ◌++◌, Bool, true, arith, inl, inr, ◌⊎◌, ◌≢◌, none,
  some, length, length-append, Option-cases, ap,
}
use estuary.Prelude.Int.{pos, ◌<ℤ◌}
use estuary.Prelude.Map.{get_or}
use estuary.Prelude.Map
use estuary.Pinner.Operation.{PinningOperation}
use estuary.Pinner.Queue.{PinQueue, Dequeued, item, out_of_bounds, read_error}
use estuary.Pinner.Manager.{
  PinManager, complete, increment, dequeue_user, pop_next_pin_op, enqueue_pin_op, queue_user,
}
use estuary.Pinner.Manager.Counts.{
  IsPositive, get_or-increment, get_or-decrement, increment-IsPositive, decrement-IsPositive,
}
use estuary.Pinner.Manager.Pop.{queued_of, pop-cases}

pub Dequeued-cases :
    {B : Type 0} (d : Dequeued B)
    → ((b : B) × (d ≡ item b)) ⊎ ((d ≡ out_of_bounds) ⊎ (d ≡ read_error))
Dequeued-cases (item b) = inl (b, refl)
Dequeued-cases out_of_bounds = inr (inl refl)
Dequeued-cases read_error = inr (inr refl)

module _ {q : PinQueue} where
  -- The count of each user is the length of the user's queue, and no user is kept with count zero.
  pub record Counted (pm : PinManager q) : Type 0 where
    pub exact : (u : ℕ) → queued_of pm u ≡ pos (length (q.items pm.pin_queue u))
    pub positive : IsPositive pm.pin_queue_count

  -- The queue can be read: a dequeue has an item or is out of bounds.
  abbrev pub Readable : PinManager q → Type 0
  Readable pm = (u : ℕ) → (q.dequeue pm.pin_queue u).0 ≢ read_error

  -- A user with a positive count has an item to give.
  pub dequeue_item :
      (pm : PinManager q) (u : ℕ)
      → Counted pm
      → Readable pm
      → pos 0 <ℤ queued_of pm u
      → (b : q.Bytes) × ((q.dequeue pm.pin_queue u).0 ≡ item b)
  dequeue_item pm u c r h = elim (Dequeued-cases (q.dequeue pm.pin_queue u).0) [
    | inl found ↦ found
    | inr (inl e) ↦ absurd (nothing (q.dequeue_out_of_bounds pm.pin_queue u e))
    | inr (inr e) ↦ absurd (r u e)
  ]
    where
      nothing : q.items pm.pin_queue u ≡ [] → ⊥
      nothing e = ground (arith, c.exact u, ap length e)

  dequeue_user-Counted :
      (pm : PinManager q) (u : ℕ) (b : q.Bytes)
      → Counted pm
      → pos 0 <ℤ queued_of pm u
      → (q.dequeue pm.pin_queue u).0 ≡ item b
      → Counted (dequeue_user q pm u).1
  unfolding dequeue_user
  dequeue_user-Counted pm u b c h e =
      rw (e, dequeue_user)
        (record {
          exact = λ v. ground (
            arith,
            get_or-decrement u v pm.pin_queue_count,
            q.items-dequeue pm.pin_queue u b v e,
            c.exact u,
            c.exact v,
          );
          positive = decrement-IsPositive u pm.pin_queue_count h c.positive;
        })

  pub pop-Counted :
      (pm : PinManager q) → Readable pm → Counted pm → Counted (pop_next_pin_op q pm).1
  pop-Counted pm r c = elim (pop-cases pm c.positive) [
    | inl (e, _) ↦ rw e c
    | inr (u, e, t) ↦
        let (b, found) = dequeue_item pm u c r t.queued in
        rw e (dequeue_user-Counted pm u b c t.queued found)
  ]

  -- What `enqueuePinOp` does: nothing for a content that the guard has; or one more item at the end
  -- of the user's queue, with the guard set and the count raised.
  pub record IsEnqueued (pm pm' : PinManager q) (po : PinningOperation) (b : q.Bytes) : Type 0 where
    pub encoded : q.encode po ≡ some b
    pub items :
        (v : ℕ)
        → q.items pm'.pin_queue v ≡ (
            if queue_user po == v then q.items pm.pin_queue v ++ b ∷ [] else q.items pm.pin_queue v)
    pub counts : pm'.pin_queue_count ≡ increment (queue_user po) pm.pin_queue_count
    pub guard : pm'.duplicate_guard ≡ Map.insert po.cont_id true pm.duplicate_guard
    pub active : pm'.active_pins ≡ pm.active_pins
    pub limit : pm'.max_active_per_user ≡ pm.max_active_per_user

  pub enqueue-cases :
      (pm pm' : PinManager q) (po : PinningOperation)
      → enqueue_pin_op q pm po ≡ some pm'
      → ((pm' ≡ pm) × ((t : Bool) × (Map.lookup po.cont_id pm.duplicate_guard ≡ some t)))
        ⊎ ((b : q.Bytes) × (Map.lookup po.cont_id pm.duplicate_guard ≡ none)
            × IsEnqueued pm pm' po b)
  unfolding enqueue_pin_op
  enqueue-cases pm pm' po h = elim (Option-cases (Map.lookup po.cont_id pm.duplicate_guard)) [
    | inr (t, e) ↦ inl (same t e, (t, e))
    | inl e ↦ elim (Option-cases (q.encode po)) [
      | inl f ↦ absurd (no_bytes e f)
      | inr (b, f) ↦ elim (Option-cases (q.enqueue pm.pin_queue (queue_user po) b)) [
        | inl g ↦ absurd (no_queue b e f g)
        | inr (q', g) ↦ inr (b, e, added b q' e f g)
      ]
    ]
  ]
    where
      same : (t : Bool) → Map.lookup po.cont_id pm.duplicate_guard ≡ some t → pm' ≡ pm
      same t e = ground arith

      no_bytes : Map.lookup po.cont_id pm.duplicate_guard ≡ none → q.encode po ≡ none → ⊥
      no_bytes e f = ground arith

      no_queue :
          (b : q.Bytes)
          → Map.lookup po.cont_id pm.duplicate_guard ≡ none
          → q.encode po ≡ some b
          → q.enqueue pm.pin_queue (queue_user po) b ≡ none
          → ⊥
      no_queue b e f g = ground arith

      added :
          (b : q.Bytes) (q' : q.Queue)
          → Map.lookup po.cont_id pm.duplicate_guard ≡ none
          → q.encode po ≡ some b
          → q.enqueue pm.pin_queue (queue_user po) b ≡ some q'
          → IsEnqueued pm pm' po b
      added b q' e f g = record {
        encoded = f;
        items = λ v. ground (arith, q.items-enqueue pm.pin_queue q' (queue_user po) b v g);
        counts = ground arith;
        guard = ground arith;
        active = ground arith;
        limit = ground arith;
      }

  pub enqueue-Counted :
      (pm pm' : PinManager q) (po : PinningOperation)
      → enqueue_pin_op q pm po ≡ some pm'
      → Counted pm
      → Counted pm'
  enqueue-Counted pm pm' po h c = elim (enqueue-cases pm pm' po h) [
    | inl (e, _) ↦ rw e c
    | inr (b, _, r) ↦ record {
      exact = λ v. ground (
        arith,
        r.counts,
        r.items v,
        get_or-increment (queue_user po) v pm.pin_queue_count,
        length-append (q.items pm.pin_queue v) (b ∷ []),
        c.exact v,
        c.exact (queue_user po),
      );
      positive = rw r.counts (increment-IsPositive (queue_user po) pm.pin_queue_count c.positive);
    }
  ]

  -- Completing a pin leaves the queue and its counts alone.
  pub complete-Counted :
      (pm : PinManager q) (po : PinningOperation) (now : ℕ)
      → Counted pm
      → Counted (complete q pm po now).0
  unfolding complete
  complete-Counted pm po now c = record { exact = c.exact; positive = c.positive }

  pub complete-pin_queue :
      (pm : PinManager q) (po : PinningOperation) (now : ℕ)
      → (complete q pm po now).0.pin_queue ≡ pm.pin_queue
  unfolding complete
  complete-pin_queue pm po now = refl
