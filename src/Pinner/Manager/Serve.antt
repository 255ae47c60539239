-- ===== src/Pinner/Manager/Serve.antt =====
-- What `popNextPinOp` gives out: the oldest item of the user whose turn it is.
use estuary.Prelude.{ℕ, ◌≡◌, refl, ◌==◌, ◌∷◌, false, arith, inl, inr, ◌⊎◌, none}
use estuary.Pinner.Queue.{PinQueue, item}
use estuary.Pinner.Manager.{PinManager, increment, decrement, dequeue_user, pop_next_pin_op}
use estuary.Pinner.Manager.Pop.{IsTurn, IsIdle, pop-cases}
use estuary.Pinner.Manager.Invariant.{Counted, Readable, dequeue_item}

module _ {q : PinQueue} where
  -- `u` is served from `pm` to `pm'`: the oldest item `b` of `u` leaves the queue, `u` has one more
  -- pin in progress and one less queued, and the rest stays.
  pub record IsServed (pm pm' : PinManager q) (u : ℕ) (b : q.Bytes) : Type 0 where
    pub oldest : q.items pm.pin_queue u ≡ b ∷ q.items pm'.pin_queue u
    pub others : (v : ℕ) → (u == v) ≡ false → q.items pm'.pin_queue v ≡ q.items pm.pin_queue v
    pub active : pm'.active_pins ≡ increment u pm.active_pins
    pub counts : pm'.pin_queue_count ≡ decrement u pm.pin_queue_count
    pub guard : pm'.duplicate_guard ≡ pm.duplicate_guard

  dequeue_user-IsServed :
      (pm : PinManager q) (u : ℕ) (b : q.Bytes)
      → (q.dequeue pm.pin_queue u).0 ≡ item b
      → ((dequeue_user q pm u).0 ≡ q.decode b) × IsServed pm (dequeue_user q pm u).1 u b
  unfolding dequeue_user
  dequeue_user-IsServed pm u b e = (
    rw (e, dequeue_user),
    rw (e, dequeue_user)
        (record {
          oldest = ground (arith, q.items-dequeue pm.pin_queue u b u e);
          others = λ v d. ground (arith, q.items-dequeue pm.pin_queue u b v e);
          active = refl;
          counts = refl;
          guard = refl;
        }),
  )

  -- With correct counts and a readable queue, `popNextPinOp` either leaves the manager as it was and
  -- gives nothing, because nothing may start; or it serves a user whose turn it is, and gives what
  -- the user's oldest item decodes to.
  pub pop-Serves :
      (pm : PinManager q)
      → Readable pm
      → Counted pm
      → ((pop_next_pin_op q pm ≡ (none, pm)) × IsIdle pm)
        ⊎ ((u : ℕ) × (b : q.Bytes) × IsTurn pm u
            × ((pop_next_pin_op q pm).0 ≡ q.decode b)
            × IsServed pm (pop_next_pin_op q pm).1 u b)
  pop-Serves pm r c = elim (pop-cases pm c.positive) [
    | inl idle ↦ inl idle
    | inr (u, e, t) ↦
        let (b, found) = dequeue_item pm u c r t.queued in
        let (out, served) = dequeue_user-IsServed pm u b found in
        inr (u, b, t, rw e out, rw e served)
  ]
