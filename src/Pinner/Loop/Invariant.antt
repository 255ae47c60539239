-- ===== src/Pinner/Loop/Invariant.antt =====
-- The manager's counts along every run of the loop and its workers.
use estuary.Prelude.{ℕ, ◌≡◌, List, none, some, arith, inl, inr, ◌⊎◌, Option-cases, ◌≢◌, subst}
use estuary.Pinner.Operation.{PinningOperation}
use estuary.Pinner.Queue.{PinQueue, read_error}
use estuary.Pinner.Manager.{PinManager, enqueue_pin_op}
use estuary.Pinner.Manager.Invariant.{Counted, complete-Counted, pop-Counted, enqueue-Counted}
use estuary.Pinner.Loop.{
  Callbacks, System, Step, receives, hands_out, wakes, finishes, Reach, here, more, receive,
  hand_out, wake, finish, do_pinning, pop_into_next,
}

-- No read of the durable queue fails.
abbrev pub AlwaysReadable : PinQueue → Type 0
AlwaysReadable q = (r : q.Queue) (u : ℕ) → (q.dequeue r u).0 ≢ read_error

module _ {q : PinQueue} where
  -- A received operation is handed to the loop, or to the queue if the loop already has one.
  pub receive-cases :
      (s t : System q) (op : PinningOperation)
      → receive q s op ≡ some t
      → ((s.next ≡ none) × (t ≡ record s { next = some op }))
        ⊎ ((o : PinningOperation) × (pm : PinManager q) × (s.next ≡ some o)
            × (enqueue_pin_op q s.manager op ≡ some pm)
            × (t ≡ record s { manager = pm }))
  unfolding receive
  receive-cases s t op h = elim (Option-cases s.next) [
    | inl e ↦ inl (e, ground arith)
    | inr (o, e) ↦ elim (Option-cases (enqueue_pin_op q s.manager op)) [
      | inl f ↦ absurd (ground arith)
      | inr (pm, f) ↦ inr (o, pm, e, f, ground arith)
    ]
  ]

  do_pinning-Counted :
      (pm : PinManager q) (po : PinningOperation) (calls : Callbacks) (now : ℕ)
      → Counted pm
      → Counted (do_pinning q pm po calls now).0
  unfolding do_pinning
  do_pinning-Counted pm po calls now c = elim (Option-cases calls.on_pinning) [
    | inr (e, h) ↦ rw (h, do_pinning) c
    | inl h ↦ elim (Option-cases calls.run_pin) [
      | inr (e, k) ↦ rw (h, k, do_pinning) c
      | inl k ↦ rw (h, k, do_pinning) (complete-Counted pm _ now c)
    ]
  ]

  module _ (readable : AlwaysReadable q) where
    pop_into_next-Counted : (s : System q) → Counted s.manager → Counted (pop_into_next q s).manager
    unfolding pop_into_next
    pop_into_next-Counted s c = pop-Counted s.manager (λ u. readable s.manager.pin_queue u) c

    receive-Counted :
        (s t : System q) (op : PinningOperation)
        → receive q s op ≡ some t
        → Counted s.manager
        → Counted t.manager
    receive-Counted s t op h c = elim (receive-cases s t op h) [
      | inl (_, e) ↦ rw e (record { exact = c.exact; positive = c.positive })
      | inr (_, pm, _, e, f) ↦ rw f (enqueue-Counted s.manager pm op e c)
    ]

    hand_out-Counted : (s : System q) → Counted s.manager → Counted (hand_out q s).manager
    unfolding hand_out
    hand_out-Counted s c = elim (Option-cases s.next) [
      | inl e ↦ rw (e, hand_out) (pop_into_next-Counted s c)
      | inr (op, e) ↦ rw (e, hand_out) (pop_into_next-Counted _ c)
    ]

    wake-Counted :
        (s : System q) (rest : List PinningOperation)
        → Counted s.manager
        → Counted (wake q s rest).manager
    unfolding wake
    wake-Counted s rest c = elim (Option-cases s.next) [
      | inl e ↦ rw (e, wake) (pop_into_next-Counted _ c)
      | inr (op, e) ↦ rw (e, wake) c
    ]

    Step-Counted : {s t : System q} → Step q s t → Counted s.manager → Counted t.manager
    unfolding finish
    Step-Counted {s} {t} (receives op h) c = receive-Counted s t op h c
    Step-Counted {s} (hands_out e) c =
        subst (λ (t : System q). Counted t.manager) e (hand_out-Counted s c)
    Step-Counted {s} (wakes op rest _ e) c =
        subst (λ (t : System q). Counted t.manager) e (wake-Counted s rest c)
    Step-Counted {s} (finishes xs po ys calls now _ e) c =
        subst (λ (t : System q). Counted t.manager) e (do_pinning-Counted s.manager po calls now c)

    -- With a readable queue and correct counts at the start, the manager's counts are the lengths of
    -- the durable queues along every run.
    pub Reach-Counted : {s t : System q} → Reach q s t → Counted s.manager → Counted t.manager
    Reach-Counted here c = c
    Reach-Counted (more r st) c = Step-Counted st (Reach-Counted r c)
