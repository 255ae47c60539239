-- ===== src/Pinner/Loop/NoLoss.antt =====
-- An operation that the loop has taken waits until a worker has it.
use estuary.Prelude.{
  ℕ, ◌≡◌, refl, List, [], ◌∷◌, none, some, arith, inl, inr, ◌⊎◌, ◌==◌, Option-cases, Bool-cases,
  sym, subst, Any, Any-append_left, Any-append_right, ◌∙◌, ==_iff, ==_self,
}
use estuary.Prelude.Map
use estuary.Pinner.Operation.{PinningOperation, set_status, pinning}
use estuary.Pinner.Queue.{PinQueue}
use estuary.Pinner.Manager.{PinManager, enqueue_pin_op, pop_next_pin_op, queue_user}
use estuary.Pinner.Manager.Invariant.{Counted, Readable, enqueue-cases, complete-pin_queue}
use estuary.Pinner.Manager.Serve.{IsServed, pop-Serves}
use estuary.Pinner.Loop.{
  Callbacks, System, Step, receives, hands_out, wakes, finishes, Reach, here, more, receive,
  hand_out, wake, finish, do_pinning, pop_into_next,
}
use estuary.Pinner.Loop.Invariant.{AlwaysReadable, receive-cases, Reach-Counted}

module _ {q : PinQueue} where
  -- The operation stands in the durable queue of a user.
  abbrev pub InQueue : PinningOperation → ℕ → PinManager q → Type 0
  InQueue po u pm = Any (λ b. q.decode b ≡ some po) (q.items pm.pin_queue u)

  -- The loop holds the operation, or it is in a queue.
  abbrev pub Waits : PinningOperation → System q → Type 0
  Waits po s = (s.next ≡ some po) ⊎ ((u : ℕ) × InQueue po u s.manager)

  -- A worker holds the operation.
  abbrev pub InProgress : PinningOperation → System q → Type 0
  InProgress po s = Any (λ o. o ≡ po) s.in_progress

  -- Some state that the run goes through has a property.
  abbrev pub OnRun : (System q → Type 0) → {s t : System q} → Reach q s t → Type 0
  OnRun P {s} here = P s
  OnRun P (more {u = u} r st) = OnRun P r ⊎ P u

  served :
      (pm pm' : PinManager q) (po : PinningOperation) (u v : ℕ) (b : q.Bytes)
      → IsServed pm pm' v b
      → InQueue po u pm
      → (q.decode b ≡ some po) ⊎ InQueue po u pm'
  served pm pm' po u v b s h = elim (Bool-cases (v == u)) [
    | inr d ↦ inr (rw (s.others u d) h)
    | inl e ↦
        subst (λ (w : ℕ). InQueue po w pm → (q.decode b ≡ some po) ⊎ InQueue po w pm')
          ((==_iff v u).0 e) (λ k. subst (Any (λ b. q.decode b ≡ some po)) s.oldest k) h
  ]

  pop_keeps :
      (pm : PinManager q) (po : PinningOperation) (u : ℕ)
      → Readable pm
      → Counted pm
      → InQueue po u pm
      → ((pop_next_pin_op q pm).0 ≡ some po) ⊎ InQueue po u (pop_next_pin_op q pm).1
  pop_keeps pm po u r c h = elim (pop-Serves pm r c) [
    | inl (e, _) ↦ inr (rw e h)
    | inr (v, b, _, out, s) ↦ elim (served pm _ po u v b s h) [
      | inl d ↦ inl (out ∙ d)
      | inr k ↦ inr k
    ]
  ]

  enqueue_keeps :
      (pm pm' : PinManager q) (op po : PinningOperation) (u : ℕ)
      → enqueue_pin_op q pm op ≡ some pm'
      → InQueue po u pm
      → InQueue po u pm'
  enqueue_keeps pm pm' op po u e h = elim (enqueue-cases pm pm' op e) [
    | inl (same, _) ↦ rw same h
    | inr (b, _, r) ↦ rw (r.items u) (elim (Bool-cases (queue_user op == u)) [
      | inl f ↦ rw f (Any-append_left _ (q.items pm.pin_queue u) (b ∷ []) h)
      | inr f ↦ rw f h
    ])
  ]

  -- An operation whose content is not guarded waits at the end of its user's queue.
  pub enqueue_waits :
      (pm pm' : PinManager q) (op : PinningOperation)
      → Map.lookup op.cont_id pm.duplicate_guard ≡ none
      → enqueue_pin_op q pm op ≡ some pm'
      → InQueue op (queue_user op) pm'
  enqueue_waits pm pm' op fresh e = elim (enqueue-cases pm pm' op e) [
    | inl (_, (t, seen)) ↦ absurd (ground arith)
    | inr (b, _, r) ↦
        rw (r.items (queue_user op), ==_self (queue_user op))
          (Any-append_right _ (q.items pm.pin_queue (queue_user op)) (b ∷ [])
            (inl (q.decode-encode op b r.encoded)))
  ]

  -- What `receive` is given waits, unless its content is already guarded.
  pub receive-Waits :
      (s t : System q) (op : PinningOperation)
      → Map.lookup op.cont_id s.manager.duplicate_guard ≡ none
      → receive q s op ≡ some t
      → Waits op t
  receive-Waits s t op fresh h = elim (receive-cases s t op h) [
    | inl (_, e) ↦ rw e (inl refl)
    | inr (o, pm, _, e, f) ↦ rw f (inr (queue_user op, enqueue_waits s.manager pm op fresh e))
  ]

  module _ (readable : AlwaysReadable q) where
    pop_into_next-Waits :
        (s : System q) (po : PinningOperation) (u : ℕ)
        → Counted s.manager
        → InQueue po u s.manager
        → Waits po (pop_into_next q s)
    unfolding pop_into_next
    pop_into_next-Waits s po u c h =
        elim (pop_keeps s.manager po u (λ v. readable s.manager.pin_queue v) c h) [
          | inl e ↦ inl e
          | inr k ↦ inr (u, k)
        ]

    hand_out-Waits :
        (s : System q) (po : PinningOperation)
        → Counted s.manager
        → Waits po s
        → Waits po (hand_out q s) ⊎ InProgress po (hand_out q s)
    unfolding hand_out pop_into_next
    hand_out-Waits s po c (inl e) = rw (e, hand_out) (inr (inl refl))
    hand_out-Waits s po c (inr (u, h)) = elim (Option-cases s.next) [
      | inl e ↦ rw (e, hand_out) (inl (pop_into_next-Waits s po u c h))
      | inr (op, e) ↦
          rw (e, hand_out)
            (inl (pop_into_next-Waits (record s { in_progress = op ∷ s.in_progress }) po u c h))
    ]

    wake-Waits :
        (s : System q) (rest : List PinningOperation) (po : PinningOperation)
        → Counted s.manager
        → Waits po s
        → Waits po (wake q s rest)
    unfolding wake
    wake-Waits s rest po c (inl e) = rw (e, wake) (inl e)
    wake-Waits s rest po c (inr (u, h)) = elim (Option-cases s.next) [
      | inl e ↦ rw (e, wake) (pop_into_next-Waits (record s { pin_complete = rest }) po u c h)
      | inr (op, e) ↦ rw (e, wake) (inr (u, h))
    ]

    receive_keeps :
        (s t : System q) (op po : PinningOperation)
        → receive q s op ≡ some t
        → Waits po s
        → Waits po t
    receive_keeps s t op po h (inl e) = elim (receive-cases s t op h) [
      | inl (n, _) ↦ absurd (ground arith)
      | inr (_, pm, _, _, f) ↦ rw f (inl e)
    ]
    receive_keeps s t op po h (inr (u, k)) = elim (receive-cases s t op h) [
      | inl (_, e) ↦ rw e (inr (u, k))
      | inr (_, pm, _, e, f) ↦ rw f (inr (u, enqueue_keeps s.manager pm op po u e k))
    ]

    do_pinning-pin_queue :
        (pm : PinManager q) (po : PinningOperation) (calls : Callbacks) (now : ℕ)
        → (do_pinning q pm po calls now).0.pin_queue ≡ pm.pin_queue
    unfolding do_pinning
    do_pinning-pin_queue pm po calls now =
        ground (arith, complete-pin_queue pm (set_status po pinning now) now)

    finish-Waits :
        (s : System q) (xs : List PinningOperation) (po : PinningOperation)
        (ys : List PinningOperation) (calls : Callbacks) (now : ℕ) (w : PinningOperation)
        → Waits w s
        → Waits w (finish q s xs po ys calls now)
    unfolding finish
    finish-Waits s xs po ys calls now w (inl e) = inl e
    finish-Waits s xs po ys calls now w (inr (u, h)) = inr (
      u,
      subst (λ (r : q.Queue). Any (λ b. q.decode b ≡ some w) (q.items r u))
          (sym (do_pinning-pin_queue s.manager po calls now)) h,
    )

    Step-Waits :
        {s t : System q} (po : PinningOperation)
        → Step q s t
        → Counted s.manager
        → Waits po s
        → Waits po t ⊎ InProgress po t
    Step-Waits {s} {t} po (receives op h) c w = inl (receive_keeps s t op po h w)
    Step-Waits {s} po (hands_out e) c w =
        subst (λ (t : System q). Waits po t ⊎ InProgress po t) e (hand_out-Waits s po c w)
    Step-Waits {s} po (wakes op rest _ e) c w =
        inl (subst (λ (t : System q). Waits po t) e (wake-Waits s rest po c w))
    Step-Waits {s} po (finishes xs done ys calls now _ e) c w =
        inl (subst (λ (t : System q). Waits po t) e (finish-Waits s xs done ys calls now po w))

    -- With a readable queue and correct counts at the start, an operation that waits still waits at the
    -- end of every run, or a worker has it in some state that this run went through: the loop drops no
    -- operation before a worker has it.
    pub Reach-Waits :
        {s t : System q} (po : PinningOperation)
        → Counted s.manager
        → Waits po s
        → (r : Reach q s t) → Waits po t ⊎ OnRun (InProgress po) r
    Reach-Waits po c w here = inl w
    Reach-Waits {s} {t} po c w (more {t = m} r st) = elim (Reach-Waits po c w r) [
      | inr taken ↦ inr (inl taken)
      | inl k ↦ elim (Step-Waits po st (Reach-Counted readable r c) k) [
        | inl k' ↦ inl k'
        | inr p ↦ inr (inr p)
      ]
    ]
