-- ===== src/Pinner/Loop/Stuck.antt =====
-- What becomes of a content whose pin has failed.
use estuary.Prelude.{
  ℕ, String, ◌≡◌, ◌≢◌, refl, sym, subst, ap, ◌∙◌, ◌==◌, ==_iff, List, [], ◌∷◌, ◌++◌, All,
  All-append, none, some, Option-cases, true, false, Bool-cases, inl, inr, arith,
}
use estuary.Prelude.Map
use estuary.Pinner.Operation.{PinningOperation, set_status}
use estuary.Pinner.Queue.{PinQueue}
use estuary.Pinner.Manager.{PinManager, complete, enqueue_pin_op, queue_user}
use estuary.Pinner.Manager.Invariant.{Counted, enqueue-cases}
use estuary.Pinner.Manager.Completion.{enqueue_guarded}
use estuary.Pinner.Loop.{
  Callbacks, System, Step, receives, hands_out, wakes, finishes, Reach, here, more, receive, finish,
  do_pinning,
}
use estuary.Pinner.Loop.Invariant.{AlwaysReadable, receive-cases, Reach-Counted}
use estuary.Pinner.Loop.Abandoned.{
  Elsewhere, Abandoned, ArrivesBehind, AllBehind, hand_out-Abandoned, wake-Abandoned,
}

module _ (q : PinQueue) (id : ℕ) where
  apart : (a : ℕ) → a ≢ id → (a == id) ≡ false
  apart a h = elim (Bool-cases (a == id)) [ inl e ↦ absurd (h ((==_iff a id).0 e)) | inr e ↦ e ]

  enqueue-Abandoned :
      (s : System q) (pm : PinManager q) (op : PinningOperation)
      → op.cont_id ≢ id
      → enqueue_pin_op q s.manager op ≡ some pm
      → (Abandoned q id) s
      → (Abandoned q id) (record s { manager = pm })
  enqueue-Abandoned s pm op d e a = elim (enqueue-cases s.manager pm op e) [
    | inl (same, _) ↦ record {
      guard = rw same a.guard;
      next = a.next;
      working = a.working;
      queued = rw same a.queued;
    }
    | inr (b, _, r) ↦
        let new : (Elsewhere q id) b = λ po h k.
          d (ap (λ (o : PinningOperation). o.cont_id) (decoded op po b r.encoded h) ∙ k) in
        record {
          guard = (
            a.guard.0,
            ap (Map.lookup id) r.guard
                ∙ Map.lookup-insert op.cont_id id true s.manager.duplicate_guard
                ∙ rw (apart op.cont_id d) a.guard.1,
          );
          next = a.next;
          working = a.working;
          queued = λ v. rw (r.items v) (elim (Bool-cases (queue_user op == v)) [
            | inl f ↦ rw f (
                All-append (Elsewhere q id) (q.items s.manager.pin_queue v) (b ∷ []) (a.queued v)
                  (new, tt))
            | inr f ↦ rw f (a.queued v)
          ]);
        }
  ]
    where
      decoded :
          (op po : PinningOperation) (b : q.Bytes)
          → q.encode op ≡ some b
          → q.decode b ≡ some po
          → op ≡ po
      decoded op po b e h = ground (arith, q.decode-encode op b e, h)

  -- An operation for the content that arrives behind another one is dropped.
  dropped :
      (s : System q) (op held : PinningOperation)
      → (Abandoned q id) s
      → op.cont_id ≡ id
      → s.next ≡ some held
      → receive q s op ≡ some s
  unfolding receive
  dropped s op held a same h =
      let e = enqueue_guarded s.manager op a.guard.0 (
        subst (λ i. Map.lookup i s.manager.duplicate_guard ≡ some a.guard.0) (sym same)
          a.guard.1) in
      rw (h, e, receive) (ap (λ n. some (record s { next = n })) h)

  receive-Abandoned :
      (s t : System q) (op : PinningOperation)
      → (op.cont_id ≡ id → s.next ≢ none)
      → receive q s op ≡ some t
      → (Abandoned q id) s
      → (Abandoned q id) t
  receive-Abandoned s t op behind h a = elim (Bool-cases (op.cont_id == id)) [
    | inl i ↦
        let same : op.cont_id ≡ id = (==_iff op.cont_id id).0 i in
        elim (Option-cases s.next) [
          | inl e ↦ absurd (behind same e)
          | inr (held, e) ↦
              subst (Abandoned q id) (stays s t (sym (dropped s op held a same e) ∙ h)) a
        ]
    | inr d ↦
        let other : op.cont_id ≢ id = λ p. differs op.cont_id d p in
        elim (receive-cases s t op h) [
          | inl (_, e) ↦ rw e (record {
            guard = a.guard;
            next =
                λ po k. subst (λ (o : PinningOperation). o.cont_id ≢ id) (held_same op po k) other;
            working = a.working;
            queued = a.queued;
          })
          | inr (_, pm, _, e, f) ↦ rw f (enqueue-Abandoned s pm op other e a)
        ]
  ]
    where
      stays : (s t : System q) → some s ≡ some t → s ≡ t
      stays s t e = ground (arith, e)

      held_same : (a b : PinningOperation) → some a ≡ some b → a ≡ b
      held_same a b e = ground (arith, e)

      differs : (a : ℕ) → (a == id) ≡ false → a ≢ id
      differs a d p = ground (arith, d, p)

  do_pinning-queue :
      (pm : PinManager q) (po : PinningOperation) (calls : Callbacks) (now : ℕ)
      → (po.cont_id == id) ≡ false
      → ((do_pinning q pm po calls now).0.pin_queue ≡ pm.pin_queue)
        × (Map.lookup id (do_pinning q pm po calls now).0.duplicate_guard
            ≡ Map.lookup id pm.duplicate_guard)
  unfolding do_pinning complete set_status
  do_pinning-queue pm po calls now d = elim (Option-cases calls.on_pinning) [
    | inr (e, h) ↦ rw (h, do_pinning) (refl, refl)
    | inl h ↦ elim (Option-cases calls.run_pin) [
      | inr (e, k) ↦ rw (h, k, do_pinning) (refl, refl)
      | inl k ↦
          rw (h, k, do_pinning)
            (refl, Map.lookup-delete po.cont_id id pm.duplicate_guard ∙ rw d refl)
    ]
  ]

  All-without :
      (P : PinningOperation → Type 0) (xs : List PinningOperation) (o : PinningOperation)
      (ys : List PinningOperation)
      → All P (xs ++ o ∷ ys)
      → P o × All P (xs ++ ys)
  All-without P [] o ys h = (h.0, h.1)
  All-without P (x ∷ xs) o ys h = let r = All-without P xs o ys h.1 in (r.0, (h.0, r.1))

  finish-Abandoned :
      (s : System q) (xs : List PinningOperation) (po : PinningOperation)
      (ys : List PinningOperation) (calls : Callbacks) (now : ℕ)
      → s.in_progress ≡ xs ++ po ∷ ys
      → (Abandoned q id) s
      → (Abandoned q id) (finish q s xs po ys calls now)
  unfolding finish
  finish-Abandoned s xs po ys calls now e a =
      let (d, rest) =
        All-without (λ (o : PinningOperation). o.cont_id ≢ id) xs po ys
          (subst (All (λ (o : PinningOperation). o.cont_id ≢ id)) e a.working) in
      let (same, kept) = do_pinning-queue s.manager po calls now (apart po.cont_id d) in
      record {
        guard = (a.guard.0, kept ∙ a.guard.1);
        next = a.next;
        working = rest;
        queued = λ u.
            subst (λ (r : q.Queue). All (Elsewhere q id) (q.items r u)) (sym same) (a.queued u);
      }

  Step-Abandoned :
      {s t : System q} (st : Step q s t)
      → AlwaysReadable q
      → Counted s.manager
      → (ArrivesBehind q id) st
      → (Abandoned q id) s
      → (Abandoned q id) t
  Step-Abandoned {s} {t} (receives op h) r c b a = receive-Abandoned s t op b h a
  Step-Abandoned {s} (hands_out e) r c b a =
      subst (Abandoned q id) e (hand_out-Abandoned q id s r c a)
  Step-Abandoned {s} (wakes op rest h e) r c b a =
      subst (Abandoned q id) e (wake-Abandoned q id s rest r c a)
  Step-Abandoned {s} (finishes xs po ys calls now h e) r c b a =
      subst (Abandoned q id) e (finish-Abandoned s xs po ys calls now h a)

  pub Reach-Abandoned :
      {s t : System q} (r : Reach q s t)
      → AlwaysReadable q
      → Counted s.manager
      → (AllBehind q id) r
      → (Abandoned q id) s
      → (Abandoned q id) t
  Reach-Abandoned here readable c b a = a
  Reach-Abandoned (more r st) readable c b a =
      Step-Abandoned st readable (Reach-Counted readable r c) b.1
        (Reach-Abandoned r readable c b.0 a)

failed_keeps :
    {q : PinQueue} (s : System q) (xs : List PinningOperation) (po : PinningOperation)
    (ys : List PinningOperation) (calls : Callbacks) (now : ℕ) (e : String)
    → calls.on_pinning ≡ none
    → calls.run_pin ≡ some e
    → (finish q s xs po ys calls now).manager ≡ s.manager
unfolding finish do_pinning
failed_keeps s xs po ys calls now e h k = rw (h, k, do_pinning) refl

-- A worker's pin fails after its status was written, its content is guarded, and the loop, the other
-- workers and the queue have no other operation for the content. The user's place in the limit stays
-- taken when the worker is done. With a readable queue and correct counts, along every run from there in
-- which the operations for the content arrive while the loop holds one, the content stays guarded: an
-- operation for it that then arrives while the loop holds one is dropped.
pub failed_pin_stuck :
    {q : PinQueue} (s t : System q) (xs : List PinningOperation) (po : PinningOperation)
    (ys : List PinningOperation) (calls : Callbacks) (now : ℕ) (e : String)
    (op held : PinningOperation)
    → AlwaysReadable q
    → Counted s.manager
    → s.in_progress ≡ xs ++ po ∷ ys
    → calls.on_pinning ≡ none
    → calls.run_pin ≡ some e
    → Abandoned q po.cont_id (record s { in_progress = xs ++ ys })
    → (r : Reach q (finish q s xs po ys calls now) t) → AllBehind q po.cont_id r
    → op.cont_id ≡ po.cont_id
    → t.next ≡ some held
    → ((finish q s xs po ys calls now).manager.active_pins ≡ s.manager.active_pins)
      × (receive q t op ≡ some t)
unfolding finish
failed_pin_stuck {q} s t xs po ys calls now e op held readable c busy h k a r behind same holds =
    let v = finish q s xs po ys calls now in
    let kept = failed_keeps s xs po ys calls now e h k in
    let start : Abandoned q po.cont_id v =
      subst (λ (m : PinManager q). Abandoned q po.cont_id (record v { manager = m })) (sym kept)
        (record { guard = a.guard; next = a.next; working = a.working; queued = a.queued }) in
    let counted : Counted v.manager =
      Reach-Counted readable {s = s} (more here (finishes xs po ys calls now busy refl)) c in
    (
      ap (λ (m : PinManager q). m.active_pins) kept,
      dropped q po.cont_id t op held (Reach-Abandoned q po.cont_id r readable counted behind start)
          same holds,
    )
