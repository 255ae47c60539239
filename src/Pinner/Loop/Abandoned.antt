-- ===== src/Pinner/Loop/Abandoned.antt =====
-- A content that is guarded while no operation for it is anywhere, and what the loop does then.
use estuary.Prelude.{
  ℕ, ◌≡◌, ◌≢◌, sym, subst, ◌∙◌, ◌==◌, ==_iff, List, ◌∷◌, All, none, some, Option-cases, Bool,
  Bool-cases, inl, inr, arith,
}
use estuary.Prelude.Map
use estuary.Pinner.Operation.{PinningOperation}
use estuary.Pinner.Queue.{PinQueue}
use estuary.Pinner.Manager.{pop_next_pin_op}
use estuary.Pinner.Manager.Invariant.{Counted}
use estuary.Pinner.Manager.Serve.{pop-Serves}
use estuary.Pinner.Loop.{
  System, Step, receives, hands_out, wakes, finishes, Reach, here, more, hand_out, wake,
  pop_into_next,
}
use estuary.Pinner.Loop.Invariant.{AlwaysReadable}

module _ (q : PinQueue) (id : ℕ) where
  -- An item of the queue for another content.
  abbrev pub Elsewhere : q.Bytes → Type 0
  Elsewhere b = (po : PinningOperation) → q.decode b ≡ some po → po.cont_id ≢ id

  -- The content is in the guard, and no operation for it is held, worked on or queued.
  pub record Abandoned (s : System q) : Type 0 where
    pub guard : (t : Bool) × (Map.lookup id s.manager.duplicate_guard ≡ some t)
    pub next : (po : PinningOperation) → s.next ≡ some po → po.cont_id ≢ id
    pub working : All (λ (o : PinningOperation). o.cont_id ≢ id) s.in_progress
    pub queued : (u : ℕ) → All Elsewhere (q.items s.manager.pin_queue u)

  -- In every step of a run, an operation for the content arrives while the loop holds another one.
  abbrev pub ArrivesBehind : {s t : System q} → Step q s t → Type 0
  ArrivesBehind {s} (receives op h) = op.cont_id ≡ id → s.next ≢ none
  ArrivesBehind (hands_out e) = Unit
  ArrivesBehind (wakes op rest h e) = Unit
  ArrivesBehind (finishes xs po ys calls now h e) = Unit

  abbrev pub AllBehind : {s t : System q} → Reach q s t → Type 0
  AllBehind here = Unit
  AllBehind (more r st) = AllBehind r × ArrivesBehind st

  pub pop_into_next-Abandoned :
      (s : System q)
      → AlwaysReadable q
      → Counted s.manager
      → Abandoned s
      → Abandoned (pop_into_next q s)
  unfolding pop_into_next
  pop_into_next-Abandoned s readable c a =
      let pm = s.manager in
      elim (pop-Serves pm (λ u. readable pm.pin_queue u) c) [
        | inl (e, _) ↦ record {
          guard = rw e a.guard;
          next = rw e (λ po h. absurd (ground (arith, h)));
          working = a.working;
          queued = rw e a.queued;
        }
        | inr (u, b, _, out, sv) ↦
            let front : All Elsewhere (b ∷ q.items (pop_next_pin_op q pm).1.pin_queue u) =
              subst (All Elsewhere) sv.oldest (a.queued u) in
            record {
              guard = rw sv.guard a.guard;
              next = λ po h. front.0 po (sym out ∙ h);
              working = a.working;
              queued = λ v. elim (Bool-cases (u == v)) [
                | inl e ↦
                    subst (λ w. All Elsewhere (q.items (pop_next_pin_op q pm).1.pin_queue w))
                      ((==_iff u v).0 e) front.1
                | inr d ↦ rw (sv.others v d) (a.queued v)
              ];
            }
      ]

  pub hand_out-Abandoned :
      (s : System q) → AlwaysReadable q → Counted s.manager → Abandoned s → Abandoned (hand_out q s)
  unfolding hand_out
  hand_out-Abandoned s readable c a = elim (Option-cases s.next) [
    | inl e ↦ rw (e, hand_out) (pop_into_next-Abandoned s readable c a)
    | inr (op, e) ↦
        rw (e, hand_out)
          (pop_into_next-Abandoned (record s { in_progress = op ∷ s.in_progress }) readable c
            (record {
              guard = a.guard;
              next = a.next;
              working = (a.next op e, a.working);
              queued = a.queued;
            }))
  ]

  pub wake-Abandoned :
      (s : System q) (rest : List PinningOperation)
      → AlwaysReadable q
      → Counted s.manager
      → Abandoned s
      → Abandoned (wake q s rest)
  unfolding wake
  wake-Abandoned s rest readable c a =
      let left : Abandoned (record s { pin_complete = rest }) = record {
        guard = a.guard;
        next = a.next;
        working = a.working;
        queued = a.queued;
      } in
      elim (Option-cases s.next) [
        | inl e ↦
            rw (e, wake)
              (pop_into_next-Abandoned (record s { pin_complete = rest }) readable c left)
        | inr (op, e) ↦ rw (e, wake) left
      ]
