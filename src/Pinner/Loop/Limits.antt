-- ===== src/Pinner/Loop/Limits.antt =====
-- The duplicate guard and the limit of pins in progress: what they keep, and where they are lost.
use estuary.Prelude.{
  ℕ, ◌≡◌, refl, [], ◌∷◌, none, some, true, false, arith, inl, inr, ◌==◌, ap, length, ◌∙◌,
}
use estuary.Prelude.Int.{pos, ◌+ℤ◌, ◌-ℤ◌, ◌≤ℤ◌}
use estuary.Prelude.Map
use estuary.Pinner.Operation.{PinningOperation, set_status, pinning}
use estuary.Pinner.Queue.{PinQueue}
use estuary.Pinner.Manager.{
  PinManager, increment, complete, enqueue_pin_op, pop_next_pin_op, queue_user,
}
use estuary.Pinner.Manager.Pop.{active_of, queued_of}
use estuary.Pinner.Manager.Counts.{get_or-increment}
use estuary.Pinner.Manager.Invariant.{Counted, Readable, enqueue-cases, enqueue-Counted}
use estuary.Pinner.Manager.Serve.{pop-Serves}
use estuary.Pinner.Manager.Completion.{complete-active, complete-active_other, complete-guard}
use estuary.Pinner.Loop.{Callbacks, System, receive, do_pinning}
use estuary.Pinner.Loop.Invariant.{AlwaysReadable, receive-cases}
use estuary.Pinner.Loop.NoLoss.{InQueue, enqueue_waits}

module _ {q : PinQueue} where
  -- A pin that succeeds, after its status was written, frees its content for another pin, and its
  -- user's place in the limit.
  pub do_pinning_frees :
      (pm : PinManager q) (po : PinningOperation) (calls : Callbacks) (now : ℕ)
      → calls.on_pinning ≡ none
      → calls.run_pin ≡ none
      → let pm' = (do_pinning q pm po calls now).0 in
        (Map.lookup po.cont_id pm'.duplicate_guard ≡ none)
        × (active_of pm' po.user_id ≡ active_of pm po.user_id -ℤ pos 1)
  unfolding do_pinning set_status
  do_pinning_frees pm po calls now h k =
      rw (h, k, do_pinning)
        (
          complete-guard pm (set_status po pinning now) now,
          complete-active pm (set_status po pinning now) now,
        )

  -- The pin that a manager gives after an operation for user 0 is queued behind nothing.
  first_of_0 :
      (pm : PinManager q) (po : PinningOperation) (b : q.Bytes)
      → Readable pm
      → Counted pm
      → q.items pm.pin_queue 0 ≡ b ∷ []
      → q.decode b ≡ some po
      → ((pop_next_pin_op q pm).0 ≡ some po)
        × ((pop_next_pin_op q pm).1.active_pins ≡ increment 0 pm.active_pins)
  first_of_0 pm po b r c first d = elim (pop-Serves pm r c) [
    | inl (_, inl empty) ↦ absurd (ground (arith, q.size_zero pm.pin_queue 0 empty))
    | inl (_, inr (none_of_0, _)) ↦ absurd (no_turn none_of_0)
    | inr (u, b', t, out, s) ↦ elim t.turn [
      | inr (none_of_0, _, _) ↦ absurd (no_turn none_of_0)
      | inl z ↦ (out ∙ ground (arith, s.oldest), s.active ∙ ap (λ v. increment v pm.active_pins) z)
    ]
  ]
    where
      no_turn : queued_of pm 0 ≤ℤ pos 0 → ⊥
      no_turn h = ground (arith, c.exact 0, ap length first)

  -- An operation that skips the limiter is counted for user 0 when it starts and for its own user when
  -- it ends. With correct counts, a readable queue and nothing queued for user 0, let an operation of
  -- another user be queued whose content is not guarded: it is given out next, and once it is completed
  -- user 0 has one pin in progress more than before and its user one less.
  pub skip_limiter_miscounts :
      (pm pm1 : PinManager q) (po : PinningOperation) (now : ℕ)
      → AlwaysReadable q
      → Counted pm
      → po.skip_limiter ≡ true
      → (po.user_id == 0) ≡ false
      → q.items pm.pin_queue 0 ≡ []
      → Map.lookup po.cont_id pm.duplicate_guard ≡ none
      → enqueue_pin_op q pm po ≡ some pm1
      → let r = pop_next_pin_op q pm1 in
        let done = (complete q r.1 po now).0 in
        (r.0 ≡ some po)
        × (active_of done 0 ≡ active_of pm 0 +ℤ pos 1)
        × (active_of done po.user_id ≡ active_of pm po.user_id -ℤ pos 1)
  skip_limiter_miscounts pm pm1 po now readable c skip user empty fresh e =
      elim (enqueue-cases pm pm1 po e) [
        | inl (_, (t, seen)) ↦ absurd (ground arith)
        | inr (b, _, r) ↦
            let u0 : queue_user po ≡ 0 = rw skip refl in
            let only : q.items pm1.pin_queue 0 ≡ b ∷ [] = ground (arith, r.items 0) in
            let (given, active) =
              first_of_0 pm1 po b (λ u. readable pm1.pin_queue u) (enqueue-Counted pm pm1 po e c)
                only (q.decode-encode po b r.encoded) in
            let pm2 = (pop_next_pin_op q pm1).1 in
            (
              given,
              ground (
                arith,
                complete-active_other pm2 po now 0 user,
                get_or-increment 0 0 pm1.active_pins,
                r.active,
              ),
              ground (
                arith,
                complete-active pm2 po now,
                get_or-increment 0 po.user_id pm1.active_pins,
                r.active,
              ),
            )
      ]

  -- While the loop holds nothing it takes an operation past the guard: if it then receives the same
  -- operation again, whose content was not guarded, it holds the first and has the second queued.
  pub received_twice :
      (s s1 s2 : System q) (op : PinningOperation)
      → s.next ≡ none
      → Map.lookup op.cont_id s.manager.duplicate_guard ≡ none
      → receive q s op ≡ some s1
      → receive q s1 op ≡ some s2
      → (s2.next ≡ some op) × InQueue op (queue_user op) s2.manager
  received_twice s s1 s2 op idle fresh e f = elim (receive-cases s s1 op e) [
    | inr (o, _, held, _, _) ↦ absurd (ground arith)
    | inl (_, first) ↦ elim (receive-cases s1 s2 op f) [
      | inl (empty, _) ↦ absurd (ground arith)
      | inr (o, pm, held, g, second) ↦
          (ground arith, rw second (enqueue_waits s1.manager pm op (rw first fresh) g))
    ]
  ]
