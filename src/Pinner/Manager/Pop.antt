-- ===== src/Pinner/Manager/Pop.antt =====
-- What `popNextPinOp` does, on every branch.
use estuary.Prelude.{
  ℕ, ◌≡◌, refl, ◌==◌, true, false, arith, inl, inr, Bool-cases, elem, ◌⊎◌, ◌&&◌, not, none,
}
use estuary.Prelude.Int.{ℤ, pos, ltb_ℤ, leb_ℤ, ◌<ℤ◌, ◌≤ℤ◌}
use estuary.Prelude.Map.{get_or, keys}
use estuary.Pinner.Queue.{PinQueue}
use estuary.Pinner.Manager.{
  Choice, no_choice, PinManager, pick_user, dequeue_user, pop_chosen, pop_next_pin_op,
}
use estuary.Pinner.Manager.Counts.{IsPositive, get_or_positive}
use estuary.Pinner.Manager.Fairness.{IsLeast, choose_user-IsLeast}

module _ {q : PinQueue} where
  abbrev pub active_of : PinManager q → ℕ → ℤ
  active_of pm u = get_or u pm.active_pins (pos 0)

  abbrev pub queued_of : PinManager q → ℕ → ℤ
  queued_of pm u = get_or u pm.pin_queue_count (pos 0)

  -- It is the turn of `u`: the limiter does not apply (user 0), or nothing of user 0 is queued, `u`
  -- is below the limit, and no user with queued pins has fewer in progress.
  pub record IsTurn (pm : PinManager q) (u : ℕ) : Type 0 where
    pub queued : pos 0 <ℤ queued_of pm u
    pub turn :
        (u ≡ 0)
        ⊎ ((queued_of pm 0 ≤ℤ pos 0)
            × (active_of pm u <ℤ pm.max_active_per_user)
            × ((v : ℕ)
                → elem v (keys pm.pin_queue_count) ≡ true
                → active_of pm u ≤ℤ active_of pm v))

  -- Nothing may start: the queue is empty, or nothing of user 0 is queued and every user with queued
  -- pins is at the limit (or at the 10000 that the search starts from).
  abbrev pub IsIdle : PinManager q → Type 0
  IsIdle pm =
      (q.size pm.pin_queue ≡ 0)
      ⊎ ((queued_of pm 0 ≤ℤ pos 0)
          × ((v : ℕ)
              → elem v (keys pm.pin_queue_count) ≡ true
              → (pm.max_active_per_user ≤ℤ active_of pm v) ⊎ (pos 10000 ≤ℤ active_of pm v)))

  module _ (pm : PinManager q) (positive : IsPositive pm.pin_queue_count) where
    -- What holds of the choice that `pick_user` makes.
    abbrev IsPick : Choice → Type 0
    IsPick c =
        ((c.user ≡ 0) × (c.success ≡ true) × (pos 0 <ℤ queued_of pm 0))
        ⊎ ((queued_of pm 0 ≤ℤ pos 0) × IsLeast pm.active_pins pm.pin_queue_count no_choice c)

    pick_user-IsPick : IsPick (pick_user q pm)
    unfolding pick_user
    pick_user-IsPick = elim (Bool-cases (ltb_ℤ (pos 0) (queued_of pm 0))) [
      | inl e ↦ inl (ground arith)
      | inr e ↦
          rw (e, pick_user)
            (inr (ground arith, choose_user-IsLeast pm.active_pins pm.pin_queue_count no_choice))
    ]

    -- A user that was found has a positive count, and the least of the counts in progress.
    found :
        (c : Choice)
        → queued_of pm 0 ≤ℤ pos 0
        → IsLeast pm.active_pins pm.pin_queue_count no_choice c
        → c.success ≡ true
        → ((leb_ℤ pm.max_active_per_user c.min_count && not (c.user == 0)) ≡ false)
        → IsTurn pm c.user
    found c none_of_0 l s limit = elim l.from [
      | inl same ↦ absurd (ground arith)
      | inr (_, inside, active, _) ↦
          let queued = get_or_positive c.user pm.pin_queue_count inside positive in
          record {
            queued = queued;
            turn = inr (
              none_of_0,
              elim (Bool-cases (c.user == 0)) [
                | inl z ↦ absurd (ground (arith, queued))
                | inr z ↦ ground arith
              ],
              λ v h. rw (← active) (l.least v h),
            );
          }
    ]

    unfound :
        (c : Choice) (v : ℕ)
        → IsLeast pm.active_pins pm.pin_queue_count no_choice c
        → c.success ≡ false
        → elem v (keys pm.pin_queue_count) ≡ true
        → pos 10000 ≤ℤ active_of pm v
    unfound c v l s h = elim l.from [
      | inl same ↦ ground (arith, l.least v)
      | inr (t, _, _, _) ↦ absurd (ground arith)
    ]

    pop_chosen-cases :
        (c : Choice)
        → IsPick c
        → ((pop_chosen q pm c ≡ (none, pm)) × IsIdle pm)
          ⊎ ((u : ℕ) × (pop_chosen q pm c ≡ dequeue_user q pm u) × IsTurn pm u)
    unfolding pop_chosen
    pop_chosen-cases c (inl (z, s, n)) =
        inr (0, ground arith, record { queued = n; turn = inl refl })
    pop_chosen-cases c (inr (z, l)) =
        elim (Bool-cases (leb_ℤ pm.max_active_per_user c.min_count && not (c.user == 0))) [
          | inl e ↦ inl (rw e, inr (z, λ v h. inl (ground (arith, l.least v))))
          | inr e ↦ elim (Bool-cases c.success) [
            | inl s ↦ inr (c.user, rw (e, s), found c z l s e)
            | inr s ↦ inl (rw (e, s), inr (z, λ v h. inr (unfound c v l s h)))
          ]
        ]

    pub pop-cases :
        ((pop_next_pin_op q pm ≡ (none, pm)) × IsIdle pm)
        ⊎ ((u : ℕ) × (pop_next_pin_op q pm ≡ dequeue_user q pm u) × IsTurn pm u)
    unfolding pop_next_pin_op
    pop-cases = elim (Bool-cases (q.size pm.pin_queue == 0)) [
      | inl z ↦ inl (rw z, inl (ground arith))
      | inr z ↦ rw (z) (pop_chosen-cases (pick_user q pm) pick_user-IsPick)
    ]
