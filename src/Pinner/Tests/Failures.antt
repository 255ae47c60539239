-- ===== src/Pinner/Tests/Failures.antt =====
-- A manager whose only worker fails to pin content 10, while content 11 is queued and 12 is held.
use estuary.Prelude.{
  ℕ, ◌≡◌, ◌==◌, Bool-cases, inl, inr, refl, [], ◌∷◌, All, none, some, true, false, arith, length,
}
use estuary.Prelude.Int.{pos}
use estuary.Prelude.Map
use estuary.Pinner.Operation.{PinningOperation, queued}
use estuary.Pinner.Manager.{PinManager}
use estuary.Pinner.Manager.Invariant.{Counted}
use estuary.Pinner.Loop.{Callbacks, System, here, more, wakes, receive, finish, wake, do_pinning}
use estuary.Pinner.Loop.Abandoned.{Elsewhere, Abandoned}
use estuary.Pinner.Loop.Stuck.{failed_pin_stuck}
use estuary.Pinner.Tests.Memory.{memory, items, dequeue_readable}

abbrev pin_of : ℕ → ℕ → PinningOperation
pin_of cont user = record {
  obj = "cid";
  name = "name";
  peers = "";
  meta = "";
  status = queued;
  user_id = user;
  cont_id = cont;
  replace = 0;
  last_update = 0;
  started = 0;
  fetch_err = none;
  end_time = 0;
  location = "local";
  skip_limiter = false;
  make_deal = true;
}

abbrev manager : PinManager memory
manager = record {
  duplicate_guard = (10, true) ∷ (11, true) ∷ [];
  active_pins = (4, pos 1) ∷ [];
  pin_queue_count = (3, pos 1) ∷ [];
  pin_queue = (3, pin_of 11 3) ∷ [];
  max_active_per_user = pos 15;
}

abbrev busy : System memory
busy = record {
  manager = manager;
  next = some (pin_of 12 5);
  in_progress = pin_of 10 4 ∷ [];
  pin_complete = [];
}

abbrev fails : Callbacks
fails = record { on_pinning = none; run_pin = some "no peers"; on_failed = none }

manager-exact :
    (u : ℕ)
    → Map.get_or u manager.pin_queue_count (pos 0) ≡ pos (length (items manager.pin_queue u))
unfolding Map.get_or items
manager-exact u = ground arith

manager-Counted : Counted manager
manager-Counted = record { exact = manager-exact; positive = (omega arith, tt) }

other_contents : (u : ℕ) → All (Elsewhere memory 10) (items manager.pin_queue u)
unfolding items
other_contents u = elim (Bool-cases (3 == u)) [
  | inl e ↦ rw e ((λ po h p. absurd (ground (arith, h, p))), tt)
  | inr e ↦ rw e tt
]

busy-Abandoned : Abandoned memory 10 (record busy { in_progress = [] })
unfolding Map.lookup
busy-Abandoned = record {
  guard = (true, refl);
  next = λ po h p. absurd (ground (arith, h, p));
  working = tt;
  queued = other_contents;
}

abbrev failed : System memory
failed = finish memory busy [] (pin_of 10 4) [] fails 7

-- The loop hears of the end of the pin.
abbrev heard : System memory
heard = wake memory failed []

failed_pin_stuck_example :
    (failed.manager.active_pins ≡ (4, pos 1) ∷ [])
    × (receive memory heard (pin_of 10 4) ≡ some heard)
unfolding finish do_pinning wake
failed_pin_stuck_example =
    failed_pin_stuck busy heard [] (pin_of 10 4) [] fails 7 "no peers" (pin_of 10 4) (pin_of 12 5)
      (λ r u. dequeue_readable r u) manager-Counted refl refl refl busy-Abandoned
      (more here (wakes _ [] refl refl)) (tt, tt) refl refl
