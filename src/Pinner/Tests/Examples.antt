-- ===== src/Pinner/Tests/Examples.antt =====
-- Concrete managers and runs.
use estuary.Prelude.{
  ℕ, ◌≡◌, refl, [], ◌∷◌, none, some, true, false, arith, inl, inr, ◌⊎◌, Bool, length,
}
use estuary.Prelude.Int.{pos, negsuc}
use estuary.Prelude.Map
use estuary.Pinner.Operation.{PinningOperation, queued}
use estuary.Pinner.Manager.{
  PinManager, complete, enqueue_pin_op, pop_next_pin_op, pop_chosen, pick_user, choose_user,
  dequeue_user, increment,
}
use estuary.Pinner.Manager.Pop.{IsTurn, IsIdle, active_of}
use estuary.Pinner.Manager.Serve.{IsServed, pop-Serves}
use estuary.Pinner.Loop.{
  Callbacks, System, Reach, here, more, hands_out, receive, hand_out, do_pinning,
}
use estuary.Pinner.Loop.Invariant.{AlwaysReadable, Reach-Counted}
use estuary.Pinner.Loop.NoLoss.{Waits, OnRun, InProgress, InQueue, Reach-Waits}
use estuary.Pinner.Loop.Limits.{do_pinning_frees, skip_limiter_miscounts, received_twice}
use estuary.Pinner.Manager.Invariant.{Counted}
use estuary.Pinner.Tests.Memory.{memory, items, dequeue, enqueue, dequeue_readable}

abbrev pin_of : ℕ → ℕ → Bool → PinningOperation
pin_of cont user skip = record {
  obj = "cid";
  name = "name";
  peers = "";
  meta = "";
  status = queued;
  user_id = user;
  cont_id = cont;
  replace = 0;
  last_update = 0;
  started = 0;
  fetch_err = none;
  end_time = 0;
  location = "local";
  skip_limiter = skip;
  make_deal = true;
}

-- Users 3 and 4 each have a pin queued; user 4 has two in progress.
abbrev two_users : PinManager memory
two_users = record {
  duplicate_guard = (10, true) ∷ (11, true) ∷ [];
  active_pins = (4, pos 2) ∷ [];
  pin_queue_count = (4, pos 1) ∷ (3, pos 1) ∷ [];
  pin_queue = (4, pin_of 10 4 false) ∷ (3, pin_of 11 3 false) ∷ [];
  max_active_per_user = pos 15;
}

two_users-exact :
    (u : ℕ)
    → Map.get_or u two_users.pin_queue_count (pos 0) ≡ pos (length (items two_users.pin_queue u))
unfolding Map.get_or items
two_users-exact u = ground arith

two_users-Counted : Counted two_users
two_users-Counted = record { exact = two_users-exact; positive = omega arith }

abbrev readable : AlwaysReadable memory
readable = λ r u. dequeue_readable r u

pop-Serves_example :
    ((pop_next_pin_op memory two_users ≡ (none, two_users)) × IsIdle two_users)
    ⊎ ((u : ℕ) × (b : PinningOperation) × IsTurn two_users u
        × ((pop_next_pin_op memory two_users).0 ≡ some b)
        × IsServed two_users (pop_next_pin_op memory two_users).1 u b)
pop-Serves_example = pop-Serves two_users (λ u. readable two_users.pin_queue u) two_users-Counted

-- User 3 has no pin in progress, so its pin is given first.
serves_user_3 : (pop_next_pin_op memory two_users).0 ≡ some (pin_of 11 3 false)
unfolding pop_next_pin_op pop_chosen pick_user choose_user dequeue_user Map.get_or dequeue
serves_user_3 = refl

abbrev waiting : System memory
waiting = record {
  manager = two_users;
  next = some (pin_of 12 5 false);
  in_progress = [];
  pin_complete = [];
}

Reach-Counted_example : Counted (hand_out memory waiting).manager
Reach-Counted_example =
    Reach-Counted readable {s = waiting} (more here (hands_out refl)) two_users-Counted

abbrev handed_out : Reach memory waiting (hand_out memory waiting)
handed_out = more here (hands_out refl)

Reach-Waits_example :
    Waits (pin_of 11 3 false) (hand_out memory waiting)
    ⊎ OnRun (InProgress (pin_of 11 3 false)) handed_out
unfolding items
Reach-Waits_example =
    Reach-Waits readable {s = waiting} (pin_of 11 3 false) two_users-Counted (inr (3, inl refl))
      handed_out

abbrev succeeds : Callbacks
succeeds = record { on_pinning = none; run_pin = none; on_failed = none }

do_pinning_frees_example :
    Map.lookup 10 (do_pinning memory two_users (pin_of 10 4 false) succeeds 7).0.duplicate_guard
    ≡ none
do_pinning_frees_example = (do_pinning_frees two_users (pin_of 10 4 false) succeeds 7 refl refl).0

-- A shuttle's pin for user 9, which skips the limiter.
abbrev urgent : PinningOperation
urgent = pin_of 20 9 true

abbrev with_urgent : PinManager memory
with_urgent = record two_users {
  pin_queue = (4, pin_of 10 4 false) ∷ (3, pin_of 11 3 false) ∷ (0, urgent) ∷ [];
  duplicate_guard = (10, true) ∷ (11, true) ∷ (20, true) ∷ [];
  pin_queue_count = (4, pos 1) ∷ (3, pos 1) ∷ (0, pos 1) ∷ [];
}

enqueue_urgent : enqueue_pin_op memory two_users urgent ≡ some with_urgent
unfolding enqueue_pin_op Map.lookup Map.insert increment Map.get_or enqueue
enqueue_urgent = refl

skip_limiter_miscounts_example :
    active_of (complete memory (pop_next_pin_op memory with_urgent).1 urgent 5).0 9 ≡ negsuc 0
unfolding Map.get_or items Map.lookup
skip_limiter_miscounts_example =
    (skip_limiter_miscounts two_users with_urgent urgent 5 readable two_users-Counted refl refl refl
      refl enqueue_urgent).2

-- A loop that holds nothing, given the same operation twice.
abbrev idle : System memory
idle = record waiting { next = none }

abbrev given_once : System memory
given_once = record waiting { next = some (pin_of 12 5 false) }

abbrev given_twice : System memory
given_twice = record given_once {
  manager = record two_users {
    pin_queue = (4, pin_of 10 4 false) ∷ (3, pin_of 11 3 false) ∷ (5, pin_of 12 5 false) ∷ [];
    duplicate_guard = (10, true) ∷ (11, true) ∷ (12, true) ∷ [];
    pin_queue_count = (4, pos 1) ∷ (3, pos 1) ∷ (5, pos 1) ∷ [];
  };
}

received_twice_example : InQueue (pin_of 12 5 false) 5 given_twice.manager
unfolding receive enqueue_pin_op Map.lookup Map.insert increment Map.get_or enqueue
received_twice_example =
    (received_twice idle given_once given_twice (pin_of 12 5 false) refl refl refl refl).1
