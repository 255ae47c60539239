-- ===== src/Pinner/Tests/Restarts.antt =====
-- A manager that starts over a queue of two users.
use estuary.Prelude.{ℕ, ◌<◌, ◌≡◌, refl, [], ◌∷◌, List, none, some, true, false, arith, length, elem}
use estuary.Prelude.Int.{pos}
use estuary.Prelude.Map.{keys}
use estuary.Pinner.Operation.{PinningOperation, queued}
use estuary.Pinner.Manager.{PinManager}
use estuary.Pinner.Manager.Restart.{Lists, new_pin_manager, Restored, new_pin_manager-Restored}
use estuary.Pinner.Tests.Memory.{memory, Entries, items}

abbrev pin_of : ℕ → ℕ → PinningOperation
pin_of cont user = record {
  obj = "cid";
  name = "name";
  peers = "";
  meta = "";
  status = queued;
  user_id = user;
  cont_id = cont;
  replace = 0;
  last_update = 0;
  started = 0;
  fetch_err = none;
  end_time = 0;
  location = "local";
  skip_limiter = false;
  make_deal = true;
}

abbrev stored : Entries
stored = (4, pin_of 10 4) ∷ (3, pin_of 11 3) ∷ (4, pin_of 12 4) ∷ []

abbrev files : List PinningOperation
files = pin_of 11 3 ∷ pin_of 10 4 ∷ pin_of 12 4 ∷ []

abbrev listing : List (ℕ × ℕ)
listing = (3, 1) ∷ (4, 2) ∷ []

listed : (u : ℕ) → 0 < length (items stored u) → elem u (keys listing) ≡ true
unfolding items
listed u h = ground (arith, h)

stored-Lists : Lists memory stored listing
unfolding items
stored-Lists = record {
  lengths = (
    (refl, (omega arith, (omega arith, omega arith))),
    ((refl, (omega arith, (omega arith, omega arith))), tt),
  );
  whole = listed;
}

new_pin_manager-Restored_example :
    (pm : PinManager memory) × ((new_pin_manager memory (pos 15) (some files) stored listing
        ≡ some pm)
      × Restored memory files stored pm)
new_pin_manager-Restored_example =
    new_pin_manager-Restored memory (pos 15) files stored listing stored-Lists
