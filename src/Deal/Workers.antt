-- ===== src/Deal/Workers.antt =====
-- deal/worker.go: one tick of the deal check worker, of the deal worker and of the backfill. `check`
-- and `make` are `checkContentDeals` and `makeDealsForContent`, as the loops call them.
pub mod Progress
use estuary.Prelude.{
  ℕ, ◌+◌, ◌<◌, ◌==◌, ltb, Bool, true, false, ◌&&◌, not, if◌then◌else◌, List, [], ◌∷◌, keep, Option,
  none, some,
}
use estuary.Prelude.Int.{ℤ, pos, ◌<ℤ◌, leb_ℤ, ltb_ℤ}
use estuary.Db.{ok, err, M, Error, Result, pure, ◌>>=◌, ◌>>◌, query, execute, now, catch}
use estuary.Model.{Content, DealQueue, Store, Config}
use estuary.Deal.Queue.{deal_complete, deal_failed, deal_check_complete, deal_check_failed}

-- The rows that are due for a check at a time.
abbrev pub check_due : ℕ → DealQueue → Bool
check_due t r = r.commp_done && not r.can_deal && ltb r.deal_check_next_attempt_at t

-- The rows that are due for deals.
abbrev pub deal_due : ℕ → DealQueue → Bool
deal_due t r = r.commp_done && r.can_deal && ltb r.deal_next_attempt_at t

-- Go's `if err != nil { failed } else { done }` in a loop that goes on either way.
unfoldable pub settle :
    {A : Type 0} → M Store A → (A → M Store (Unit {0})) → M Store (Unit {0}) → M Store (Unit {0})
settle m done failed w = let r = m w in elim r.0 [ ok a ↦ done a r.1 | err e ↦ failed r.1 ]

-- The deal check worker's loop over its tasks.
unfoldable pub check_tasks : (ℕ → M Store ℤ) → List DealQueue → M Store (Unit {0})
check_tasks check [] = pure tt
check_tasks check (t ∷ tasks) =
    settle (check t.cont_id) (deal_check_complete t.cont_id) (deal_check_failed t.cont_id)
    >> check_tasks check tasks

unfoldable pub deal_check_tick : (ℕ → M Store ℤ) → M Store (Unit {0})
deal_check_tick check = do
  t ← now
  tasks ← query (λ s. keep (check_due t) s.deal_queue)
  check_tasks check tasks

-- The deal worker's loop over its tasks.
unfoldable pub deal_tasks : (ℕ → ℤ → M Store (Unit {0})) → List DealQueue → M Store (Unit {0})
deal_tasks make [] = pure tt
deal_tasks make (t ∷ tasks) =
    settle (make t.cont_id t.deal_count) (λ _. deal_complete t.cont_id) (deal_failed t.cont_id)
    >> deal_tasks make tasks

unfoldable pub deal_tick : (ℕ → ℤ → M Store (Unit {0})) → M Store (Unit {0})
deal_tick make = do
  t ← now
  tasks ← query (λ s. keep (deal_due t) s.deal_queue)
  deal_tasks make tasks
