-- ===== src/Deal/Queue.antt =====
-- deal/queue/queue.go: the contents that wait for deals, one row for each content.
pub mod Admission
use estuary.Prelude.{
  ℕ, ◌+◌, ◌*◌, ◌==◌, Bool, true, false, ◌&&◌, not, if◌then◌else◌, Option, none, some,
}
use estuary.Prelude.Int.{ℤ, pos, ◌-ℤ◌, ltb_ℤ, is_zero}
use estuary.Db.{M, Error, pure, ◌>>=◌, ◌>>◌, query, execute, now, or_not_found, catch}
use estuary.Db.Table.{update, insert_new, first}
use estuary.Model.{Content, DealQueue, Store, Config}
use estuary.Staging.Queue.{hour}
use estuary.Model.Lookup.{get_content}

abbrev pub of_content : ℕ → DealQueue → Bool
of_content cont_id r = r.cont_id == cont_id

abbrev pub task : Content → ℕ → DealQueue
task cont t = record {
  user_id = cont.user_id;
  cont_id = cont.id;
  cont_cid = cont.cid;
  commp_done = false;
  commp_attempted = 0;
  commp_next_attempt_at = t;
  can_deal = false;
  deal_count = pos 0;
  deal_check_next_attempt_at = t;
  deal_next_attempt_at = t;
}

abbrev pub on_queue : (ℕ → DealQueue → DealQueue) → ℕ → ℕ → Store → Store
on_queue f cont_id t s = record s { deal_queue = update (of_content cont_id) (f t) s.deal_queue }

-- INSERT ... ON CONFLICT DO NOTHING, where the content's id is unique.
abbrev pub insert_task : Content → ℕ → Store → Store
insert_task cont t s = record s {
  deal_queue = insert_new (of_content cont.id) (task cont t) s.deal_queue;
}

-- `QueueContent` after the content is fetched, with its early returns.
unfoldable pub queue_found : Config → Content → M Store (Unit {0})
queue_found cfg cont =
    if not cont.active
    then pure tt
    else if not (cont.aggregated_in == 0)
    then pure tt
    else if cont.dag_split && cont.split_from == 0
    then pure tt
    else if ltb_ℤ cont.size cfg.min_size
    then pure tt
    else (do t ← now; execute (insert_task cont t))

unfoldable pub queue_content : Config → ℕ → M Store (Unit {0})
queue_content cfg cont_id = get_content cont_id >>= queue_found cfg

abbrev pub completed : ℕ → DealQueue → DealQueue
completed t r = record r {
  can_deal = false;
  deal_count = pos 0;
  deal_check_next_attempt_at = t + 10 * hour;
}

-- Errors of these updates are logged only.
abbrev pub logged : M Store (Unit {0}) → M Store (Unit {0})
logged m = catch m (λ e. pure tt)

unfoldable pub deal_complete : ℕ → M Store (Unit {0})
deal_complete cont_id = logged (now >>= λ t. execute (on_queue completed cont_id t))

abbrev pub checked : ℤ → ℕ → DealQueue → DealQueue
checked deals_to_be_made t r = record r {
  can_deal = not (is_zero deals_to_be_made);
  deal_count = deals_to_be_made;
  deal_check_next_attempt_at = t + 10 * hour;
}

unfoldable pub deal_check_complete : ℕ → ℤ → M Store (Unit {0})
deal_check_complete cont_id deals_to_be_made =
    logged (now >>= λ t. execute (on_queue (checked deals_to_be_made) cont_id t))

unfoldable pub made_one_deal : ℕ → M Store (Unit {0})
made_one_deal cont_id =
    execute (on_queue (λ t r. record r { deal_count = r.deal_count -ℤ pos 1 }) cont_id 0)

abbrev pub postponed : ℕ → DealQueue → DealQueue
postponed t r = record r { deal_next_attempt_at = t + hour }

unfoldable pub deal_failed : ℕ → M Store (Unit {0})
deal_failed cont_id = logged (now >>= λ t. execute (on_queue postponed cont_id t))

abbrev pub check_postponed : ℕ → DealQueue → DealQueue
check_postponed t r = record r { deal_check_next_attempt_at = t + hour }

unfoldable pub deal_check_failed : ℕ → M Store (Unit {0})
deal_check_failed cont_id = logged (now >>= λ t. execute (on_queue check_postponed cont_id t))
