-- ===== src/Deal/Queue/Admission.antt =====
-- Which contents reach the deal queue.
use estuary.Prelude.{ℕ, suc, ◌≡◌, refl, sym, ◌==◌, ◌&&◌, true, false, arith, some, ◌⊎◌, subst}
use estuary.Prelude.Int.{◌≤ℤ◌, pos}
use estuary.Db.{Result, World, ok, quiet, execute, ◌>>=◌, statement}
use estuary.Db.Run.{bind_ok}
use estuary.Db.Rows.{Gets, insert_new-Gets}
use estuary.Model.{Content, DealQueue, Store, Config}
use estuary.Model.Lookup.{content_of, get_content, get_content-quiet}
use estuary.Deal.Queue.{queue_found, queue_content, insert_task}

-- A content that deals are made for: pinned, in no aggregate, not the root of a split, large enough.
abbrev pub IsDealable : Config → Content → Type 0
IsDealable cfg c =
    (c.active ≡ true)
    × ((c.aggregated_in ≡ 0)
        × (((c.dag_split && c.split_from == 0) ≡ false) × (cfg.min_size ≤ℤ c.size)))

-- The row of a content that waits for its commitment and its deals.
abbrev pub waiting_row : Content → ℕ → DealQueue
waiting_row cont now = record {
  user_id = cont.user_id;
  cont_id = cont.id;
  cont_cid = cont.cid;
  commp_done = false;
  commp_attempted = 0;
  commp_next_attempt_at = now;
  can_deal = false;
  deal_count = pos 0;
  deal_check_next_attempt_at = now;
  deal_next_attempt_at = now;
}

-- The deal queue gets a row of the content unless it has one, and nothing else changes.
abbrev pub Enters : Content → ℕ → Store → Store → Type 0
Enters cont now s s' =
    Gets (λ r. r.cont_id == cont.id) (waiting_row cont now) s.deal_queue s'.deal_queue
    × (s' ≡ record s { deal_queue = s'.deal_queue })

insert_task-Enters :
    (cont : Content) (now : ℕ) (s : Store) → Enters cont now s (insert_task cont now s)
insert_task-Enters cont now s =
    (insert_new-Gets (λ r. r.cont_id == cont.id) (waiting_row cont now) s.deal_queue, refl)

-- Queueing a content succeeds and changes the deal queue only: a content that deals are made for gets a
-- row unless it has one, and any other changes nothing.
abbrev pub Admits : Config → Content → ℕ → Store → Result (Unit {0}) × World Store → Type 0
Admits cfg cont now s r =
    (r.0 ≡ ok tt)
    × ((IsDealable cfg cont × Enters cont now s r.1.store)
        ⊎ ((¬ IsDealable cfg cont) × (r.1.store ≡ s)))

found-Admits :
    (cfg : Config) (cont : Content) (s : Store) (t now : ℕ)
    → Admits cfg cont now s (queue_found cfg cont (quiet s t now))
unfolding queue_found execute statement ◌>>=◌
found-Admits cfg cont s t now = ground (arith, insert_task-Enters cont now s)

-- Where no statement fails, queueing a content that there is succeeds and changes the deal queue only:
-- a content that deals are made for gets a fresh row at the end unless it has one, and any other changes
-- nothing.
pub queue_content-Admits :
    (cfg : Config) (id : ℕ) (cont : Content) (s : Store) (t now : ℕ)
    → content_of id s ≡ some cont
    → Admits cfg cont now s (queue_content cfg id (quiet s t now))
unfolding queue_content
queue_content-Admits cfg id cont s t now h =
    subst (Admits cfg cont now s)
      (sym (
        bind_ok (get_content id) (queue_found cfg) (quiet s t now) cont (quiet s (suc t) now)
          (get_content-quiet id cont s t now h)))
      (found-Admits cfg cont s (suc t) now)
