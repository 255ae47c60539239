-- ===== src/Tests/Deals.antt =====
-- Checking the deals of a content: one deal is sealed, one was slashed.
use estuary.Prelude.{
  ℕ, ◌+◌, ◌≡◌, refl, [], ◌∷◌, true, false, none, some, arith, ◌==◌, if◌then◌else◌,
}
use estuary.Prelude.Int.{ℤ, pos, pos_part, negsuc}
use estuary.Db.{World, ok, quiet, ◌>>=◌, query, execute, statement}
use estuary.Model.{ContentDeal, Store}
use estuary.Model.Lookup.{get_content}
use estuary.Deal.Check.{
  Answers, ChainDeal, sector_on_chain, check_chain, check_deal, update_transfer, record_failure,
}
use estuary.Deal.Check.Health.{Vouches, check_chain-Vouches}
use estuary.Deal.Replication.{
  check_content_deals, count_missing, inspect_deals, inspect_deal, tally_result, tally_deal,
  replace_deal, repair_deal, attempt, reconcile, missing_deals,
}
use estuary.Deal.Replication.Missing.{Enough, check_content_deals-Gives}
use estuary.Db.Table.{count}
use estuary.Deal.Workers.{deal_check_tick, check_due}
use estuary.Deal.Replication.Sparing.{check_tick-Settles}
use estuary.Tests.Tables.{cfg, content, database}

abbrev pub deal : ℕ → ℤ → ContentDeal
deal id on_chain = record {
  id = id;
  content = 1;
  user_id = 7;
  prop_cid = 60;
  miner = 1000 + id;
  deal_id = on_chain;
  failed = false;
  slashed = false;
  failed_at = none;
  dt_chan = none;
  transfer_started = none;
  transfer_finished = none;
  sealed_at = none;
  created_at = 1;
}

abbrev healthy : ChainDeal
healthy = record { slash_epoch = negsuc 0; end_epoch = pos 100000; sector_start_epoch = pos 12 }

abbrev answers : Answers
answers = record {
  has_miner = λ d. true;
  transfer_status = λ d c. ok none;
  chain_head = ok (pos 500);
  check_chain_deal = λ id.
      if pos_part id == 41
      then ok (some healthy)
      else ok (some (record healthy { slash_epoch = pos 7 }));
  has_uuid = λ d. true;
  provider_status = λ d. ok none;
  is_push_transfer = λ d. false;
  proposal_record = λ d. ok (pos 600);
  matches_on_chain = λ d c id. ok true;
  published_id = λ d cid. ok (pos 43);
  start_transfer = λ d. ok "chan-1";
  start_at_shuttle = λ d l. none;
  is_online = λ l. ok true;
}

abbrev with_deals : World Store
with_deals = quiet (record database { content_deals = deal 1 (pos 41) ∷ deal 2 (pos 42) ∷ [] }) 0 5

-- Six deals are wanted, and one of the two is good.
asks_for_five : (check_content_deals answers cfg 1 with_deals).0 ≡ ok (pos 5)
unfolding check_content_deals count_missing inspect_deals inspect_deal tally_result tally_deal
    replace_deal repair_deal attempt reconcile missing_deals check_deal check_chain update_transfer
    record_failure get_content query execute statement ◌>>=◌
asks_for_five = refl

check_content_deals-Gives_example : Enough answers cfg (content 1 (pos 8)) 2 (pos 5)
check_content_deals-Gives_example =
    check_content_deals-Gives answers cfg 1 (content 1 (pos 8)) with_deals (pos 5) refl
      (omega arith) asks_for_five

is_sealed :
    (check_chain (deal 1 (pos 41)) (pos 500) (some healthy) with_deals).0 ≡ ok sector_on_chain
unfolding check_chain execute statement ◌>>=◌
is_sealed = refl

check_chain-Vouches_example : Vouches (some healthy) (pos 500) sector_on_chain
check_chain-Vouches_example =
    check_chain-Vouches (deal 1 (pos 41)) (pos 500) (some healthy) with_deals sector_on_chain
      is_sealed

check_tick-Settles_example :
    let r = deal_check_tick (check_content_deals answers cfg) with_deals in
    (r.0 ≡ ok tt) × (count (check_due 5) r.1.store.deal_queue ≡ 0)
check_tick-Settles_example = check_tick-Settles answers cfg with_deals (λ n. refl)
