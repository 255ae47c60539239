-- ===== src/Tests/Making.antt =====
-- Making the deals of a content: of three miners one has no protocol that can be found, one asks for too
-- much, and one makes a deal.
use estuary.Prelude.{ℕ, ◌≡◌, refl, [], ◌∷◌, true, false, none, some, arith, ◌==◌, if◌then◌else◌}
use estuary.Prelude.Int.{pos, pos_part, ◌-ℤ◌}
use estuary.Db.{Result, ok, err, failure, quiet, ◌>>=◌, query, execute, statement}
use estuary.Db.Table.{count}
use estuary.Model.{Content, Store, Location}
use estuary.Model.Lookup.{get_content}
use estuary.Deal.Queue.{on_queue, made_one_deal}
use estuary.Deal.Check.{record_failure}
use estuary.Deal.Workers.{deal_tick, deal_due}
use estuary.Deal.Making.{
  DealMaker, make_deals_for_content, deals_for, deals_for_ready, exclude_and_deal, deal_beside,
  pick_and_deal, make_rounds, deal_rounds, deal_round, count_deal, unless_failed, excluded_miners,
}
use estuary.Deal.Making.Ready.{
  Readiness, check_content_ready, check_state, check_blocks, check_shuttle, check_datacap,
  check_balance,
}
use estuary.Deal.Check.{set_channel}
use estuary.Deal.Making.Proposal.{
  StorageProvider, Protocol, v110, v120, asked, make_deal_with_miner, with_protocol, with_ask,
  propose, propose_made, propose_cid, send_deal, put_proposal_record, after_sending, start_push,
  start_data_transfer, start_at, start_local,
}
use estuary.Deal.Making.Miners.{SpreadOver}
use estuary.Deal.Making.Spread.{make_deals_for_content-SpreadOver}
use estuary.Deal.Making.Progress.{make_tick-Settles}
use estuary.Deal.Making.Limits.{
  IsReady, make_deals_for_content-IsReady, datacap_ignored, phantom_deal,
}
use estuary.Tests.Tables.{cfg, content, database}
use estuary.Tests.Deals.{deal}

abbrev ready : Readiness
ready = record {
  deal_making_disabled = false;
  is_verified = true;
  is_online = λ l. ok true;
  balance = ok (some 1000);
  padded = pos_part;
}

abbrev storage_provider : Result Protocol → ℕ → StorageProvider
storage_provider proto price = record {
  protocol = proto;
  ask = asked (record { price = 9; verified_price = price });
  make_deal = ok 60;
  as_ipld = λ p. ok p;
  send_v110 = (false, none);
  transport = record {
    auth_token = none;
    announce_addrs = "/ip4/10.0.0.1" ∷ [];
    parse_addr = λ a. none;
    prepare = λ l id. none;
    is_online = λ l. ok true;
    shuttle_addrs = λ l. ok ("/ip4/10.0.0.2" ∷ []);
    send_proposal = (false, none);
  };
  address_parses = true;
  start_transfer = ok "chan-1";
  start_at_shuttle = λ l. none;
}

abbrev maker : DealMaker
maker = record {
  deal_config = record { is_verified = true; max_price = 5; max_verified_price = 5 };
  readiness = ready;
  piece_size = λ c. ok 128;
  has_miner = λ d. true;
  pick_miners = λ size ex. ok (1001 ∷ 2001 ∷ 2002 ∷ 2003 ∷ []);
  storage_provider = λ i m.
      if m == 2001
      then storage_provider (err (failure "stream reset")) 1
      else if m == 2002
      then storage_provider (ok v120) 8
      else storage_provider (ok v110) 2;
}

abbrev pinned : Content
pinned = record (content 1 (pos 50)) { active = true; pinning = false }

-- The content 1 has a deal with the miner 1001.
abbrev before : Store
before = record database { contents = pinned ∷ []; content_deals = deal 1 (pos 41) ∷ [] }

parses : (i m : ℕ) → (maker.storage_provider i m).address_parses ≡ true
parses i m = ground arith

starts : (i m : ℕ) (l : Location) → (maker.storage_provider i m).start_at_shuttle l ≡ none
starts i m l = ground arith

make_deals_for_content-SpreadOver_example :
    SpreadOver 1 3 (make_deals_for_content maker cfg 1 (pos 2) (quiet before 0 5)).1.store
make_deals_for_content-SpreadOver_example =
    make_deals_for_content-SpreadOver maker cfg 5 parses starts 1 (pos 2) pinned before 0 1 refl
      (omega arith, tt) (refl, omega arith)

make_tick-Settles_example :
    let r = deal_tick (make_deals_for_content maker cfg) (quiet before 0 5) in
    (r.0 ≡ ok tt) × (count (deal_due 5) r.1.store.deal_queue ≡ 0)
make_tick-Settles_example = make_tick-Settles maker cfg (quiet before 0 5) (λ n. refl)

ends_well : (make_deals_for_content maker cfg 1 (pos 2) (quiet before 0 5)).0 ≡ ok tt
unfolding make_deals_for_content deals_for deals_for_ready exclude_and_deal deal_beside
    pick_and_deal make_rounds deal_rounds deal_round count_deal unless_failed excluded_miners
    check_content_ready check_state check_blocks check_shuttle check_datacap check_balance
    make_deal_with_miner with_protocol with_ask propose propose_made propose_cid send_deal
    put_proposal_record after_sending start_push start_data_transfer start_at start_local
    set_channel get_content made_one_deal record_failure query execute statement ◌>>=◌
ends_well = refl

make_deals_for_content-IsReady_example : IsReady ready cfg pinned before
make_deals_for_content-IsReady_example =
    make_deals_for_content-IsReady maker cfg 1 (pos 2) pinned (quiet before 0 5) refl ends_well

datacap_ignored_example :
    check_content_ready (record ready { balance = ok (some 1000) }) cfg pinned
    ≡ check_content_ready (record ready { balance = ok (some 1) }) cfg pinned
datacap_ignored_example = datacap_ignored ready cfg pinned 1000 1

phantom_deal_example :
    deal_round maker cfg 0 pinned (2001 ∷ 2003 ∷ []) (1001 ∷ []) (quiet before 0 5) ≡ (
      ok (2001 ∷ 1001 ∷ []),
      quiet
          (on_queue
            (λ t r. record r { deal_count = r.deal_count -ℤ pos 1 })
            1
            0
            (record before { dfe_records = "deal-protocol-version" ∷ [] }))
          2
          5,
    )
phantom_deal_example =
    phantom_deal maker cfg 0 pinned 2001 (2003 ∷ []) (1001 ∷ []) before 0 5 (failure "stream reset")
      refl refl
