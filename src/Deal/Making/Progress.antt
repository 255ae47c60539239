-- ===== src/Deal/Making/Progress.antt =====
-- A tick of the deal worker with the code's own deal making.
use estuary.Prelude.{
  ℕ, suc, zero, ◌≡◌, Bool, false, List, [], ◌∷◌, Option, none, some, not, ◌||◌, elem, keep,
}
use estuary.Prelude.Int.{ℤ, pos_part, ltb_ℤ}
use estuary.Db.{ok, World, M, pure, ◌>>=◌}
use estuary.Db.Table.{count}
use estuary.Model.{Content, ContentDeal, Location, local_node, shuttle, Store, Config}
use estuary.Deal.Check.Sparing.{
  Keeps, pure-Keeps, throw-Keeps, query-Keeps, >>=-Keeps, if-Keeps, answer-Keeps, get_content-Keeps,
}
use estuary.Deal.Replication.{live_deal}
use estuary.Deal.Making.{
  DealMaker, excluded_miners, count_deal, deal_round, deal_rounds, make_rounds, pick_and_deal,
  deal_beside, exclude_and_deal, deals_for_ready, deals_for, make_deals_for_content,
}
use estuary.Deal.Making.Ready.{
  Readiness, check_content_ready, check_state, check_blocks, check_shuttle, check_datacap,
  check_balance,
}
use estuary.Deal.Making.Sparing.{
  Keeps-Spares, >>=-Spares, if-Spares, unless_failed-Spares, make_deal_with_miner-Keeps,
}
use estuary.Deal.Workers.{deal_tick, deal_due}
use estuary.Deal.Workers.Progress.{Spares, made_one_deal-Spares, deal_tick-Settles}

module _ (ready : Readiness) (cfg : Config) (content : Content) where
  check_balance-Keeps : (o : Option ℕ) → Keeps (check_balance ready content o)
  unfolding check_balance
  check_balance-Keeps none = throw-Keeps
  check_balance-Keeps (some cap) = if-Keeps _ pure-Keeps pure-Keeps

  check_shuttle-Keeps : (l : Location) → Keeps (check_shuttle ready.is_online l)
  unfolding check_shuttle
  check_shuttle-Keeps local_node = pure-Keeps
  check_shuttle-Keeps (shuttle h) =
      >>=-Keeps (answer-Keeps (ready.is_online (shuttle h)))
        (λ online. if-Keeps online pure-Keeps throw-Keeps)

  check_state-Keeps : Keeps (check_state ready.deal_making_disabled ready.is_online cfg content)
  unfolding check_state check_blocks
  check_state-Keeps = if-Keeps (not content.active || content.pinning) throw-Keeps (
      if-Keeps content.offloaded throw-Keeps (
        if-Keeps (ltb_ℤ content.size cfg.min_size) throw-Keeps (
          if-Keeps (ltb_ℤ cfg.max_size content.size) throw-Keeps (
            if-Keeps ready.deal_making_disabled throw-Keeps (
              >>=-Keeps (query-Keeps (λ s. elem content.id s.sanity_checks)) (λ corrupted.
                if-Keeps corrupted throw-Keeps (check_shuttle-Keeps content.location)))))))

  check_content_ready-Keeps : Keeps (check_content_ready ready cfg content)
  unfolding check_content_ready check_datacap
  check_content_ready-Keeps = >>=-Keeps check_state-Keeps (λ _.
      if-Keeps ready.is_verified (>>=-Keeps (answer-Keeps ready.balance) check_balance-Keeps)
        pure-Keeps)

excluded_miners-Keeps :
    (has_miner : ContentDeal → Bool) (deals : List ContentDeal)
    → Keeps (excluded_miners has_miner deals)
unfolding excluded_miners
excluded_miners-Keeps has_miner [] = pure-Keeps
excluded_miners-Keeps has_miner (d ∷ deals) =
    if-Keeps (has_miner d) (>>=-Keeps (excluded_miners-Keeps has_miner deals) (λ ex. pure-Keeps))
      throw-Keeps

module _ (maker : DealMaker) (cfg : Config) (t : ℕ) where
  round-Spares :
      (i : ℕ) (content : Content) (miners ex : List ℕ)
      → Spares (deal_due t) (deal_round maker cfg i content miners ex)
  unfolding deal_round count_deal
  round-Spares i content [] ex = Keeps-Spares (deal_due t) (pure ex) pure-Keeps
  round-Spares i content (miner ∷ miners) ex =
      let rest = round-Spares i content miners ex in
      if-Spares (deal_due t) (elem miner ex) rest (
        unless_failed-Spares (deal_due t)
          (Keeps-Spares (deal_due t) _ (
            make_deal_with_miner-Keeps maker.deal_config (maker.storage_provider i miner) content
              miner))
          rest
          (λ _.
            >>=-Spares (deal_due t) (made_one_deal-Spares t content.id)
              (λ _. Keeps-Spares (deal_due t) (pure (miner ∷ ex)) pure-Keeps)))

  rounds-Spares :
      (i : ℕ) (content : Content) (miners ex : List ℕ)
      → Spares (deal_due t) (deal_rounds maker cfg i content miners ex)
  unfolding deal_rounds
  rounds-Spares zero content miners ex = Keeps-Spares (deal_due t) (pure ex) pure-Keeps
  rounds-Spares (suc i) content miners ex =
      >>=-Spares (deal_due t) (round-Spares i content miners ex) (rounds-Spares i content miners)

  -- Of a step that leaves the queue alone, and the steps after it.
  after :
      {A B : Type 0} {m : M Store A} {f : A → M Store B}
      → Keeps m
      → ((a : A) → Spares (deal_due t) (f a))
      → Spares (deal_due t) (m >>= f)
  after {m = m} h k = >>=-Spares (deal_due t) (Keeps-Spares (deal_due t) m h) k

  make_deals_for_content-Spares :
      (cont_id : ℕ) (n : ℤ) → Spares (deal_due t) (make_deals_for_content maker cfg cont_id n)
  unfolding make_deals_for_content deals_for deals_for_ready exclude_and_deal deal_beside
      pick_and_deal make_rounds
  make_deals_for_content-Spares cont_id n = after (get_content-Keeps cont_id) (λ content.
      after (check_content_ready-Keeps maker.readiness cfg content) (λ _.
        after (answer-Keeps (maker.piece_size content)) (λ size.
          after (query-Keeps (λ s. keep (live_deal content.id) s.content_deals)) (λ deals.
            after (excluded_miners-Keeps maker.has_miner deals) (λ ex.
              after (answer-Keeps (maker.pick_miners size ex)) (λ miners.
                >>=-Spares (deal_due t) (rounds-Spares (pos_part n) content miners ex)
                  (λ _. Keeps-Spares (deal_due t) (pure tt) pure-Keeps)))))))

-- A tick of the deal worker with the code's own deal making, where no statement fails and whatever
-- miners, chain and shuttles answer, runs through all its tasks, and no row is due for deals after it.
pub make_tick-Settles :
    (maker : DealMaker) (cfg : Config) (w : World Store)
    → ((n : ℕ) → w.fails n ≡ false)
    → let r = deal_tick (make_deals_for_content maker cfg) w in
      (r.0 ≡ ok tt) × (count (deal_due w.now) r.1.store.deal_queue ≡ 0)
make_tick-Settles maker cfg w h =
    deal_tick-Settles (make_deals_for_content maker cfg) (make_deals_for_content-Spares maker cfg) w
      h
