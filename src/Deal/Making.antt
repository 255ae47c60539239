-- ===== src/Deal/Making.antt =====
-- deal/deal.go, model/minerask.go and, of deal/transfer/transfer.go, StartDataTransfer: making the
-- deals of a content. A miner, the chain, the shuttles and the transfer library answer through records
-- of parameters; a miner may answer differently each time that it is asked.
pub mod Ready
pub mod Proposal
pub mod Outcome
pub mod Attempt
pub mod Miners
pub mod Rounds
pub mod Spread
pub mod Sparing
pub mod Progress
pub mod Limits
use estuary.Prelude.{
  ℕ, zero, suc, ◌==◌, ltb, Bool, true, false, ◌&&◌, ◌||◌, not, if◌then◌else◌, List, [], ◌∷◌, ◌++◌,
  String, Option, none, some, keep, map, elem,
}
use estuary.Prelude.Int.{ℤ, pos, pos_part}
use estuary.Db.{
  M, World, Error, Result, ok, err, failure, pure, throw, ◌>>=◌, ◌>>◌, query, execute, statement,
}
use estuary.Model.{Content, ContentDeal, Store, Config}
use estuary.Model.Lookup.{get_content}
use estuary.Deal.Queue.{made_one_deal}
use estuary.Deal.Check.{answer}
use estuary.Deal.Replication.{live_deal}
use estuary.Deal.Making.Ready.{Readiness, check_content_ready}
use estuary.Deal.Making.Proposal.{StorageProvider, DealConfig, make_deal_with_miner}

-- What the deal maker asks of the rest: whether a content may have deals, its piece size, an address of a
-- deal's miner, the miners to try without those excluded, and each of them in each round.
pub record DealMaker : Type 0 where
  pub deal_config : DealConfig
  pub readiness : Readiness
  pub piece_size : Content → Result ℕ
  pub has_miner : ContentDeal → Bool
  pub pick_miners : ℕ → List ℕ → Result (List ℕ)
  pub storage_provider : ℕ → ℕ → StorageProvider

-- `if _, err := m; err != nil { ...; continue }`, and what follows.
unfoldable pub unless_failed : {A B : Type 0} → M Store A → M Store B → (A → M Store B) → M Store B
unless_failed m skip go w = let r = m w in elim r.0 [ ok a ↦ go a r.1 | err e ↦ skip r.1 ]

-- The miners of the deals that a content has.
unfoldable pub excluded_miners : (ContentDeal → Bool) → List ContentDeal → M Store (List ℕ)
excluded_miners has_miner [] = pure []
excluded_miners has_miner (d ∷ deals) =
    if has_miner d
    then (excluded_miners has_miner deals >>= λ ex. pure (d.miner ∷ ex))
    else throw (failure "miner address")

module _ (maker : DealMaker) (cfg : Config) where
  -- A miner that made its deal.
  unfoldable pub count_deal : ℕ → ℕ → List ℕ → M Store (List ℕ)
  count_deal cont_id miner excluded = made_one_deal cont_id >>= λ _. pure (miner ∷ excluded)

  -- One round: the first miner that makes a deal is excluded from then on.
  unfoldable pub deal_round : ℕ → Content → List ℕ → List ℕ → M Store (List ℕ)
  deal_round i content [] excluded = pure excluded
  deal_round i content (miner ∷ miners) excluded =
      let rest = deal_round i content miners excluded in
      if elem miner excluded
      then rest
      else unless_failed
          (make_deal_with_miner maker.deal_config (maker.storage_provider i miner) content miner)
          rest (λ _. count_deal content.id miner excluded)

  -- The rounds, counted down.
  unfoldable pub deal_rounds : ℕ → Content → List ℕ → List ℕ → M Store (List ℕ)
  deal_rounds zero content miners excluded = pure excluded
  deal_rounds (suc i) content miners excluded =
      deal_round i content miners excluded >>= deal_rounds i content miners

  -- The stages of `makeDealsForContent`, from the last to the first.
  unfoldable pub make_rounds : Content → ℤ → List ℕ → List ℕ → M Store (Unit {0})
  make_rounds content n excluded miners =
      deal_rounds (pos_part n) content miners excluded >>= λ _. pure tt

  unfoldable pub pick_and_deal : Content → ℤ → ℕ → List ℕ → M Store (Unit {0})
  pick_and_deal content n piece_size excluded =
      answer (maker.pick_miners piece_size excluded) >>= make_rounds content n excluded

  unfoldable pub deal_beside : Content → ℤ → ℕ → List ContentDeal → M Store (Unit {0})
  deal_beside content n piece_size existing =
      excluded_miners maker.has_miner existing >>= pick_and_deal content n piece_size

  unfoldable pub exclude_and_deal : Content → ℤ → ℕ → M Store (Unit {0})
  exclude_and_deal content n piece_size =
      query (λ s. keep (live_deal content.id) s.content_deals) >>= deal_beside content n piece_size

  unfoldable pub deals_for_ready : Content → ℤ → M Store (Unit {0})
  deals_for_ready content n = answer (maker.piece_size content) >>= exclude_and_deal content n

  unfoldable pub deals_for : ℤ → Content → M Store (Unit {0})
  deals_for n content =
      check_content_ready maker.readiness cfg content >>= λ _. deals_for_ready content n

  unfoldable pub make_deals_for_content : ℕ → ℤ → M Store (Unit {0})
  make_deals_for_content cont_id deals_to_be_made =
      get_content cont_id >>= deals_for deals_to_be_made
