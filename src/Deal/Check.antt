-- ===== src/Deal/Check.antt =====
-- deal/check.go: how good a deal is, and how many deals a content still needs; with StartDataTransfer of
-- deal/transfer/transfer.go for a deal that has no transfer.

pub mod Health
pub mod Sparing
use estuary.Prelude.{
  ℕ, ◌+◌, ◌-◌, ◌*◌, ◌==◌, ltb, Bool, true, false, ◌&&◌, ◌||◌, not, if◌then◌else◌, List, [], ◌∷◌,
  ◌++◌, String, Option, none, some, keep,
}
use estuary.Prelude.Int.{ℤ, pos, ◌+ℤ◌, ◌-ℤ◌, ltb_ℤ, leb_ℤ, is_zero}
use estuary.Db.{
  M, Error, Result, ok, err, failure, pure, throw, ◌>>=◌, ◌>>◌, query, execute, now, catch,
}
use estuary.Db.Table.{update}
use estuary.Model.{Content, ContentDeal, Location, local_node, shuttle, Store, Config}
use estuary.Model.Lookup.{get_content}
use estuary.Staging.Queue.{hour}

pub data DealCheck : Type 0 where
  unknown progress deal_id_on_chain sector_on_chain nearly_expired slashed : DealCheck

pub data TransferStatus : Type 0 where
  transfer_finished completed cancelled transfer_failed other : TransferStatus

-- The state of a data transfer, with the times of the stages that it tells.
pub record Transfer : Type 0 where
  pub status : TransferStatus
  pub requested_at : Option ℕ
  pub finished_at : Option ℕ
  pub failed_at : Option ℕ

-- A deal on chain.
pub record ChainDeal : Type 0 where
  pub slash_epoch : ℤ
  pub end_epoch : ℤ
  pub sector_start_epoch : ℤ

-- What a provider tells of a deal: the start epoch of its proposal, if it has one, the id on chain, and
-- the CID of the message that published the deal.
pub record Provider : Type 0 where
  pub proposal_start : Option ℤ
  pub deal_id : ℤ
  pub publish_cid : Option ℕ

-- The answers of the chain, of providers, of the transfer manager and of the shuttles.
pub record Answers : Type 0 where
  pub has_miner : ContentDeal → Bool
  pub transfer_status : ContentDeal → Content → Result (Option Transfer)
  pub chain_head : Result ℤ
  pub check_chain_deal : ℤ → Result (Option ChainDeal)
  pub has_uuid : ContentDeal → Bool
  pub provider_status : ContentDeal → Result (Option Provider)
  pub is_push_transfer : ContentDeal → Bool
  pub proposal_record : ContentDeal → Result ℤ
  pub matches_on_chain : ContentDeal → Content → ℤ → Result Bool
  pub published_id : ContentDeal → ℕ → Result ℤ
  pub start_transfer : ContentDeal → Result String
  pub start_at_shuttle : ContentDeal → Location → Option Error
  pub is_online : Location → Result Bool

abbrev pub answer : {A : Type 0} → Result A → M Store A
answer (ok a) = pure a
answer (err e) = throw e

abbrev pub has_deal_id : ℕ → ContentDeal → Bool
has_deal_id id d = d.id == id

-- UPDATE content_deals SET ... WHERE id = ?
abbrev pub on_deal : ℕ → (ContentDeal → ContentDeal) → Store → Store
on_deal id f s = record s { content_deals = update (has_deal_id id) f s.content_deals }

unfoldable pub record_failure : String → M Store (Unit {0})
record_failure message = execute (λ s. record s { dfe_records = s.dfe_records ++ message ∷ [] })

-- The end of `StartDataTransfer`, with what the library answers.
unfoldable pub set_channel : ℕ → String → M Store (Unit {0})
set_channel id chan = execute (on_deal id (λ x. record x { dt_chan = some chan }))

abbrev pub after_start : ContentDeal → Result String → M Store (Unit {0})
after_start d (err e) = record_failure "start-data-transfer"
after_start d (ok chan) = set_channel d.id chan

abbrev pub return_error : Option Error → M Store (Unit {0})
return_error none = pure tt
return_error (some e) = throw e

-- constants.MinSafeDealLifetime
abbrev pub min_safe_deal_lifetime : ℤ
min_safe_deal_lifetime = pos (2880 * 21)

-- The part of `checkDeal` for a deal that has an id on chain, once the chain's answer is there.
unfoldable pub check_chain : ContentDeal → ℤ → Option ChainDeal → M Store DealCheck
check_chain d head none = pure unknown
check_chain d head (some deal) =
    if ltb_ℤ (pos 0) deal.slash_epoch
    then (do
      execute (on_deal d.id (λ x. record x { slashed = true }))
      record_failure "check-chain-deal"
      pure slashed)
    else if ltb_ℤ (deal.end_epoch -ℤ head) min_safe_deal_lifetime
    then pure nearly_expired
    else if ltb_ℤ (pos 0) deal.sector_start_epoch
    then (elim d.sealed_at [
      | some _ ↦ pure sector_on_chain
      | none ↦ (do
        t ← now
        execute (on_deal d.id (λ x. record x { sealed_at = some t }))
        pure sector_on_chain)
    ])
    else pure deal_id_on_chain

abbrev pub is_none : {A : Type 0} → Option A → Bool
is_none none = true
is_none (some a) = false

abbrev pub or_now : Option ℕ → ℕ → Option ℕ
or_now none t = some t
or_now (some u) t = some u

-- `util.TransferFailed`
abbrev pub is_failure : TransferStatus → Bool
is_failure cancelled = true
is_failure transfer_failed = true
is_failure _ = false

abbrev pub is_completed : TransferStatus → Bool
is_completed completed = true
is_completed _ = false

abbrev pub is_finished : TransferStatus → Bool
is_finished transfer_finished = true
is_finished completed = true
is_finished _ = false

-- Which of the three updates of a transfer's columns are due.
abbrev pub starts : ContentDeal → Transfer → Bool
starts d st = is_none d.transfer_started && is_completed st.status

abbrev pub finishes : ContentDeal → Transfer → Bool
finishes d st = is_finished st.status && is_none d.transfer_finished

abbrev pub fails_now : ContentDeal → Transfer → Bool
fails_now d st = is_none d.failed_at && is_failure st.status

abbrev pub set_transfer : ContentDeal → Transfer → ℕ → ContentDeal → ContentDeal
set_transfer d st t x = record x {
  transfer_started = if starts d st then or_now st.requested_at t else x.transfer_started;
  transfer_finished = if finishes d st then or_now st.finished_at t else x.transfer_finished;
  failed = if fails_now d st then true else x.failed;
  failed_at = if fails_now d st then or_now st.failed_at t else x.failed_at;
}

-- The transfer's times, written if there is one to write.
unfoldable pub update_transfer : ContentDeal → Option Transfer → M Store (Unit {0})
update_transfer d none = pure tt
update_transfer d (some st) =
    if starts d st || finishes d st || fails_now d st
    then (do t ← now; execute (on_deal d.id (set_transfer d st t)))
    else pure tt

abbrev pub set_deal_id : ℕ → ℤ → Store → Store
set_deal_id id on_chain s = on_deal id (λ x. record x { deal_id = on_chain }) s

-- A failure is recorded, and the deal is to be replaced.
unfoldable pub give_up : String → M Store DealCheck
give_up phase = record_failure phase >>= λ _. pure unknown

module _ (answers : Answers) (cfg : Config) where
  -- `dealHasExpired`
  unfoldable pub deal_has_expired : ContentDeal → ℤ → M Store Bool
  deal_has_expired d head = elim (answers.proposal_record d) [
    | ok start ↦ pure (ltb_ℤ start head)
    | err e ↦ (do t ← now; if ltb (14 * 24 * hour) (t - d.created_at) then pure true else throw e)
  ]

  -- No status from the provider.
  unfoldable pub check_expiry : ContentDeal → ℤ → M Store DealCheck
  check_expiry d head = do
    expired ← deal_has_expired d head
    if expired then give_up "check-status" else pure progress

  -- A transfer that failed, for a deal that waits for its data.
  unfoldable pub check_transfer : Option Transfer → M Store DealCheck
  check_transfer none = pure progress
  check_transfer (some st) =
      if is_failure st.status
      then (do
        record_failure "data-transfer"
        if cfg.fail_on_transfer_failure then pure unknown else pure progress)
      else pure progress

  -- `StartDataTransfer` for a deal that has none.
  unfoldable pub restart_at : ContentDeal → Location → M Store (Unit {0})
  restart_at d local_node =
      if not (answers.has_miner d)
      then throw (failure "miner address")
      else after_start d (answers.start_transfer d)
  restart_at d (shuttle handle) = return_error (answers.start_at_shuttle d (shuttle handle))

  unfoldable pub restart_transfer : ContentDeal → M Store (Unit {0})
  restart_transfer d = get_content d.content >>= λ cont. restart_at d cont.location

  -- A deal that is not published, from "proposal expired" on.
  unfoldable pub check_waiting : ContentDeal → ℤ → ℤ → Option Transfer → M Store DealCheck
  check_waiting d head start st = if ltb_ℤ start head then give_up "check-status" else (do
    t ← now
    if is_none d.dt_chan && ltb (t - d.created_at) hour
        then (if answers.is_push_transfer d
            then catch (restart_transfer d >> pure progress) (λ e. pure unknown)
            else pure progress)
        else check_transfer st)

  unfoldable pub check_published : ContentDeal → ℤ → ℤ → ℕ → M Store DealCheck
  check_published d head start cid = elim (answers.published_id d cid) [
    | ok id ↦ execute (set_deal_id d.id id) >>= (λ _. pure deal_id_on_chain)
    | err e ↦ if ltb_ℤ start head then give_up "check-status" else pure progress
  ]

  -- The id that the provider gives, confirmed on chain. The comparison is an answer: that it may fill in
  -- the CAR size of the piece commitment is left out.
  unfoldable pub confirm_deal_id : ContentDeal → Content → ℤ → M Store DealCheck
  confirm_deal_id d content id = do
    matches ← answer (answers.matches_on_chain d content id)
    if matches then (do execute (set_deal_id d.id id); pure deal_id_on_chain) else pure unknown

  unfoldable pub check_provider :
      ContentDeal → Content → ℤ → Option Transfer → Provider → M Store DealCheck
  check_provider d content head st p = elim p.proposal_start [
    | none ↦ (do
      t ← now
      if ltb (14 * 24 * hour) (t - d.created_at) then give_up "check-status" else pure unknown)
    | some start ↦
        if not (is_zero p.deal_id)
        then confirm_deal_id d content p.deal_id
        else elim p.publish_cid [
          | some cid ↦ check_published d head start cid
          | none ↦ check_waiting d head start st
        ]
  ]

  -- A deal without an id on chain.
  unfoldable pub check_with_provider :
      ContentDeal → Content → ℤ → Option Transfer → M Store DealCheck
  check_with_provider d content head st =
      if not (answers.has_uuid d)
      then throw (failure "parsing deal uuid")
      else elim (answers.provider_status d) [
        | err e ↦ check_expiry d head
        | ok none ↦ throw (failure "failed to lookup provider deal state")
        | ok (some p) ↦ check_provider d content head st p
      ]

  unfoldable pub check_deal : ContentDeal → Content → M Store DealCheck
  check_deal d content = if not (answers.has_miner d) then throw (failure "miner address") else (do
    st ← answer (answers.transfer_status d content)
    update_transfer d st
    head ← answer answers.chain_head
    if is_zero d.deal_id
        then check_with_provider d content head st
        else (do deal ← answer (answers.check_chain_deal d.deal_id); check_chain d head deal))
