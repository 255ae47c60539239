-- ===== src/Deal/Transfer.antt =====
-- The updates of a deal from what is told of its data transfer: deal/transfer/status/status.go, and
-- UpdateDataTransferStatus of deal/transfer/events.go.
use estuary.Prelude.{ℕ, ◌==◌, Bool, true, if◌then◌else◌, String, Option, none, some}
use estuary.Db.{M, failure, pure, throw, ◌>>=◌, ◌>>◌, query, execute, now, or_not_found}
use estuary.Db.Table.{first}
use estuary.Model.{ContentDeal, Store}
use estuary.Model.Lookup.{get_content}
use estuary.Deal.Check.{has_deal_id, on_deal, or_now, is_none, record_failure}

-- The times of the stages that a transfer's state tells.
pub record Stages : Type 0 where
  pub requested : Option ℕ
  pub transfer_finished : Option ℕ

unfoldable pub get_deal : ℕ → M Store ContentDeal
get_deal id = query (λ s. first (has_deal_id id) s.content_deals) >>= or_not_found

abbrev pub set_stage : String → Stages → Bool → ℕ → ContentDeal → ContentDeal
set_stage chan st is_started t d =
    if is_started
    then record d { dt_chan = some chan; transfer_started = or_now st.requested t }
    else record d { dt_chan = some chan; transfer_finished = or_now st.transfer_finished t }

unfoldable pub write_stage : ℕ → String → Bool → Stages → M Store (Unit {0})
write_stage id chan is_started st = do
  deal ← get_deal id
  cont ← get_content deal.content
  t ← now
  execute (on_deal id (set_stage chan st is_started t))

unfoldable pub set_data_transfer_started_or_finished :
    ℕ → String → Option Stages → Bool → M Store (Unit {0})
set_data_transfer_started_or_finished id chan none is_started = pure tt
set_data_transfer_started_or_finished id chan (some st) is_started =
    write_stage id chan is_started st

abbrev pub set_channel : ℕ → String → ContentDeal → M Store (Unit {0})
set_channel id chan d =
    if is_none d.dt_chan
    then execute (on_deal id (λ x. record x { dt_chan = some chan }))
    else pure tt

-- The failure of a transfer: recorded, and the deal is marked as failed.
unfoldable pub fail_transfer : (ContentDeal → Bool) → ContentDeal → M Store (Unit {0})
fail_transfer has_miner d =
    if has_miner d
    then (do
      record_failure "data-transfer-remote"
      t ← now
      execute (on_deal d.id (λ x. record x { failed = true; failed_at = some t })))
    else throw (failure "miner address")

unfoldable pub update_transfer_of :
    (ContentDeal → Bool) → ℕ → String → Bool → ContentDeal → M Store (Unit {0})
update_transfer_of has_miner id chan is_failed d =
    set_channel id chan d >> (if is_failed then fail_transfer has_miner d else pure tt)

unfoldable pub update_data_transfer_status :
    (ContentDeal → Bool) → ℕ → String → Bool → M Store (Unit {0})
update_data_transfer_status has_miner id chan is_failed =
    if id == 0
    then throw (failure "received transfer status update with no identifier")
    else get_deal id >>= update_transfer_of has_miner id chan is_failed
