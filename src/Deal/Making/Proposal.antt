-- ===== src/Deal/Making/Proposal.antt =====
-- `MakeDealWithMiner` with `sendProposalV120` and `putProposalRecord` of deal/deal.go,
-- model/minerask.go, and `StartDataTransfer` of deal/transfer/transfer.go.
use estuary.Prelude.{
  ℕ, suc, ◌==◌, ltb, Bool, true, false, not, if◌then◌else◌, List, [], ◌∷◌, ◌++◌, String, Option,
  none, some,
}
use estuary.Prelude.Int.{pos}
use estuary.Db.{
  M, Error, Result, ok, err, failure, pure, throw, ◌>>=◌, ◌>>◌, execute, statement, now,
}
use estuary.Db.Table.{delete}
use estuary.Model.{Content, ContentDeal, ProposalRecord, Location, local_node, shuttle, Store}
use estuary.Model.Lookup.{get_content}
use estuary.Deal.Check.{answer, record_failure, has_deal_id, after_start, return_error}

pub record DealConfig : Type 0 where
  pub is_verified : Bool
  pub max_price : ℕ
  pub max_verified_price : ℕ

pub data Protocol : Type 0 where
  v110 v120 other_protocol : Protocol

pub record Ask : Type 0 where
  pub price : ℕ
  pub verified_price : ℕ

pub data AskAnswer : Type 0 where
  asked : Ask → AskAnswer
  lotus_error : AskAnswer
  ask_failed : AskAnswer

-- What sending a proposal tells: whether a prepared request has to be cleaned up, whether it failed in
-- the proposal's phase, and the error.
pub record Sent : Type 0 where
  pub cleanup : Bool
  pub prop_phase : Bool
  pub error : Option Error

-- The answers that `sendProposalV120` needs.
pub record Transport : Type 0 where
  pub auth_token : Option Error
  pub announce_addrs : List String
  pub parse_addr : String → Option Error
  pub prepare : Location → ℕ → Option Error
  pub is_online : Location → Result Bool
  pub shuttle_addrs : Location → Result (List String)
  pub send_proposal : Bool × Option Error

-- A miner, as it answers one attempt to make a deal.
pub record StorageProvider : Type 0 where
  pub protocol : Result Protocol
  pub ask : AskAnswer
  pub make_deal : Result ℕ
  pub as_ipld : ℕ → Result ℕ
  pub send_v110 : Bool × Option Error
  pub transport : Transport
  pub address_parses : Bool
  pub start_transfer : Result String
  pub start_at_shuttle : Location → Option Error

abbrev pub get_price : Ask → Bool → ℕ
get_price ask is_verified = if is_verified then ask.verified_price else ask.price

abbrev pub price_is_too_high : Ask → DealConfig → Bool
price_is_too_high ask cfg =
    if cfg.is_verified
    then ltb cfg.max_verified_price (get_price ask cfg.is_verified)
    else ltb cfg.max_price (get_price ask cfg.is_verified)

abbrev pub not_sent : Error → Sent
not_sent e = record { cleanup = false; prop_phase = false; error = some e }

-- From the announced address on: the request is prepared, and the proposal is sent.
abbrev pub send_prepared : Transport → Location → ℕ → String → Sent
send_prepared t loc dbid addr = elim (t.parse_addr addr) [
  | some e ↦ not_sent (failure "cannot parse announce address")
  | none ↦ elim (t.prepare loc dbid) [
    | some e ↦ not_sent (failure "preparing for data request")
    | none ↦ record { cleanup = true; prop_phase = t.send_proposal.0; error = t.send_proposal.1 }
  ]
]

abbrev pub send_first : Transport → Location → ℕ → List String → Sent
send_first t loc dbid [] = not_sent (failure "no announce address")
send_first t loc dbid (addr ∷ addrs) = send_prepared t loc dbid addr

abbrev pub send_from : Transport → Location → ℕ → Sent
send_from t local_node dbid = send_first t local_node dbid t.announce_addrs
send_from t (shuttle handle) dbid = elim (t.is_online (shuttle handle)) [
  | err e ↦ not_sent e
  | ok false ↦ not_sent (failure "shuttle is not online")
  | ok true ↦ elim (t.shuttle_addrs (shuttle handle)) [
    | err e ↦ not_sent e
    | ok addrs ↦ send_first t (shuttle handle) dbid addrs
  ]
]

abbrev pub send_proposal_v120 : Transport → Location → ℕ → Sent
send_proposal_v120 t loc dbid = elim t.auth_token [
  | some e ↦ not_sent (failure "generating auth token for deal")
  | none ↦ send_from t loc dbid
]

-- `switch proto`
abbrev pub send : StorageProvider → Protocol → Location → ℕ → Sent
send sp v110 loc dbid = record {
  cleanup = false;
  prop_phase = sp.send_v110.0;
  error = sp.send_v110.1;
}
send sp v120 loc dbid = send_proposal_v120 sp.transport loc dbid
send sp other_protocol loc dbid = not_sent (failure "unrecognized deal protocol")

abbrev pub create_proposal : ℕ → Store → ProposalRecord × Store
create_proposal cid s =
    let dp : ProposalRecord = record { prop_cid = cid } in
    (dp, record s { proposal_records = s.proposal_records ++ dp ∷ [] })

unfoldable pub put_proposal_record : StorageProvider → ℕ → M Store ProposalRecord
put_proposal_record sp proposal =
    answer (sp.as_ipld proposal) >>= λ cid. statement (create_proposal cid)

abbrev pub new_deal : Content → ℕ → ℕ → ℕ → ℕ → ContentDeal
new_deal content miner prop_cid id t = record {
  id = id;
  content = content.id;
  user_id = content.user_id;
  prop_cid = prop_cid;
  miner = miner;
  deal_id = pos 0;
  failed = false;
  slashed = false;
  failed_at = none;
  dt_chan = none;
  transfer_started = none;
  transfer_finished = none;
  sealed_at = none;
  created_at = t;
}

abbrev pub create_deal : Content → ℕ → ℕ → ℕ → Store → ContentDeal × Store
create_deal content miner prop_cid t s =
    let d = new_deal content miner prop_cid s.next_deal t in
    (d, record s { content_deals = s.content_deals ++ d ∷ []; next_deal = suc s.next_deal })

abbrev pub delete_deal : ℕ → Store → Store
delete_deal id s = record s { content_deals = delete (has_deal_id id) s.content_deals }

-- The rows with the proposal's CID: the table has no key.
abbrev pub delete_proposal : ProposalRecord → Store → Store
delete_proposal dp s = record s {
  proposal_records = delete (λ p. p.prop_cid == dp.prop_cid) s.proposal_records;
}

-- A proposal that could not be sent: its rows are deleted, and the failure is recorded.
unfoldable pub clean_up : ContentDeal → ProposalRecord → Sent → Error → M Store (Option ContentDeal)
clean_up d dp sent e = do
  execute (delete_deal d.id)
  execute (delete_proposal dp)
  record_failure (if sent.prop_phase then "propose" else "send-proposal")
  throw e

unfoldable pub start_local : StorageProvider → ContentDeal → M Store (Unit {0})
start_local sp d =
    if not sp.address_parses
    then throw (failure "miner address")
    else after_start d sp.start_transfer

unfoldable pub start_at : StorageProvider → ContentDeal → Location → M Store (Unit {0})
start_at sp d local_node = start_local sp d
start_at sp d (shuttle handle) = return_error (sp.start_at_shuttle (shuttle handle))

unfoldable pub start_data_transfer : StorageProvider → ContentDeal → M Store (Unit {0})
start_data_transfer sp d = get_content d.content >>= λ cont. start_at sp d cont.location

-- Only a push transfer is started here.
unfoldable pub start_push : StorageProvider → Protocol → ContentDeal → M Store (Option ContentDeal)
start_push sp v110 d = start_data_transfer sp d >>= λ _. pure (some d)
start_push sp v120 d = pure (some d)
start_push sp other_protocol d = pure (some d)

unfoldable pub after_sending :
    StorageProvider
    → Protocol
    → ContentDeal
    → ProposalRecord
    → Sent
    → Option Error
    → M Store (Option ContentDeal)
after_sending sp proto d dp sent (some e) = clean_up d dp sent e
after_sending sp proto d dp sent none = start_push sp proto d

-- The deal's row, and the sending.
unfoldable pub send_deal :
    StorageProvider → Content → ℕ → Protocol → ℕ → ProposalRecord → M Store (Option ContentDeal)
send_deal sp content miner proto prop_cid dp = do
  t ← now
  d ← statement (create_deal content miner prop_cid t)
  let sent = send sp proto content.location d.id in after_sending sp proto d dp sent sent.error

unfoldable pub propose_cid :
    StorageProvider → Content → ℕ → Protocol → ℕ → ℕ → M Store (Option ContentDeal)
propose_cid sp content miner proto proposal prop_cid =
    put_proposal_record sp proposal >>= send_deal sp content miner proto prop_cid

unfoldable pub propose_made :
    StorageProvider → Content → ℕ → Protocol → ℕ → M Store (Option ContentDeal)
propose_made sp content miner proto proposal =
    answer (sp.as_ipld proposal) >>= propose_cid sp content miner proto proposal

-- From the proposal on.
unfoldable pub propose : StorageProvider → Content → ℕ → Protocol → M Store (Option ContentDeal)
propose sp content miner proto = answer sp.make_deal >>= propose_made sp content miner proto

unfoldable pub with_ask :
    DealConfig → StorageProvider → Content → ℕ → Protocol → AskAnswer → M Store (Option ContentDeal)
with_ask cfg sp content miner proto lotus_error = throw (failure "failed to get ask")
with_ask cfg sp content miner proto ask_failed =
    record_failure "query-ask" >>= λ _. throw (failure "failed to get ask")
with_ask cfg sp content miner proto (asked ask) =
    if price_is_too_high ask cfg
    then throw (failure "miners price is too high")
    else propose sp content miner proto

-- The deal, or nil without an error: the failure to find the protocol is recorded and then forgotten.
unfoldable pub with_protocol :
    DealConfig → StorageProvider → Content → ℕ → Result Protocol → M Store (Option ContentDeal)
with_protocol cfg sp content miner (err e) =
    record_failure "deal-protocol-version" >>= λ _. pure none
with_protocol cfg sp content miner (ok proto) = with_ask cfg sp content miner proto sp.ask

unfoldable pub make_deal_with_miner :
    DealConfig → StorageProvider → Content → ℕ → M Store (Option ContentDeal)
make_deal_with_miner cfg sp content miner = with_protocol cfg sp content miner sp.protocol
