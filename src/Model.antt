-- ===== src/Model.antt =====
-- The tables: model/stagingzone.go, model/stagingzonequeue.go, model/dealqueue.go,
-- model/splitqueue.go, model/contentdeal.go, model/dferecord.go and, of util/content.go, contents,
-- objects and their references. Columns that no modelled operation reads are left out. A time, a
-- CID and a miner's address are numbers; a location is the primary node ("local") or a shuttle, by its handle.
pub mod Lookup
use estuary.Prelude.{ℕ, String, Bool, true, false, List, ◌==◌, Option}
use estuary.Prelude.Int.{ℤ}

pub data Location : Type 0 where
  local_node : Location
  shuttle : ℕ → Location

abbrev pub same_location : Location → Location → Bool
same_location local_node local_node = true
same_location (shuttle a) (shuttle b) = a == b
same_location local_node (shuttle b) = false
same_location (shuttle a) local_node = false

pub record Content : Type 0 where
  pub id : ℕ
  pub created_at : ℕ
  pub cid : ℕ
  pub name : String
  pub user_id : ℕ
  pub size : ℤ
  pub active : Bool
  pub offloaded : Bool
  pub replication : ℤ
  pub aggregated_in : ℕ
  pub aggregate : Bool
  pub pinning : Bool
  pub failed : Bool
  pub location : Location
  pub dag_split : Bool
  pub split_from : ℕ

pub data ZoneStatus : Type 0 where
  aggregating consolidating done stuck opened : ZoneStatus

pub record StagingZone : Type 0 where
  pub id : ℕ
  pub created_at : ℕ
  pub min_size : ℤ
  pub max_size : ℤ
  pub size : ℤ
  pub user_id : ℕ
  pub cont_id : ℕ
  pub location : Location
  pub status : ZoneStatus
  pub message : ZoneStatus  -- each message belongs to one status
  pub attempted : ℕ
  pub next_attempt_at : ℕ

pub record StagingZoneQueue : Type 0 where
  pub user_id : ℕ
  pub cont_id : ℕ
  pub failing : Bool
  pub next_attempt_at : ℕ
  pub is_back_filled : Bool

pub record DealQueue : Type 0 where
  pub user_id : ℕ
  pub cont_id : ℕ
  pub cont_cid : ℕ
  pub commp_done : Bool
  pub commp_attempted : ℕ
  pub commp_next_attempt_at : ℕ
  pub can_deal : Bool
  pub deal_count : ℤ
  pub deal_check_next_attempt_at : ℕ
  pub deal_next_attempt_at : ℕ

pub record SplitQueue : Type 0 where
  pub user_id : ℕ
  pub cont_id : ℕ
  pub failing : Bool
  pub attempted : ℕ
  pub next_attempt_at : ℕ

pub record ContentDeal : Type 0 where
  pub id : ℕ
  pub content : ℕ
  pub user_id : ℕ
  pub prop_cid : ℕ
  pub miner : ℕ
  pub deal_id : ℤ
  pub failed : Bool
  pub slashed : Bool
  pub failed_at : Option ℕ
  pub dt_chan : Option String  -- none is the empty one
  pub transfer_started : Option ℕ
  pub transfer_finished : Option ℕ
  pub sealed_at : Option ℕ
  pub created_at : ℕ

pub record ProposalRecord : Type 0 where
  pub prop_cid : ℕ

pub record Object : Type 0 where
  pub id : ℕ
  pub cid : ℕ
  pub size : ℕ
  pub reads : ℕ
  pub last_access : ℕ

pub record ObjRef : Type 0 where
  pub content : ℕ
  pub object : ℕ
  pub offloaded : ℕ

pub record PieceCommRecord : Type 0 where
  pub data_cid : ℕ
  pub piece : ℕ
  pub car_size : ℕ
  pub size : ℕ

pub record ShuttleConnection : Type 0 where
  pub handle : ℕ
  pub updated_at : ℕ
  pub is_private : Bool
  pub content_adding_disabled : Bool
  pub space_low : Bool
  pub blockstore_size : ℕ
  pub blockstore_free : ℕ
  pub pin_count : ℤ
  pub pin_queue_length : ℤ

pub record Shuttle : Type 0 where
  pub handle : ℕ
  pub is_open : Bool
  pub priority : ℤ

pub record Store : Type 0 where
  pub contents : List Content
  pub staging_zones : List StagingZone
  pub staging_zone_queue : List StagingZoneQueue
  pub deal_queue : List DealQueue
  pub split_queue : List SplitQueue
  pub content_deals : List ContentDeal
  pub proposal_records : List ProposalRecord
  pub sanity_checks : List ℕ  -- the contents that are corrupted
  pub dfe_records : List String
  pub objects : List Object
  pub obj_refs : List ObjRef
  pub blocks : List ℕ  -- the CIDs in the block store
  pub piece_comm_records : List PieceCommRecord
  pub shuttle_connections : List ShuttleConnection
  pub shuttles : List Shuttle
  pub next_content : ℕ
  pub next_zone : ℕ
  pub next_object : ℕ
  pub next_deal : ℕ

-- The part of the configuration that the queues and zones read (config/content.go, config/estuary.go).
pub record Config : Type 0 where
  pub min_size : ℤ
  pub max_size : ℤ
  pub replication : ℤ
  pub fail_on_transfer_failure : Bool
