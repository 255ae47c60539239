-- ===== src/Tests/Tables.antt =====
-- A configuration and a small database.
use estuary.Prelude.{ℕ, [], ◌∷◌, true, false, Bool}
use estuary.Prelude.Int.{ℤ, pos}
use estuary.Db.{World, quiet}
use estuary.Model.{
  Config, Content, StagingZone, DealQueue, Object, ObjRef, Store, local_node, opened,
}

abbrev pub cfg : Config
cfg = record {
  min_size = pos 10;
  max_size = pos 100;
  replication = pos 6;
  fail_on_transfer_failure = false;
}

abbrev pub content : ℕ → ℤ → Content
content id size = record {
  id = id;
  created_at = 1;
  cid = id;
  name = "file";
  user_id = 7;
  size = size;
  active = false;
  offloaded = false;
  replication = pos 6;
  aggregated_in = 0;
  aggregate = false;
  pinning = true;
  failed = false;
  location = local_node;
  dag_split = false;
  split_from = 0;
}

abbrev pub zone : StagingZone
zone = record {
  id = 1;
  created_at = 1;
  min_size = pos 10;
  max_size = pos 100;
  size = pos 90;
  user_id = 7;
  cont_id = 2;
  location = local_node;
  status = opened;
  message = opened;
  attempted = 0;
  next_attempt_at = 0;
}

-- A row that is due for deals, or for a check, at the time 5.
abbrev pub task : ℕ → Bool → DealQueue
task cont can_deal = record {
  user_id = 7;
  cont_id = cont;
  cont_cid = cont;
  commp_done = true;
  commp_attempted = 0;
  commp_next_attempt_at = 0;
  can_deal = can_deal;
  deal_count = pos 6;
  deal_check_next_attempt_at = 0;
  deal_next_attempt_at = 0;
}

abbrev object : ℕ → ℕ → Object
object id cid = record { id = id; cid = cid; size = 4; reads = 0; last_access = 0 }

abbrev ref : ℕ → ℕ → ObjRef
ref cont obj = record { content = cont; object = obj; offloaded = 0 }

-- Content 1 is in no zone, content 2 is the zone's, and content 3 failed in it. Contents 1 and 3 share
-- the CID 51, each by an object of its own, and content 1 has the CID 50 to itself.
abbrev pub database : Store
database = record {
  contents =
      content 1 (pos 8)
      ∷ record (content 2 (pos 90)) { aggregate = true }
      ∷ record (content 3 (pos 4)) { aggregated_in = 2 }
      ∷ [];
  staging_zones = zone ∷ [];
  staging_zone_queue = [];
  deal_queue = task 4 true ∷ task 5 false ∷ [];
  split_queue = [];
  content_deals = [];
  proposal_records = [];
  sanity_checks = [];
  dfe_records = [];
  objects = object 1 50 ∷ object 2 51 ∷ object 3 51 ∷ [];
  obj_refs = ref 1 1 ∷ ref 1 2 ∷ ref 3 3 ∷ [];
  blocks = 50 ∷ 51 ∷ [];
  piece_comm_records = [];
  shuttle_connections = [];
  shuttles = [];
  next_content = 4;
  next_zone = 2;
  next_object = 4;
  next_deal = 3;
}

abbrev pub today : World Store
today = quiet database 0 5
