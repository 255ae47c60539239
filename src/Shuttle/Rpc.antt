-- ===== src/Shuttle/Rpc.antt =====
-- shuttle/rpc/rpc.go: what the primary node does with the messages of a shuttle. The transports and the
-- cache of transfer states are libraries: what is sent or cached is the handler's answer.
pub mod Garbage
pub mod Completion
pub mod Aggregates
use estuary.Prelude.{
  ℕ, ◌+◌, ◌/◌, ◌==◌, ltb, Bool, true, false, ◌||◌, not, if◌then◌else◌, List, [], ◌∷◌, ◌++◌, String,
  Option, none, some,
}
use estuary.Prelude.Int.{ℤ}
use estuary.Db.{
  M, World, Error, Result, ok, err, db_error, record_not_found, zone_could_not_be_claimed,
  wait_for_remote_aggregate, failure, pure, throw, ◌>>=◌, ◌>>◌, query, statement, execute,
  transaction, now, or_not_found,
}
use estuary.Db.Table.{update}
use estuary.Model.{
  Content, ContentDeal, StagingZone, ShuttleConnection, PieceCommRecord, Location, local_node,
  shuttle, same_location, done, Store, Config,
}
use estuary.Model.Lookup.{content_of, has_id, get_content}
use estuary.Pinner.Operation.{PinningStatus}
use estuary.Pinner.Status.{update_content, update_content_pin_status}
use estuary.Pinner.Block.{Node, create_objects, create_refs, add_objects_to_database}
use estuary.Contents.Commp.{compute_completed, compute_failed}
use estuary.Deal.Transfer.{
  Stages, set_data_transfer_started_or_finished, get_deal, set_channel, fail_transfer,
}
use estuary.Shuttle.Location.{has_handle}

pub record PinComplete : Type 0 where
  pub db_id : ℕ
  pub cid : ℕ
  pub objects : List Node

pub record ShuttleUpdate : Type 0 where
  pub blockstore_size : ℕ
  pub blockstore_free : ℕ
  pub num_pins : ℤ
  pub pin_queue_size : ℤ

pub record TransferEvent : Type 0 where
  pub deal_db_id : ℕ
  pub chan : String
  pub state : Option Stages

-- The status of a transfer's state is a number, and `datatransfer.Failed` is one of them.
pub record TransferStatus : Type 0 where
  pub deal_db_id : ℕ
  pub chan : String
  pub state : Option ℕ
  pub failed : Bool

-- The messages, each with its parameters, which may be nil.
pub data Message : Type 0 where
  pin_status : Option (ℕ × PinningStatus) → Message
  pin_complete : Option PinComplete → Message
  commp_complete : Option PieceCommRecord → Message
  commp_failed : Option ℕ → Message
  transfer_started : Option TransferEvent → Message
  transfer_finished : Option TransferEvent → Message
  transfer_status : Option TransferStatus → Message
  shuttle_update : Option ShuttleUpdate → Message
  garbage_check : Option (List ℕ) → Message
  split_complete : Option ℕ → Message
  split_failed : Option ℕ → Message
  sanity_check : Option ℕ → Message
  other : Message

-- What a handler does outside the database: a command to unpin contents, a state for the cache, or the
-- start of the search for a missing block.
pub data Effect : Type 0 where
  no_effect : Effect
  unpin_contents : List ℕ → Effect
  cache_status : ℕ → Option ℕ → Effect
  find_missing_block : ℕ → Effect

abbrev pub set_space : ShuttleUpdate → ℕ → ShuttleConnection → ShuttleConnection
set_space p t c = record c {
  space_low = ltb p.blockstore_free (p.blockstore_size / 10);
  blockstore_free = p.blockstore_free;
  blockstore_size = p.blockstore_size;
  pin_count = p.num_pins;
  pin_queue_length = p.pin_queue_size;
  updated_at = t;
}

abbrev pub on_connection : ℕ → (ShuttleConnection → ShuttleConnection) → Store → Store
on_connection handle f s = record s {
  shuttle_connections = update (has_handle handle) f s.shuttle_connections;
}

unfoldable pub handle_shuttle_update : ℕ → ShuttleUpdate → M Store (Unit {0})
handle_shuttle_update handle p = now >>= λ t. execute (on_connection handle (set_space p t))

-- What a content adds to the list to unpin. One that is not found is added twice: the empty row that is
-- left is at no location, so the second test adds it again.
abbrev pub garbage_of : ℕ → ℕ → Option Content → List ℕ
garbage_of handle id none = id ∷ id ∷ []
garbage_of handle id (some c) =
    if not (same_location c.location (shuttle handle)) || c.offloaded then id ∷ [] else []

unfoldable pub collect_garbage : ℕ → List ℕ → M Store (List ℕ)
collect_garbage handle [] = pure []
collect_garbage handle (id ∷ ids) = query (content_of id) >>= λ c.
    collect_garbage handle ids >>= λ rest. pure (garbage_of handle id c ++ rest)

unfoldable pub handle_garbage_check : ℕ → List ℕ → M Store Effect
handle_garbage_check handle ids = collect_garbage handle ids >>= λ ids. pure (unpin_contents ids)

abbrev pub complete_aggregate : ℕ → Location → Content → Content
complete_aggregate cid loc c = record c {
  active = true;
  pinning = false;
  cid = cid;
  location = loc;
}

abbrev pub finish_zone : ℕ → Location → Store → Store
finish_zone cont_id loc s = record s {
  staging_zones =
      update (λ z. z.cont_id == cont_id)
        (λ z. record z { status = done; message = done; location = loc }) s.staging_zones;
}

-- The transaction for an aggregate.
unfoldable pub save_aggregate : Config → Content → ℕ → Node → Location → M Store (Unit {0})
save_aggregate cfg cont cid o loc = do
  ids ← statement (create_objects (o ∷ []))
  execute (create_refs cont.id ids)
  execute (update_content cont.id (complete_aggregate cid loc))
  execute (finish_zone cont.id loc)
  estuary.Deal.Queue.queue_content cfg cont.id

unfoldable pub pin_aggregate : Config → Content → ℕ → List Node → Location → M Store (Unit {0})
pin_aggregate cfg cont cid [] loc = throw (failure "aggregate has more than 1 objects")
pin_aggregate cfg cont cid (o ∷ []) loc = transaction (save_aggregate cfg cont cid o loc)
pin_aggregate cfg cont cid (o ∷ o' ∷ objects) loc =
    throw (failure "aggregate has more than 1 objects")

abbrev pub move : Location → Content → Content
move loc c = record c { location = loc }

-- `handlePinningComplete` once the content is found.
unfoldable pub pin_found : Config → ℕ → PinComplete → Content → M Store (Unit {0})
pin_found cfg handle p cont =
    if cont.active
    then execute (update_content cont.id (move (shuttle handle)))
    else if cont.aggregate
    then pin_aggregate cfg cont p.cid p.objects (shuttle handle)
    else add_objects_to_database cfg cont p.objects (shuttle handle)

abbrev pub pin_looked_up : Config → ℕ → PinComplete → Option Content → M Store (Unit {0})
pin_looked_up cfg handle p none = pure tt
pin_looked_up cfg handle p (some cont) = pin_found cfg handle p cont

unfoldable pub handle_pinning_complete : Config → ℕ → PinComplete → M Store (Unit {0})
handle_pinning_complete cfg handle p = query (content_of p.db_id) >>= pin_looked_up cfg handle p

unfoldable pub handle_split_complete : ℕ → M Store (Unit {0})
handle_split_complete id =
    if id == 0
    then throw (failure "split complete send with ID = 0")
    else estuary.Split.Queue.split_complete id

unfoldable pub handle_split_failed : ℕ → M Store (Unit {0})
handle_split_failed id =
    if id == 0
    then throw (failure "split complete send with ID = 0")
    else estuary.Split.Queue.split_failed id

abbrev pub cached_status : ℕ → TransferStatus → Option ℕ
cached_status failed_code p =
    if p.failed then (elim p.state [ none ↦ some failed_code | some s ↦ some s ]) else p.state

module _ (has_miner : ContentDeal → Bool) (failed_code : ℕ) where
  unfoldable pub transfer_status_of : TransferStatus → ContentDeal → M Store Effect
  transfer_status_of p d =
      set_channel p.deal_db_id p.chan d
      >> (if p.failed then fail_transfer has_miner d else pure tt)
      >> pure (cache_status d.id (cached_status failed_code p))

  unfoldable pub handle_transfer_status : TransferStatus → M Store Effect
  handle_transfer_status p =
      if p.deal_db_id == 0
      then throw (failure "received transfer status update with no identifier")
      else get_deal p.deal_db_id >>= transfer_status_of p

  -- Errors of a handler are logged only.
  unfoldable pub logged : M Store Effect → M Store Effect
  logged m w = let r = m w in elim r.0 [ ok e ↦ (ok e, r.1) | err e ↦ (ok no_effect, r.1) ]

  abbrev pub silent : M Store (Unit {0}) → M Store Effect
  silent m = m >>= λ _. pure no_effect

  abbrev pub nil_params : M Store Effect
  nil_params = throw (failure "nil params")

  -- `processMessage`, from the shuttle `handle`.
  unfoldable pub process_message : Config → ℕ → Message → M Store Effect
  process_message cfg handle (pin_status none) = nil_params
  process_message cfg handle (pin_status (some (id, status))) =
      silent (update_content_pin_status id status)
  process_message cfg handle (pin_complete none) = nil_params
  process_message cfg handle (pin_complete (some p)) =
      logged (silent (handle_pinning_complete cfg handle p))
  process_message cfg handle (commp_complete none) = nil_params
  process_message cfg handle (commp_complete (some p)) = logged (silent (compute_completed p))
  process_message cfg handle (commp_failed none) = nil_params
  process_message cfg handle (commp_failed (some cid)) = logged (silent (compute_failed cid))
  process_message cfg handle (transfer_started none) = nil_params
  process_message cfg handle (transfer_started (some p)) =
      logged (silent (set_data_transfer_started_or_finished p.deal_db_id p.chan p.state true))
  process_message cfg handle (transfer_finished none) = nil_params
  process_message cfg handle (transfer_finished (some p)) =
      logged (silent (set_data_transfer_started_or_finished p.deal_db_id p.chan p.state false))
  process_message cfg handle (transfer_status none) = nil_params
  process_message cfg handle (transfer_status (some p)) = logged (handle_transfer_status p)
  process_message cfg handle (shuttle_update none) = nil_params
  process_message cfg handle (shuttle_update (some p)) =
      logged (silent (handle_shuttle_update handle p))
  process_message cfg handle (garbage_check none) = nil_params
  process_message cfg handle (garbage_check (some ids)) = logged (handle_garbage_check handle ids)
  process_message cfg handle (split_complete none) = nil_params
  process_message cfg handle (split_complete (some id)) = logged (silent (handle_split_complete id))
  process_message cfg handle (split_failed none) = nil_params
  process_message cfg handle (split_failed (some id)) = logged (silent (handle_split_failed id))
  process_message cfg handle (sanity_check none) = nil_params
  process_message cfg handle (sanity_check (some cid)) = pure (find_missing_block cid)
  process_message cfg handle other = throw (failure "unrecognized message op")
