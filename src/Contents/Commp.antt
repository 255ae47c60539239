-- ===== src/Contents/Commp.antt =====
-- content/commp: the piece commitments of the contents that wait for deals, with the updates of the deal
-- queue in content/commp/status/status.go. Computing a commitment is a library's work.
pub mod Attempts
use estuary.Prelude.{
  ℕ, suc, ◌+◌, ◌==◌, ltb, Bool, true, false, ◌&&◌, not, if◌then◌else◌, List, [], ◌∷◌, ◌++◌, sum,
  map, keep, elem, take, Option, none, some,
}
use estuary.Db.{
  M, World, Error, Result, ok, err, db_error, record_not_found, zone_could_not_be_claimed,
  wait_for_remote_aggregate, failure, pure, throw, catch, ◌>>=◌, ◌>>◌, query, execute, transaction,
  now, or_not_found,
}
use estuary.Db.Table.{update, first, insert_new}
use estuary.Model.{
  Content, DealQueue, Object, ObjRef, PieceCommRecord, Location, local_node, shuttle, Store,
}
use estuary.Staging.Queue.{hour}
use estuary.Deal.Queue.{logged}
use estuary.Deal.Check.{answer}

abbrev pub of_cid : ℕ → DealQueue → Bool
of_cid cid r = r.cont_cid == cid

abbrev pub on_cid : ℕ → (DealQueue → DealQueue) → Store → Store
on_cid cid f s = record s { deal_queue = update (of_cid cid) f s.deal_queue }

abbrev pub commp_found : DealQueue → DealQueue
commp_found r = record r { commp_attempted = suc r.commp_attempted; commp_done = true }

-- INSERT ... ON CONFLICT DO NOTHING, where the data's CID is unique.
abbrev pub insert_record : PieceCommRecord → Store → Store
insert_record p s = record s {
  piece_comm_records = insert_new (λ x. x.data_cid == p.data_cid) p s.piece_comm_records;
}

-- Errors of these updates are logged only.
unfoldable pub compute_completed : PieceCommRecord → M Store (Unit {0})
compute_completed p =
    logged (transaction (execute (insert_record p) >> execute (on_cid p.data_cid commp_found)))

unfoldable pub compute_failed : ℕ → M Store (Unit {0})
compute_failed cid = logged (
    now >>= λ t. execute (
      on_cid cid (λ r. record r {
        commp_attempted = suc r.commp_attempted;
        commp_next_attempt_at = t + hour;
      })))

unfoldable pub compute_requested : ℕ → M Store (Unit {0})
compute_requested cid =
    logged (now >>= λ t. execute (on_cid cid (λ r. record r { commp_next_attempt_at = t + hour })))

unfoldable pub commp_exist : ℕ → M Store (Unit {0})
commp_exist cid = logged (execute (on_cid cid commp_found))

-- The library's piece commitment of a CID, the CAR size of objects, whether a piece's CID is defined, and
-- whether a shuttle takes a request.
pub record Commitments : Type 0 where
  pub generate : ℕ → Result PieceCommRecord
  pub calculate_car_size : ℕ → List Object → Result ℕ
  pub defined : ℕ → Bool
  pub commp_content : Location → ℕ → Option Error

abbrev pub is_of : Option Content → ObjRef → Bool
is_of none r = false
is_of (some c) r = r.content == c.id

-- The objects of the content that has a CID: the query takes one such content.
abbrev pub objects_of_cid : ℕ → Store → List Object
objects_of_cid cid s =
    let cont = first (λ c. c.cid == cid) s.contents in
    let objects = map (λ r. r.object) (keep (is_of cont) s.obj_refs) in
    keep (λ o. elem o.id objects) s.objects

abbrev pub commp_due : ℕ → DealQueue → Bool
commp_due t r = not r.commp_done && ltb r.commp_attempted 3 && ltb r.commp_next_attempt_at t

module _ (lib : Commitments) where
  abbrev pub check_defined : PieceCommRecord → M Store PieceCommRecord
  check_defined p =
      if lib.defined p.piece
      then pure p
      else throw (failure "got an undefined thing back from database")

  unfoldable pub get_piece_comm_record : ℕ → M Store PieceCommRecord
  get_piece_comm_record cid =
      query (λ s. first (λ p. p.data_cid == cid) s.piece_comm_records)
      >>= or_not_found
      >>= check_defined

  abbrev pub car_size_of : ℕ → List Object → M Store ℕ
  car_size_of cid [] = throw (failure "not found")
  car_size_of cid (o ∷ objects) = answer (lib.calculate_car_size cid (o ∷ objects))

  unfoldable pub calculate_car_size : ℕ → M Store ℕ
  calculate_car_size cid = query (objects_of_cid cid) >>= car_size_of cid

  abbrev pub set_car_size : ℕ → ℕ → Store → Store
  set_car_size piece size s = record s {
    piece_comm_records =
        update (λ p. p.piece == piece) (λ p. record p { car_size = size }) s.piece_comm_records;
  }

  -- A record from before there was a CAR size gets one.
  unfoldable pub with_car_size : ℕ → PieceCommRecord → M Store PieceCommRecord
  with_car_size cid p = if ltb 0 p.car_size then pure p else (do
    size ← catch (calculate_car_size cid) (λ e. throw (failure "failed to calculate CAR size"))
    execute (set_car_size p.piece size)
    pure (record p { car_size = size }))

  unfoldable pub get_piece_commitment : ℕ → M Store PieceCommRecord
  get_piece_commitment cid = get_piece_comm_record cid >>= with_car_size cid

  abbrev pub request_remote : Option Error → M Store PieceCommRecord
  request_remote (some e) = throw e
  request_remote none = throw wait_for_remote_aggregate

  -- `RunPieceCommCompute`; waiting for a shuttle is the error `wait_for_remote_aggregate`.
  abbrev pub compute_at : ℕ → Location → M Store PieceCommRecord
  compute_at cid local_node = answer (lib.generate cid)
  compute_at cid (shuttle h) = request_remote (lib.commp_content (shuttle h) cid)

  unfoldable pub run_piece_comm_compute : ℕ → M Store PieceCommRecord
  run_piece_comm_compute cid =
      query (λ s. first (λ c. c.cid == cid) s.contents) >>= or_not_found >>= λ cont.
      compute_at cid cont.location

  abbrev pub after_error : ℕ → Error → M Store (Unit {0})
  after_error cid wait_for_remote_aggregate = compute_requested cid
  after_error cid db_error = compute_failed cid
  after_error cid record_not_found = compute_failed cid
  after_error cid zone_could_not_be_claimed = compute_failed cid
  after_error cid (failure e) = compute_failed cid

  unfoldable pub run_commp_for_content : ℕ → M Store (Unit {0})
  run_commp_for_content cid w =
      let r = run_piece_comm_compute cid w in
      elim r.0 [ ok p ↦ compute_completed p r.1 | err e ↦ after_error cid e r.1 ]

  abbrev pub after_lookup : ℕ → Error → M Store (Unit {0})
  after_lookup cid record_not_found = run_commp_for_content cid
  after_lookup cid db_error = pure tt
  after_lookup cid zone_could_not_be_claimed = pure tt
  after_lookup cid wait_for_remote_aggregate = pure tt
  after_lookup cid (failure e) = pure tt

  -- One task of the worker.
  unfoldable pub commp_task : ℕ → M Store (Unit {0})
  commp_task cid w =
      let r = get_piece_commitment cid w in
      elim r.0 [ ok p ↦ commp_exist cid r.1 | err e ↦ after_lookup cid e r.1 ]

  unfoldable pub commp_tasks : List DealQueue → M Store (Unit {0})
  commp_tasks [] = pure tt
  commp_tasks (t ∷ tasks) = commp_task t.cont_cid >> commp_tasks tasks

  -- One tick of the worker: the first ten rows that are due.
  unfoldable pub commp_tick : M Store (Unit {0})
  commp_tick = do
    t ← now
    tasks ← query (λ s. take 10 (keep (commp_due t) s.deal_queue))
    commp_tasks tasks
