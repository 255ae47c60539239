-- ===== src/Lib.antt =====
-- Estuary: pinning contents, gathering small ones, and making storage deals for them.
--
-- The parts and how they meet. The pin manager (pinner/pinmgr.go) queues and limits the pins of each
-- user and runs them. When a pin is done, its blocks are saved (pinner/block) and its content goes,
-- by its size, to the staging queue (content/stagingzone), the split queue (content/split) or the
-- deal queue (deal/queue). Staging gathers contents in zones; workers take the deal queue's rows
-- that are due (deal/worker.go). A status of a pin is written by pinner/status, and content/gc.go
-- takes a content away with what nothing else needs. They share one database.
--
-- The files:
--   Prelude, Prelude/*: shared names, tests as Booleans, lists, integers, maps as association lists.
--   Db: handlers as functions from a world to a result and a world. A world has the store, the
--     pattern of failing statements and the time. Db/Atomic: what a handler that fails leaves.
--     Db/Agree: a run in which no statement failed is the run of a world without failures. Db/Keeps:
--     invariants of handlers. Db/Gives: the answers of handlers. Db/Reads: handlers that only read.
--     Db/Run: running a handler step by step. Db/Table: statements on a table.
--     Db/Rows: what they do, by the functions on lists, for statements of results.
--   Model, Model/Lookup: the tables (util/content.go, model/*.go), and fetching a content.
--   Pinner/Operation: pinner/operation/operation.go. Pinner/Queue: goque and msgpack as an
--     interface.
--   Pinner/Manager and its children: the bookkeeping of pinner/pinmgr.go (popNextPinOp,
--     enqueuePinOp, complete), with the start from the files in Manager/Restart. Pinner/Loop and its
--     children: doPinning, Run and pinWorker, as a step relation in which any goroutine may move
--     next.
--   Pinner/Status: pinner/status/status.go. Pinner/Block: addObjectsToDatabase of
--     pinner/block/block.go.
--   Staging/Queue, Staging/Creation and its children: content/stagingzone/queue/queue.go and
--     content/stagingzone/creation.go. Staging/Consolidation: where the contents of a zone are
--     gathered (content/stagingzone/aggregation.go).
--   Deal/Queue, Deal/Workers: deal/queue/queue.go and the loops of deal/worker.go.
--   Deal/Check: checkDeal of deal/check.go, over the answers of the chain, of providers and of
--     transfers. Deal/Replication: checkContentDeals and repairDeal.
--   Deal/Making: makeDealsForContent of deal/deal.go, with its checks in Making/Ready and one deal
--     in Making/Proposal (MakeDealWithMiner, sendProposalV120, StartDataTransfer). Making/Outcome
--     and Making/Attempt: what one attempt leaves. Making/Rounds, Making/Miners, Making/Spread: the
--     miners of the deals. Making/Sparing, Making/Progress: the tick of the worker.
--   Split/Dag: Pack of util/dagsplit/dagsplitter.go. Dag/Turns: one turn of its loop, case by case.
--   Split/Queue: content/split/queue/queue.go. Contents/Gc: UnpinContent of content/gc.go.
--   Contents/Offloading: content/offloading.go. Shuttle/Location: the choice of a shuttle in
--     shuttle/location.go, with IsOnline and CanAddContent of shuttle/shuttle.go. Shuttle/Rpc: the
--     messages of shuttles (shuttle/rpc/rpc.go), with what Rpc/Garbage drops and Rpc/Aggregates
--     completes.
--   Contents/Commp: the worker of content/commp. Deal/Transfer: what is told of transfers
--     (deal/transfer/status/status.go, deal/transfer/events.go).
--   Pinner/Tests, Tests: concrete queues, tables and runs.
--
-- How code becomes definitions. A Go method that changes shared state is a function from the state
-- to the state, or a handler. A Go error is a value. A database statement works on the whole table
-- or fails as a whole, a transaction undoes its statements when it fails, and a table is its rows in
-- the order of their keys. Go's int and int64 columns are integers without bounds, except where code
-- converts, as in the size of a content. Go leaves the order of a map's keys open: maps are
-- association lists in any order. A lock held throughout a method makes it one step.
--
-- Bounds and fuel. The loop of Pack takes fuel, one for each turn. Four and twice the number of
-- links of the nodes that the root leads to are enough: a turn packs a node, drops one that is
-- packed, or makes a new box, which the next turn uses. Every other loop of the modelled code runs
-- over a list, or counts down, as the rounds of makeDealsForContent. The uint64 sizes of Pack wrap
-- around, and its conversions to int64 are written out. A query in batches is one query, so a tick
-- of a worker takes at most one batch of tasks, and staging meets at most 500 open zones with room.
--
-- Not modelled. gorm, goque, msgpack, the IPFS block service and the chain are libraries: the queue
-- is an interface with laws, the others' results are arguments or the failures of a world. HTTP
-- handlers, the transports of shuttles, node set-up and metrics are input and output. Aggregating a
-- zone and the split worker are not covered. A check of a deal takes the comparison of a deal on
-- chain as an answer; that it may fill in a CAR size is left out.
pub mod Prelude
pub mod Db
pub mod Model
pub mod Pinner
pub mod Staging
pub mod Deal
pub mod Contents
pub mod Split
pub mod Shuttle
pub mod Tests
