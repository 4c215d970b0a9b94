-- ===== src/Lib.antt =====
-- TrustLot reconciles the records of a portfolio against those of its custodians. This library models
-- the core of its Go code, with theorems on what that code does.
--
-- The parts and how they interact:
-- - internal/model: the records. Model has them as records with the source's fields, Model/ReasonCode
--   the match statuses and reason codes.
-- - internal/db/store.go: the queries. Db/Tables has the rows, a table being the list of its rows in
--   the order of insertion; Db/Exec the actions (explicit state passing with errors); Db/Records,
--   Recon, Exceptions, Replays, Scores, History and Ping one action for each method of Store, named
--   after it; Db/Laws the laws of sequencing, Db/Keeps the rules for what an action keeps whether it
--   fails or not, Db/Returns those for the value that it returns, Db/Newest and Listed what ORDER BY
--   and LIMIT select.
-- - internal/recon: the engine reads two lists of records, pairs them by key, applies rules to each
--   pair, and writes a result for each, with an exception, an event and lineage edges for a break.
--   Recon/Rules is rules.go and config.go; Recon/Pairing, Persist and Engine are engine.go (keys and
--   sorting, persistResult and what it calls, the two reconcile methods and Run). The two reconcile
--   methods have the same loops over two types of record: they stand once, over a Kind. Recon/Outcomes
--   is the specification, with no map and no loop state. The other files of Recon hold proofs: Loops
--   (the loops against the specification), Effects and Recorded (what persisting writes), Kept (what a
--   run keeps), Verdicts, Fitting and Reasons (the reasons that the rules give, by type of record),
--   Safety, Traced, Status, Complete, Coverage, Entries and Trail (the rows appended), Keys (of the
--   pairs) and Unordered (the order of the rows).
-- - internal/trust: Trust/Scorer and Rationale are scorer.go, Trust/Service is service.go, over the
--   store; Evidence is the specification of the input of the scores; Bounds, Statuses, Order,
--   Persisted and Computed hold proofs.
-- - internal/replay: a pair of records is captured as JSON and judged again by the engine's rules.
--   Replay/Snapshots, Assess and Service are service.go; Cases, Captured and Unmatched hold proofs.
-- - internal/explain: a break is explained from the exception, its result and the pair of records.
--   Explain/Report is explain.go, Builders is builders.go and Service is service.go; a panic of a type
--   assertion is a value; Answers, Panics and Pairs hold proofs.
-- - internal/lineage: the graph of what stands before and behind an entity. Lineage/Graph is
--   lineage.go and the builder of service.go, its two maps as lists of their values; Nodes, Links and
--   Service are the rest of service.go. Expected is the specification of the edges, from the tables
--   alone. The other files hold proofs: Builder, Grown, Sound, Order, Drawn and Graphs of the builder,
--   of the loops over it, of the service, of the two orders, of the sorted graph and of what is
--   returned, whether calls fail or not; Keys, Exact, Around, Located, Complete and Raised of the edges.
-- - internal/http: Http/Messages has requests, replies and the server's fields, Http/Handlers is
--   handlers.go, Http/Routes is routes.go, middleware.go and NewServer; Degraded, Reads, Writes,
--   Upheld, Safety and Replies hold proofs.
-- - internal/ingest: Ingest/Parser is csv_parser.go; Ingest/Rows holds proofs.
-- - internal/config: Config, with the environment as a parameter.
-- - cmd, internal/db/db.go, internal/telemetry and Start and Shutdown of internal/http/server.go:
--   Startup, with Startup/Pools for proofs. A process is the list of what it does.
-- - System: the engine and the server over one database, as a relation of steps, each a run or a
--   request. A step is whole: requests that overlap are not modelled. No file of cmd calls the engine
--   yet, so who starts a run is left open. Steps is the relation; Replays and Scores follow the replay
--   cases and the trust scores along it.
-- - Prelude: names of the libraries, and what the parts share: lists, maps, integers, the order of
--   texts, sorting (Order, Sorting, Kept), and texts with bars (Bars).
-- - Samples: concrete inputs, tests, and the theorems applied.
--
-- What is a parameter (Platform): float64 arithmetic, with the few laws of IEEE 754 that a theorem
-- names as a hypothesis; the random ids; the clock; the format of times and numbers; and which call of
-- the database fails, with what error. With their parts: the order in which Go visits the entries of a
-- map (Lineage/Graph), chi's choice of a route and strconv.Atoi (Http), encoding/csv (Ingest/Parser),
-- pgxpool and net/http's listener (Startup).
--
-- Bounds: the loop of the CSV parser runs on fuel, and as much as the reader has bytes left, and one
-- more, is enough, since each read before the end consumes some; all other loops run over lists. Times
-- are nanoseconds since year 1, as natural numbers, of which a column of the database keeps the whole
-- microseconds; encoding/json refuses those from year 10000 on. Scores are whole hundredths; the source computes
-- them as float64 from decimals of two places and rounds its total to two places. The 64-bit bound of
-- time.Duration (292 years) is left out.
--
-- Not modelled: log lines, SQL beyond the rows that a query selects, orders, limits or changes (ties
-- keep the order of insertion), JSON objects of shapes that no code writes, the JSON of the replies
-- and their headers, requests that overlap, are cancelled or time out, and the parts
-- internal/exception (an interface), tools/synth (a stub) and apps/web.
pub mod Prelude
pub mod Platform
pub mod Model
pub mod Db
pub mod Recon
pub mod Trust
pub mod Replay
mod Samples
pub mod Explain
pub mod Lineage
pub mod Http
pub mod Ingest
pub mod Startup
pub mod System
pub mod Config
