-- ===== src/Lib.antt =====
-- Stonewrit keeps a tamper-evident journal of audit events. A client posts an event; the accept path
-- hashes its content, classifies it and stores a pending row; the sealer drains the pending rows of a
-- shard into a hash chain; the core verifier, the server's endpoints and the public bundle verifier
-- recompute the chain.
--
-- The files and the code that they model (paths from the repository's root):
--   Prelude, Crypto, Json   shared types; SHA-256, hex and decimal of Go's standard library; JSON values
--   Spec        spec/event.go: the event schema and its encoding
--   Core        core/: canonical JSON, payload and event hashes (Core.Hash), times (Core.HashTime), the
--               content payload (Core.Payload), VerifyEvent and VerifyChain (Core.Verify)
--   Bundle      cmd/verify/main.go: verifyBundle
--   Classify    classify/: Classify, the matching of packs (Packs) and Compute (MapControls)
--   Db          server/internal/queries/gen: the tables as lists of rows, and the sealer's queries
--   Sealer      server/internal/sealer/sealer.go: SealShard (seal_shard), one function for each stage
--               between its early returns; dedupePending (Dedupe), buildEventRow (Row). The databases
--               that a run can leave are in Effect; tick and Defaults in Tick
--   ChainsRoute server/internal/routes/chains.go: the verification of one chain
--   Shard       server/internal/shard/shard.go
--   Auth        server/internal/auth, server/internal/middleware/apikey.go: keys and the guard
--   Ingest      server/internal/ingest: Accept (accept), the scope check (Scope), the lookup of
--               server/internal/resolvecontrols (Resolve), the batch of routes/events.go (Batch)
--   VerifyService  server/internal/verify/verify.go: VerifyEvent on stored rows
--   Read        server/internal/routes: the routes that read events and chains, with their queries and
--               the views they answer with (Views)
--   Evidence    server/internal/routes/evidence.go: Summary with its counting queries
--   Export      server/internal/workers/generate_export.go: the bundle and its JSON (Encode), one job
--               and the ticks of the worker (Worker)
--   Migrate     server/internal/migrate: Up and Down on loaded migrations
--   System      the accept path and the sealer as steps on one store, and the stores they can reach
--   Tests       runs at concrete inputs
--
-- The database is a record of tables that the functions take and return. A transaction works on a copy,
-- which a failure drops. Each run takes a World, which says which statements fail, the clock, the random
-- source and fresh ids; so a failure at any statement is a value of the model. Two sealers meet in the
-- row lock alone: a chain that another one has locked is not found. The runs of one tick come in an order
-- that its world gives, each of them one transaction. A Go string is a list of bytes, an int64 an integer
-- whose successor wraps at 2^63, a time a number of nanoseconds since the year 1.
--
-- json.Marshal and the JCS library are a parameter, JsonLib, about which nothing is assumed; so are
-- uuid.Parse and the embedded packs. SHA-256 is the real function: where a statement needs that digests
-- differ, it gives two texts with one digest instead of assuming that there are none. All recursion is
-- structural, so no fuel is needed.
--
-- The transaction of the export worker is one that a failed statement aborts, as in PostgreSQL: each
-- later statement fails and the commit rolls back; its two queries read one state of the tables. A commit
-- that fails has changed nothing. Where a sort of the source is not stable and the rows have equal keys,
-- the model keeps their order. White space around a bearer token is ASCII. Times are in UTC.
--
-- Some results are about requests that the program does not tell from others: those with ids in their
-- canonical spelling, without an empty metadata map, and with a key whose project is that of its
-- environment (IsRequest of System). Each such result says so.
--
-- Not modelled: HTTP, logging and configuration, the loop that repeats the sealer's tick, the loading of
-- migrations, and the validation of requests by a third-party library. Errors of encoding a struct of
-- plain strings and numbers, which cannot occur, are left out.
pub mod Auth
pub mod Bundle
pub mod ChainsRoute
pub mod Classify
pub mod Core
pub mod Crypto
pub mod Db
pub mod Evidence
pub mod Export
pub mod Ingest
pub mod Json
pub mod Migrate
pub mod Prelude
pub mod Read
pub mod Sealer
pub mod Shard
pub mod System
pub mod Spec
pub mod Tests
pub mod VerifyService
