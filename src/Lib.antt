-- ===== src/Lib.antt =====
-- Vault: the control plane of a replicated object store.
--
-- The program keeps objects, their versions, the storage nodes and the replicas of versions on
-- nodes in a SQL database. `MetadataManager` (metadata/manager.py) writes these tables: every
-- other part (placement, replication, repair, rebalancing, recovery, integrity, health, the
-- gateway's service) reads them and calls its operations, each in a transaction. There are two
-- exceptions: the gateway's service deletes the rows of a deleted object and its replicas itself,
-- and the managers of repair, rebalancing and integrity write the rows of their own jobs. The
-- gateway guards its routes with a rate limiter (common/rate_limit.py).
--
-- The files:
--   Prelude, Prelude/*      names that are shared: native numbers, lists, equality as an interface
--   Table, Table/*          a SQL table as a list of rows with a key: lookup, insertion, update and
--                           deletion, what each finds afterwards, and keys that stay unique
--   Common/Constants        common/constants.py: enumerations and tables of transitions
--   Common/Errors           common/errors.py, and results that may be an exception
--   Common/Validation       common/validation.py; Strip: what `strip` takes off; Names: the names
--                           that are accepted
--   Common/Ids              common/ids.py: identifiers of requests
--   Common/Text             `str` as its code points, with strip and lower
--   Metadata/Models         metadata/models.py: a record for each table, and the database
--   Metadata/Checks         metadata/manager.py: argument checks, and the transaction
--   Metadata/Objects, Nodes, Replicas
--                           metadata/manager.py: an operation of the same name for each method of
--                           `MetadataManager`; Outcomes: what it has found when it returns
--   Metadata/Commands       the operations that write as one type of requests, and runs of them
--   Metadata/Consistency    the invariant of the database, and that every operation keeps it
--   Metadata/Versions, Conflicts
--                           the history of versions, and conditional commits
--   Metadata/Membership     nodes over time: lifecycle and heartbeats
--   Metadata/Lifecycle      replicas over time
--   Placement, Placement/*  placement/manager.py: `select_nodes`, its order, its choice (Selection),
--                           and when there are enough nodes for it (Enough)
--   Metadata/Session        code that calls several operations in one session, with rules for what it
--                           keeps when it returns or raises
--   Replication, Replication/*
--                           replication/manager.py: Policy, Writes (`_write_one`), Commit
--                           (`replicate_version`); what it commits, refuses and keeps
--   Metadata/Triples        what holds after code that may raise and may catch what it raises
--   Maintenance, Maintenance/*
--                           what the managers of jobs share: Clients (the calls of
--                           replication/node_client.py that they make) and Rows (their queries)
--   Repair, Repair/*        repair/manager.py: Queries, Scheduling (`schedule_for_version`), Execution
--                           (`run_job`), Rounds (`repair_version_until_healthy`); what a repair
--                           keeps, what it gains, and that the rounds end
--   Rebalance, Rebalance/*  rebalance/manager.py: Queries, Migration (`run_job`), Drain
--                           (`drain_node`); what a migration keeps and what it removes
--   Integrity, Integrity/*  integrity/manager.py: Verify (`verify_replica`) and Jobs (scans);
--                           Measured and Evidence: what makes a replica CORRUPTED
--   Health, Health/*        health/node_registry.py (Registry), health/heartbeat.py (Payload,
--                           Heartbeats) and health/failure_detector.py (Detector); Driven: how
--                           heartbeats drive the state of a node; Candidates: what `healthy_nodes`
--                           returns; Demotion and Scans: when a node is taken down; Recovered:
--                           `ingest_and_recover`
--   Recovery, Recovery/*    recovery/manager.py: Reconcile (`reconcile_and_mark_healthy`); Partition:
--                           a node that cannot be reached; Counted and Rejoin: when it is HEALTHY
--   Worker, Worker/*        worker/tasks.py: Retry (`_retry_task`), Tasks and Polls (a function
--                           `run_…` for each task), Queue (any task)
--   Gateway, Gateway/*      gateway/service.py: Reads (`read_targets`), Deletes (`delete_object`) and
--                           Uploads (`stage_upload`); Served, Covered and Cleared: what they
--                           promise
--   RateLimit, RateLimit/*  common/rate_limit.py: `allow`, against the history of granted requests;
--                           Calls and Runs: many calls, against a reference that forgets nothing
--   Storage, Storage/*      storage/storage_engine.py: Chunks (the loop of `write_stream` that cuts a
--                           stream into chunk files); Layout and Counted: what the files hold
--   */Tests                 small databases on which the theorems are applied
--
-- How state corresponds: `Database` holds the rows of each table. An operation takes the database
-- and returns a value and the new database, or what it raises; `transaction` then keeps the old
-- database when the operation raised, as the savepoint or the rollback does. `select … where` is a
-- lookup or a filter, `session.add` with the flush appends a row unless its primary key is taken,
-- and an assignment to a row with the flush replaces the row. Isolation is the database's: requests
-- are taken one after another. `Database.uuids` and `Database.times` are the values that `uuid4`
-- and the clock return, any functions of the number of calls so far; nothing assumes that UUIDs
-- differ, and a repeated one is refused by the primary key. Python's `int` is ℤ where an argument
-- may be negative and ℕ afterwards: neither wraps. Arguments of another Python type, which raise
-- ValueError before anything is read, are outside the types of the model.
--
-- A session keeps what was written before an exception, as its caller finds it before it rolls
-- back or commits. The client of a storage node is a parameter: any answer to each of its calls,
-- an error of the client, or another exception. The managers of jobs take the clients by the time
-- of the call, a number that grows along their loops, so that a node may answer otherwise later.
-- They run in one session, so that a row that they hold is the row of the table; the locks that
-- they take for other sessions are not modelled. A task of the worker is modelled up to the end of
-- its session: the rollback of `session_scope`, which takes back what no manager has committed, is
-- not, and commits are not told apart from other writes.
--
-- Every loop but three is structural recursion on the list that the code iterates over. The loop of
-- repairs has fuel for its rounds: every round that does not raise gains a HEALTHY replica, so that
-- more rounds than the replication factor are enough. The inner loop of `write_stream` has fuel for
-- a round on each byte that came in, and every round takes a byte at least, since the open chunk is
-- never full. The runs of a task that is retried have fuel for as many as the settings allow. Times
-- of the limiter and of retries are whole ticks: the rounding of floats is not modelled.
--
-- Texts are ordered by code points, as PostgreSQL orders them under the collation C; under another
-- collation the ties that an identifier decides may be broken the other way. The lengths of string
-- columns and the range of BigInteger (metadata/models.py) are not part of a table.
--
-- Not modelled: messages of errors and log records; the columns created_at, updated_at, reason
-- and last_error, which no modelled operation reads; HTTP (gateway/api.py, gateway/app.py,
-- storage/node_server.py, replication/node_client.py), the wiring of Celery (worker/celery_app.py),
-- Alembic (migrations/) and the browser interface (frontend/), which are glue; the upload of an
-- object and the listings of the gateway's service; and of the storage engine the capacity
-- accounting, the publication of files and their verification, and the metadata by which
-- `iter_chunks` finds the chunk files that `read_bytes` puts together.
pub mod Prelude
pub mod Table
pub mod Common
pub mod Metadata
pub mod Placement
pub mod Replication
pub mod Maintenance
pub mod Repair
pub mod Rebalance
pub mod Recovery
pub mod Worker
pub mod Gateway
pub mod Integrity
pub mod Health
pub mod Storage
pub mod RateLimit
