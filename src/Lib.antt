-- ===== src/Lib.antt =====
-- parseon indexes finalized EVM blocks: it decodes the calls and events that monitors ask for, filters
-- them and commits them to a storage, a chain at a time. This library models its core, one of its
-- storages, and the services that change what is indexed.
--
-- The parts, from the inside out, with the Rust files that each models:
--   - Model: parseon-core/src/model.rs, and `AbiParam` of parseon-core/src/abi.rs;
--   - Filter: parseon-core/src/filter.rs. A `FilterExpression` is bounded (Limits: `validate_limits`),
--     compiled against a target's schema into a filter and a canonical form (Fields: `resolve_field`,
--     `value_type`; Literals: `parse_value`; Compile: `compile_expression`), and evaluated on a result
--     (Evaluate: `resolve_value`, `compare`, `evaluate`). Definition has `prepare`, `compile` and `preview`;
--   - Monitor: parseon-core/src/monitor.rs;
--   - Scheduler: `plan_blocks` of parseon-core/src/scheduler.rs, which plans the next blocks of the monitors;
--   - Abi: the decoders of parseon-core/src/abi.rs; Abi.Signature has `parse_target_signature`, which makes a
--     target's schema of a human-readable signature;
--   - Index: `MonitorIndex` of parseon-core/src/indexer.rs, which groups the active monitors by target and
--     wire layout. Index.Decode has `decode_calls` and `decode_events`, which decode once per group and fan
--     the parameters out to the monitors' filters;
--   - Ports: the values of parseon-core/src/ports: ranges, log queries, sink batches, `canonical_params`.
--     Ports.Storage has the registry of chains as an interface: `ChainRepository` is a record of operations,
--     and `IsLawful` what the services rely on;
--   - Worker: parseon-core/src/worker. Windows has `plan_windows`, Query `log_query`, Prepare
--     `prepare_calls`, `prepare_event_window` and `finish_prepared`, Commit `commit_prepared`, and Run
--     `run_once`, the poll that joins all of these.
--   - Rpc: `adaptive_filter_logs` and `log_range_limited` of parseon-rpc/src/provider.rs, which implement the
--     worker's requests for logs: Rpc.Logs has the splitting of a range, Rpc.Errors what makes it split.
--   - Supervisor: `apply`, `retire`, `reconcile` and `shutdown` of parseon-core/src/supervisor.rs, with the
--     statuses of parseon-core/src/status.rs that they set. Supervisor.Closed has the operations as a step
--     relation, Supervisor.Workers what each leaves running.
--   - Services: `ChainService` of parseon-core/src/services.rs, over any lawful registry and the supervisor.
--     Services.Chains.Reached has the services, the startup and the shutdown as a step relation; Commands:
--     parseon-core/src/commands.rs. Services.Requests is what `MonitorService::create` makes of a command, and
--     `preview_filter`; Services.Monitors is `MonitorService`, and Services.Monitors.Loads follows a created
--     monitor through PostgreSQL to the worker.
--   - Postgres: parseon-postgres, a storage that the ports stand for. Types is pg_types.rs; Columns, Bind,
--     Insert and Read are dyn_table.rs, with the columns of a result table, its INSERT and its queries; Group
--     and Commit are `commit_block` of storage.rs; Chains is chain_repo.rs, and the registry that it makes;
--     Loaded is what storage.rs makes of the row of a monitor, and Monitors is monitor_repo.rs with
--     `load_monitors`. Tables has the rows, and what a statement and a transaction are.
-- Common has what the modules share, Fixtures and Tests the theorems at concrete inputs.
--
-- How the code is rendered. The code that fails returns a `Result`; a poll is a function of the state
-- that it changes (Worker.Effects: the commits, the cache, the sink, the lag and the cancellation
-- token) and stops with an error or a cancellation. A token is cancelled after some number of its
-- checks or never, so that every point of cancellation is covered, but for what a cancelled window
-- leaves in the cache. Storage, block source and cache are parameters: a commit may be refused
-- depending on all the commits before it. Blocks of a window are prepared in their order, one of the
-- schedules of `pipeline::ordered`; the others fill the cache in another order and give the same
-- results. A hash map is an association list: what is proved of the results is on membership, so that
-- the order of a map does not matter. `binary_search` on ascending indices is a membership test.
-- alloy, serde_json and hex are parameters (Codecs, Alloy, Format), and what is assumed of them is a
-- named hypothesis (AreCanonical, AreCompact, NamesTypes, AreRead, IsRead, PrintsHex).
--
-- PostgreSQL is rendered by the rows that it holds. A statement does what its SQL says to the rows, after
-- a check that the server still answers: it may fail at any statement, and a transaction that is not
-- committed leaves the rows as they were, but for the sequence of the ids of monitors. A commit that is
-- reported to fail is one that was not made. An INSERT into a result table fails on a taken key or on a CHECK
-- of its identity columns, and a SELECT from a missing table fails.
-- Columns of times and the types of a result table's columns are left out, identifiers are never cut to 63 bytes, and what a numeric or a bytea
-- column gives back is what was bound. A URL is its text, and the registry is lawful if a URL parses back
-- from it. The mutation guard of the supervisor makes a service one step from the guard on; what it does
-- before is also a step that an earlier state may have preceded (`created_late`, `updated_late`).
--
-- Bounds: u64 arithmetic that saturates or is checked is written out (Common.Words). The loops are
-- structural, and the range of blocks of a monitor is walked by its number of rounds; only
-- two are on fuel: `adaptive_filter_logs` on twice the width of the range and one, a request for each
-- node of the tree of halves, and `free_column` on the number of columns that are used, of which one of
-- as many candidates and one is free.
--
-- Not modelled: telemetry but for the lag, the texts of errors, the sleeping between polls, what a poll
-- records in the statuses, the lists and counts of the services and what they show of results, the HTTP
-- server, the rest of parseon-rpc, and the other adapters (parseon-mongodb, parseon-memory-cache,
-- parseon-webhook-sink), which stand behind the ports.
pub mod Common
pub mod Model
pub mod Filter
pub mod Monitor
pub mod Scheduler
pub mod Abi
pub mod Errors
pub mod Index
pub mod Ports
pub mod Worker
pub mod Rpc
pub mod Supervisor
pub mod Commands
pub mod Services
pub mod Postgres
pub mod Fixtures
pub mod Tests
