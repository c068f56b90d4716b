-- ===== src/Lib.antt =====
-- Relos is a replicated table store over a shared log. A client of the tables
-- (crates/relos-table/src/table.rs) proposes commands to a stack of engines
-- (crates/relos-engine/src); the engine at the bottom appends them as entries to the log
-- (crates/relos-log/src), and each server plays the entries back, in order, through an applicator
-- into its local store (crates/relos-store/src). The server (crates/relos-server/src) puts the
-- tables behind gRPC.
--
-- Which file is about which part:
--   Prelude      numbers, lists, bytes and texts, dictionaries; `add64` and `sub64` wrap at 2 ^ 64
--                as the release build does
--   Core         crates/relos-core/src: positions, entries, errors; `Exec`, a call on a state that
--                returns, fails or panics and keeps what it wrote
--   Log          Chain is chain.rs, MetaStore metastore.rs, Loglet the trait of loglet.rs with its
--                promises as laws, MemoryLoglet memory_loglet.rs, VirtualLog virtual_log.rs;
--                NativeLoglet is the two tasks of native_loglet.rs, NativeLoglet/SequencerHandle
--                and NativeLoglet/Operations its operations with tasks that may be gone,
--                NativeLoglet/Cluster the tasks side by side, a request at a time, in any order
--   Store        Map is the `BTreeMap` of memory.rs in the order of its keys, Memory its
--                transactions
--   Engine       Interface is traits.rs, Base base_engine.rs, Batching batching.rs, ViewTracking
--                view_tracking.rs, Observer observer.rs, Stack stack.rs; Base/Replication is many
--                engines over one log, with their turns in any order, and over one virtual log
--                (Base/Replication/Events), and Base/OnVirtualLog one engine over the virtual log
--   Table        Schema is schema.rs, Command command.rs, Keys and Applicator applicator.rs, Client
--                table.rs, Replicated the tables of several servers
--   Server       Messages is proto/relos.proto, Conversions and Service grpc_service.rs, Config
--                config.rs, Startup the stack that main.rs builds, Demo its demo
--   Tests        the results below at concrete inputs
--   Conformance  the repository's own unit tests, run on the model; those that need several tasks
--                at once, or bytes that bincode wrote, are left out
-- A function of the source keeps its name; a `self` becomes the last argument, and an operation
-- that changes it returns the new state beside the result. The components meet at records of
-- operations: `Loglet` (with `LogletLaws`, which the memory loglet and the native loglet fill and
-- the virtual log and the engine assume), `Applicator` and `Engine`.
--
-- Loops that end by what they compute run on fuel, and `none` says that they still go round:
-- `append` of the virtual log is given the two rounds that a consistent state needs, a propose or a
-- sync one round more than there are entries to play back. That this fuel gives a result is part of
-- the theorems about them.
--
-- Parameters: `bincode` and `hex` (records of functions, round trips as hypotheses), the loglet
-- factory, the engine below a middleware, and the applicator above it. Panics are results; the
-- poisoned lock of the store and a held lock of the view map are parts of the state. A task that
-- serves a channel is a function over the requests in the order in which it receives them. Where
-- several tasks run side by side, a step relation has one step for each request that a task
-- handles, and the theorems hold of every state that its steps reach. The clock of the observer
-- and what its reporter keeps are parameters.
--
-- Not modelled: several virtual logs that share loglets (each call is that of one client; what
-- another has done is a state of the register), the transport, what is printed and logged, and
-- generated code.
pub mod Prelude
pub mod Core
pub mod Log
pub mod Store
pub mod Engine
pub mod Table
pub mod Server
pub mod Tests
pub mod Conformance
