-- ===== src/Lib.antt =====
-- The core of nexus, a peer-to-peer messenger for a local network: devices find each other, pair,
-- and exchange end-to-end encrypted events and files without a server.
--
-- The parts, and where they are modelled (paths from the root of the repository):
-- - Model, Protocol: the data of core/nexus-core/src/model.rs and protocol.rs. `String` is `Text`,
--   a list of code points; `Vec<u8>` is `Bytes`. An `i64` is an unbounded integer, since times are
--   only compared and printed.
-- - External: the crates that the core calls, as a record of functions, with `IsLawful` for what
--   they document; the clock, the random source and the ULID generator as sequences that each call
--   reads on.
-- - Identity, Crypto: core/nexus-core/src/identity.rs and crypto.rs. `create_event` and
--   `encrypt_chunk` are split into their draws (Crypto/Draws) and a pure rest.
-- - Storage: core/nexus-core/src/storage.rs. The record `Store` holds the five tables and the
--   files; a module for each table. A statement of SQL is a function on the rows, with what it does
--   on a conflict written out. Storage/Events/Held says what it is for the log to have an event: a
--   row that is read as it. Storage/Open is `Store::open`. Storage/Path has what is used of
--   `std::path`, on Unix.
-- - Files: core/nexus-core/src/files.rs. What the calls of `read` return is a list of pieces, since
--   the system may return less than the buffer holds.
-- - Node, Node/Server: core/nexus-core/src/node.rs, the handlers of requests. A handler is an
--   `Exec` (Base/Exec): it returns or fails, and what it wrote before it failed stays written; only
--   `transaction` rolls back. The broadcast channel is the list `sent`. `serve` is the accept loop.
-- - Node/Client: the operations of node.rs that a node starts itself. The transport is a parameter:
--   what its k-th call gives for an endpoint and an envelope. Node/Client/Files has the transfer of
--   files, Node/Client/Sync `sync` and `pair`. `handle_transport_event` returns the peer for which
--   it spawns a `sync`; the task is `sync_discovered`, a step of its own.
-- - Node/Reach: the steps that a node may take, those of Node/Server, Node/Client and Node/Start,
--   and the nodes that they reach from a first start. Node/Kept, with a child module beside each
--   group of handlers, has what the handlers keep of an invariant that speaks of the log, the peers
--   and the identity; Node/Sound is the invariant of a reached node. Node/Exchange has the two ends
--   of a `SyncExchange` together.
-- - Node/Start: `NodeConfig`, `Node::new`, `start` and `shutdown`; what the system and the daemon
--   answer a call is a parameter.
-- - Transport: core/nexus-core/src/transport. Frames has the length prefix of a message, over the
--   bytes that still come from a stream; Tcp the request over a connection, which is what a node
--   gives for the bytes it is sent (Node/Server/Connection); Address the text of an endpoint;
--   Discovery what a device announces and what it makes of the services it is shown;
--   Adapters the traits of mod.rs, as records, and the two adapters of lan.rs.
-- - Ffi: core/nexus-core/src/ffi.rs. `nexus_call` runs a command on the node of a handle; pointers
--   are options, JSON values are what they are made of, and its parser a parameter.
-- - Cli: tools/nexus-cli/src/main.rs, from the arguments and the lines to what is printed.
--
-- An error of the code is `fail` with its message, a panic is `panic`; a panic in a handler ends
-- its task without an answer.
--
-- Each loop is a recursion on a list, or on the text it reads, with three exceptions. `batches_of`
-- runs on the length of its list, which falls in each round (Node/Client/Files/Batches).
-- `take_events` drains the receiver for one turn more than events were sent, as a receiver gives
-- each event once (Ffi/Drained). The loop of `resume_files` over the missing chunks ends only if the
-- other end sends some of them, so that it runs on fuel, and a loop that still runs is told apart by
-- `false` (Node/Client/Resume).
--
-- Not modelled: faults of the disk and of SQLite, the mutex around the connection, the bound of the
-- broadcast channel, interleavings of handlers (each runs to its end), the sockets, the memory that
-- the C interface hands out, and the task of tools/nexus-cli/src/main.rs that prints events.
pub mod Base
pub mod Model
pub mod Protocol
pub mod External
pub mod Crypto
pub mod Storage
pub mod Identity
pub mod Files
pub mod Node
pub mod Transport
pub mod Cli
pub mod Ffi
pub mod Tests
