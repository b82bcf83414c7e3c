-- ===== src/Lib.antt =====
-- A verification library of nexigon, the agent, the client and the protocols of the Nexigon Hub.
--
-- The multiplexer, crates/libs/nexigon-multiplex, carries many flow-controlled channels over one
-- message-oriented connection. `Connection` owns the state of a connection and is polled by its owner;
-- `ConnectionRef` and the ends of the channels share a bounded queue of outgoing frames with it; the
-- frames are encoded by a macro that lays out their fields. Its parts are modelled here:
-- - Base: Boolean tests, words, lists and big-endian numbers.
-- - Multiplex/Frames: crates/libs/nexigon-multiplex/src/frames.rs. A frame type is the list of its fields,
--   from which sizes, offsets, the constructor, getters, setters and the parser are computed, as
--   `define_frame_types!` does.
-- - Multiplex/Limits: `ConnectionLimits` and its validation, in
--   crates/libs/nexigon-multiplex/src/lib.rs, which the following modules are about too.
-- - Multiplex/Shared: `ConnectionShared`, the outgoing queue with its reserved room and its waiting
--   writers, the command queue, and the calls of `ConnectionRef`.
-- - Multiplex/Channel: `Sender`, `Receiver` (Channel/Receiver), and what `Connection::handle_frame` does
--   with data and credit for an open channel. Channel/Flow puts both ends and
--   what is under way between them together.
-- - Multiplex/Connection: `Connection`, its tables and its end (Connection/Closing), what it makes
--   of a frame (Connection/Handling, Connection/Dispatch) and of a command (Connection/Commands),
--   its deadlines and its polls over a transport (Connection/Liveness, Connection/Polling).
--   Connection/History has the states that a connection reaches, whatever its transport delivers
--   and its users call; the other child modules have the proofs.
-- - Multiplex/Rate: `RateCounter`, the limit on what a peer may send in a second.
--
-- The agent and the hub speak framed protocols over such channels,
-- crates/libs/nexigon-agent-protocol/src/lib.rs:
-- - AgentProtocol: the readers and writers of terminal and command frames, with the proofs in its child
--   modules. The byte streams and JSON are arguments, with their documented behaviour as laws in
--   AgentProtocol/Streams.
--
-- The tools name packages, versions and assets by paths:
-- - Paths: their parsers and printers, in crates/libs/nexigon-common/src/lib.rs.
--
-- The agent keeps a durable ledger of the device operations that it executes:
-- - OperationLedger: `OperationLedger`, in crates/apps/nexigon-agent/src/operation_ledger.rs. The file
--   system, JSON and the texts of ids are arguments. The laws of OperationLedger/Laws say what the file
--   system documents: what a file holds, and what it holds after a crash once its data and its directory
--   were synced.
--
-- Actions are executed over a transport, by framed requests and responses,
-- crates/libs/nexigon-rpc/src/lib.rs:
-- - Rpc: the limits (Rpc/Admission), the pools of permits as steps of tasks, to which a semaphore assigns
--   permits in any parts and any order (Rpc/Pool), the loops over the
--   chunks of a body (Rpc/Bodies), the bounded writer (Rpc/Serializing), and the framing of calls and
--   results (Rpc/Messages). The other child modules have the proofs. The streams are arguments, with their
--   documented behaviour as laws in Rpc/Streams; whether a wait for permits ends in time, and whether
--   memory is found, are arguments too. The loops have the announced size as fuel, which is enough since
--   no chunk that is accepted is empty.
--
-- The agent runs commands for the hub, whose values and schemas come from a peer or from files:
-- - Commands: the bounds on a value (Commands/Instance), the expansion of the references of a schema
--   (Commands/Schema), and the output that is read within a budget (Commands/Output), which the reader of
--   the other output may use whenever this one waits, in
--   crates/apps/nexigon-agent/src/handlers.rs. JSON pointers, regular expressions and the buffered reader
--   are arguments. An expansion has a fuel of 257, which is enough since every schema that it visits adds
--   to a work of at most 256; a line has one more than its limit, since each step adds a byte to it.
--
-- State is passed explicitly: an operation takes the state behind a lock and returns the next one.
-- The 32-bit counters are natural numbers with the wrap-around of their additions written out. Wakers are
-- numbers and waking is recorded in a list; times are numbers of milliseconds that the caller gives. Most
-- loops are recursions on lists; those of a poll count up to a limit as the code does. A
-- `HashMap` is an association list, so that its entries have an order, which the code leaves open.
--
-- Not modelled: the transports and the executor, tracing, statistics and the estimates of bandwidth;
-- the scheduling of the two halves of a remote call; the registry and the processes of commands;
-- identifiers (crates/libs/nexigon-ids), uploads and secure files (crates/libs/nexigon-common); the reading of the ledger's directory at start-up,
-- and the rest of the agent, the client and the command-line interface, which are mostly input and
-- output; generated types.
pub mod AgentProtocol
pub mod Base
pub mod Commands
pub mod Multiplex
pub mod OperationLedger
pub mod Paths
pub mod Rpc
