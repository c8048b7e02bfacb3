-- ===== src/Lib.antt =====
-- A model of the core of NNRP, a protocol for neural network requests and results over sessions of
-- operations, as crates/nnrp-core implements it, and theorems on it.
--
-- The parts and how they interact. A packet is a common header, metadata and a body. The header
-- says which message the metadata is; every message has a record with a fixed layout, some with a
-- tail behind it. A connection keeps its sessions and moves them by the messages that open and
-- close them; a session may be resumed, or move to another transport. The operations of the
-- sessions stand in a registry, which messages register, schedule, expire, cancel and complete. The
-- payloads of operations are bound to schemas in a registry of their own, peers exchange lists of
-- capability tokens, and rules say which cached objects are still good. The runtime keeps, for each
-- session, the pressure on either side and the deadlines that are announced before their frames.
-- Its driver hands the packets that come in to the sessions, and holds back those of a session that
-- is not registered yet.
--
-- The files, with the code that they model (paths from the repository's root):
--   Base, with Tests, Lists, Dict and PairDict: Booleans and comparisons on numbers, lists, and the
--     BTreeMap of Rust as an association list in ascending order of the keys.
--   OperationState: crates/nnrp-core/src/enums.rs, the states of an operation and can_transition_to.
--   Error: crates/nnrp-core/src/error.rs, NnrpError, and Result with the `?` of Rust.
--   Outcome: Rust's Result where a component has an error type of its own.
--   Enums: crates/nnrp-core/src/enums.rs, and the enums of cache.rs, data.rs, object.rs and control.rs
--     that other parts use, one module per enum with as_u8 (the discriminants), try_from_u8 and the laws
--     that make them inverse; HeaderFlags.
--   Wire: the helpers that the codec files repeat (read_u32, write_u32, require_len, validate_mask and
--     their like), little endian integers, and buffers that are overwritten piece by piece. Fields
--     describes fixed layouts; Codec is the interface that every codec of metadata fills, with what follows
--     from it for all of them.
--   Header: crates/nnrp-core/src/header.rs, CommonHeader::write, parse, parse_packet and packet_len.
--   Flow: crates/nnrp-core/src/flow.rs, FlowUpdateMetadata::parse, write and validate_routing.
--   Session: crates/nnrp-core/src/session.rs, the metadata of SESSION_OPEN, SESSION_OPEN_ACK,
--     SESSION_CLOSE and SESSION_CLOSE_ACK.
--   Control: crates/nnrp-core/src/control.rs, the metadata that steers operations (CANCEL and ABORT,
--     PRIORITY_UPDATE, DEADLINE and EXPIRE_AT, SUPERSEDE, PROGRESS, PARTIAL_RESULT, RESULT_DROP_REASON,
--     BACKPRESSURE and CREDIT_UPDATE), what stands behind it in a packet, and in Semantics the rules of
--     validate_control_request_semantics and its like.
--   Cache: crates/nnrp-core/src/cache.rs, the metadata of CACHE_PUT, CACHE_ACK and CACHE_INVALIDATE;
--     Objects has the reach of an invalidation, Leases, Policy and Dependencies the rules.
--   Schema: crates/nnrp-core/src/schema.rs, the codecs of SchemaDescriptorHeader and
--     TypedPayloadDescriptor, and in Registry SchemaRegistry, a map with pairs of numbers as keys.
--   Records: the codecs of Flow, Session, Control, Cache and Schema together.
--   Capability: crates/nnrp-core/src/capability.rs, encode_capability_tokens and
--     decode_capability_tokens; Order has the order of byte strings and the sorting.
--   Recovery: crates/nnrp-core/src/recovery.rs, the rules on resuming and moving a session.
--   Lifecycle: crates/nnrp-core/src/lifecycle.rs, ConnectionLifecycle. Its calls are functions from a
--     connection to a connection or an error; Steps has the histories of calls.
--   Operation: crates/nnrp-core/src/operation.rs, OperationRegistry. A call gives the registry
--     afterwards and its result, since one call changes the registry though it fails; Scheduling has
--     expire_if_stale and apply_scheduling_update, Cancel has cancel, History the histories of calls.
--   Runtime: crates/nnrp-runtime/src/pressure.rs, RuntimePressureState, and pre_submit.rs,
--     PreSubmitDeadlineReservations, whose calls also change it on some of their errors; Driver and
--     Multiplex: multiplex.rs, the data and the rounds of run_driver.
-- The child modules prove what their names say; Tests modules hold runs on concrete values.
--
-- How the code is read. Unsigned integers are numbers, whose bounds stand in the records InRange
-- where a theorem needs them; an i16 is its bit pattern; `!mask` on w bits is 2 ^ w - 1 - mask.
-- usize is taken to have 64 bits. A byte
-- slice is the list of its bytes, and a write into a mutable slice gives the new list. A read
-- behind a length check never leaves the buffer, so the value out of range does not matter. A
-- BTreeSet is an ascending list. A `match` or a loop inside a function is a function of its own,
-- named after what it does. A panic is `none`; the `expect` of SchemaRegistry::standard, whose
-- descriptor is fixed, is left out. A token is the list of its bytes, std::str::from_utf8 is a test
-- for well-formed UTF-8, and sort_unstable_by is an insertion sort: strings that compare as equal
-- are the same, so the sorted list is the only one. The clock is an argument, and so is, in each
-- round of run_driver, which receivers of its channels exist; what the transport answers, and which
-- of two waiting events is taken, is part of the events. Two loops run on fuel. collect_subtree
-- gets one round for the root, one for each record and one to see the stack empty, and each record
-- is pushed at most once, by its parent. The loop of decode_capability_tokens gets one round for
-- each byte of the body, and takes three bytes at least in each.
--
-- Not modelled: display strings of errors, clones and getters, the tables of known capability
-- tokens, and the rest of the repository: the other messages of nnrp-core (the rest of control.rs,
-- data.rs and object.rs), the clients and servers of the runtime, the transports and the bindings.
pub mod Base
pub mod OperationState
pub mod Error
pub mod Outcome
pub mod Enums
pub mod Wire
pub mod Header
pub mod Flow
pub mod Session
pub mod Control
pub mod Cache
pub mod Schema
pub mod Records
pub mod Capability
pub mod Recovery
pub mod Lifecycle
pub mod Operation
pub mod Runtime
