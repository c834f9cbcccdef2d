-- ===== src/Lib.antt =====
-- Verification of hart-link, a HART protocol stack: a wire layer (frames and a streaming decoder), an
-- application layer (operations and their payload codecs), a service layer (the queues and transfers
-- of a link, the health of a device), HART-IP sessions, and a mesh layer (a manager over graph, schedule
-- and replay protection). A request waits in a queue of its link, is scheduled, encoded as a frame by way
-- of the payload codec, and the bytes that come back go through the decoder into frames and replies. Over
-- HART-IP the bytes travel in the packets of a session, which a channel hands on.
--
-- Files and the code that they model, with paths from the repository's root:
--
-- * Common and its children: lists over the native numbers, results, bit fields, machine words.
-- * Wire/Address (src/wire/address.rs): `Address::polling` and `Address::unique` are `new_polling` and
--   `new_unique`; `write_to` returns the output that the source appends to. Wire/Address/Laws: proofs.
-- * Wire/Frame (src/wire/frame.rs, `xor_checksum` of src/wire/mod.rs): `encode`, `delimiter`.
--   Wire/Frame/Delimiter and Wire/Frame/Layout: the delimiter's fields, and the layout of a frame.
-- * Wire/Decoder (src/wire/decoder.rs): State holds the decoder's record, its limits, counters and
--   buffer operations; Candidate the search for a delimiter and the repairs; Analysis `analyze`; Run
--   `next_event` and `push`. Search, Reading, Termination, Bounds and Stream hold proofs.
-- * Transfer (src/service/transfer.rs): `BlockSender` and `BlockReceiver`; a method returns its result
--   and the new state. Receiver, Sequence and Delivery hold proofs.
-- * Mesh/Replay (src/mesh/security.rs): `ReplayWindow::accept`; Bitmap and History hold proofs.
-- * Mesh/Schedule (src/mesh/topology.rs): `Schedule`; Conflicts holds proofs.
-- * Mesh/Graph (src/mesh/topology.rs): `MeshGraph`, with proofs in Views and Shape; Mesh/Graph/Route: `route`
--   and `reconstruct_route`, with proofs in Walks, Frontier and Shortest.
-- * Mesh/Manager (src/mesh/manager.rs): `MeshManager`; the verifier of `join_authenticated` is a parameter.
--   Rules, Admission, Shape, Nicknames and Replays hold proofs, Runs the commands of a run.
-- * Ip/Packet (src/ip.rs): `IpPacket::encode` and `decode`; Ip/Session: `IpSession` and its limits;
--   Ip/Transport: `send` and `receive`; Ip/Exchange: the exchanges, `open`, `request`, `close`;
--   Ip/Channel: `IpPacketChannel`.
--   The modules below Ip/Exchange and Ip/Channel, Ip/Packet/Laws and Ip/Session/Retained hold proofs.
--   Ip/Stream: `discard_exact` over a stream of bytes that closes or stalls, which stands for the socket.
-- * Operation/Codec (src/operation/codec.rs): `PayloadWriter` and `PayloadReader`; Laws and Fields hold
--   proofs. Operation/Text (src/operation/text.rs): packed text, Latin-1 text, dates; Packed: proofs.
-- * Operation/Exchange (src/operation/mod.rs): `Request::to_frame` and `DeviceReply::from_frame`, with
--   `CommandCode::is_expanded`; a command number is a native number. Carried holds proofs.
-- * Service/QueueConfig and Service/QueueSet (src/service/queue_set.rs): priorities, layouts, slots;
--   Service/Scheduler: `pop_scheduled`, with proofs in Rotation (weighted queues) and Strict.
-- * Service/Health (src/service/health.rs): `ManagedDeviceSession`, with the policies and errors that it reads
--   of src/service/link.rs and src/service/session.rs. The session under it and the registry of commands are
--   parameters, and nothing is assumed of them. Timing, Budget and Outages hold proofs.
-- * Service/Planner (src/service/planner.rs): `Plan::execute` over a link that is a parameter; Stops: proofs.
-- * The modules Tests run the theorems at concrete inputs.
--
-- A byte, a machine word and a character are native numbers; where the code wraps, saturates or checks,
-- the model writes that out. `usize` has 64 bits. A slice index that the code guards reads a default in
-- the model.
--
-- Fuel: the loop of `next_event` gets one round for each buffered byte and one more, since a round that
-- goes on has discarded at least one byte; `push` has the 4096 events that the code allows. The
-- transfer loop of Transfer/Delivery gets two rounds more than there are bytes to send.
--
-- The search of `route` takes as many nodes from its queue as the graph has at most; the way back has a step
-- for each entry of `previous`. `discard_exact` has a round for each byte and `drain_published` one for each
-- retained packet.
--
-- The time that the stream takes for the write of a HART-IP exchange, and for each read of a packet, is an
-- argument of the exchange, a `Pace`; after the reads that it lists none ends. The deadline of a write or a
-- read runs from its beginning, that of the exchange from its own, and the earlier one ends the exchange; at the
-- same moment a result comes before a deadline, and the deadline of the read before that of the exchange. What
-- comes of the bytes that a read has taken by its deadline is not followed: the session is then unusable.
--
-- The clock of Service/Health is an argument, and does not overflow.
--
-- An `f32` is its 32 bits, and comparisons read them; a `BTreeMap` is an association list where the order of
-- its entries is not seen. A duration is its number of nanoseconds.
--
-- The atomics, mutexes and the semaphore of a queue are fields of an explicit state, and one call is one
-- step, so calls that interleave inside are not modelled; `QueueSet::push`, which waits for a permit, is given
-- the states that it sees while it waits.
--
-- Not modelled: the link actor, discovery, burst, recovery, sessions, schemas and catalogs,
-- traces; channels, telemetry, the emulator and the binary, which are input and output or test doubles.
pub mod Common
pub mod Wire
pub mod Mesh
pub mod Transfer
pub mod Operation
pub mod Service
pub mod Ip
