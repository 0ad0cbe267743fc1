-- ===== src/Lib.antt =====
-- I2PChat is a peer-to-peer messenger over I2P, in Python. This library models the parts of it that
-- decide what happens to a peer, a message and a stored history, and leaves the network, the
-- ciphers and the windows to parameters.
--
-- The parts and how they interact. A core holds one session manager, which keeps a table of peers
-- with their transport state, their streams and their reconnect back-off, and derives from the table
-- an aggregate peer state and a mirror of the streams. The group manager fans a message out to the
-- members of a group: for each it asks the session manager for a policy and for the live path, and
-- then calls a live or an offline sender of the core. The mesh planner looks over all groups and
-- chooses the peers that the core should connect to; the topology view shows what is known of the
-- members. The store keeps a record file for each group, with its history and the message ids that
-- count as seen. A group message that comes from a peer is decoded, checked against the roster in the
-- store and against the peer or the pinned key, merged into the state of its group, and stored.
-- Frames go through the codec, and long texts are split before they are sent. The offline
-- path keeps a receive window for each peer and stores blobs in a replica, which may run locally. A
-- sent message has a delivery state, which a history keeps; a history is pruned by a retention
-- policy; unread counters stand beside it.
--
-- Which file models what:
--   Session/*: i2pchat/core/session_manager.py. State holds the enums, the dataclasses and the
--     fields of `SessionManager`; Peers the transitions, the table and the derived views; Lifecycle,
--     Streams, Health, Backoff, Policy and Shutdown the methods of the same names; Calls the
--     state-changing methods as one type. Views, Health/Ready, Backoff/Delays, Backoff/Recorded,
--     Backoff/Schedule, Policy/Live and Aggregate hold the proofs.
--   PeerAddress: `normalize_peer_address` and `same_i2p_destination` of
--     i2pchat/storage/contact_book.py, `normalize_member_id` of i2pchat/groups/models.py and
--     `_normalize_peer_id` of the session manager; Canonical and Same hold the proofs.
--   Groups/Models, Groups/Manager, Groups/Mesh, Groups/Topology: i2pchat/groups/models.py,
--     manager.py, mesh.py and topology.py.
--   Groups/Store/*: i2pchat/storage/group_store.py. Models and Channel hold the records and what
--     their constructors make of the arguments, Conversation the stored conversation and its form in
--     a file, Record the object of a file field by field, Files the bytes of a file, Operations
--     and Listing the functions on the directory, Log the abstract log and runs of appends. Record/Written puts them over `json`. Normal, Sealing,
--     SeenIds, Kept, Stored, Built, Bounds, Rotation, Refinement, Runs and Record/RoundTrip hold the
--     proofs. Json: the values of Python's `json`.
--   Groups/Wire/*: i2pchat/groups/wire.py. Hex and Fields hold the fields of a message, Encoding and
--     Decoding the functions of these names; Valid, Accepted, Reads, RoundTrip and Signed the proofs.
--   Groups/Import/*: `import_group_transport` of i2pchat/core/i2p_chat_core.py. Checks holds
--     `_validate_imported_group_transport`, Snapshot the state and the history entry that a message
--     makes, Transport the import itself, with what it shows as a list of events; Results, Trusted,
--     Trust, Made, Remembered and Once hold the proofs. PeerAddress/Typed: the
--     `_normalize_peer_addr` of the same file.
--   Codec: i2pchat/protocol/protocol_codec.py. Chunking: i2pchat/protocol/chat_text_chunking.py.
--     MessageDelivery: i2pchat/protocol/message_delivery.py.
--   TransferRetry: i2pchat/core/transfer_retry.py and i2pchat/core/send_retry_policy.py.
--   Retention: i2pchat/storage/history_retention.py. BlindBox: the state of
--     i2pchat/storage/blindbox_state.py. Replica: i2pchat/blindbox/blindbox_local_replica.py.
--     Unread: i2pchat/presentation/unread_counters.py.
--   Prelude, Text, Dict and Sorting: Python's numbers, texts, dictionaries and stable sort.
--   Examples: the theorems at concrete inputs.
--
-- How it is modelled. An object is a record that each method takes and returns, and a method that may
-- raise returns a result. A text is the list of its code points; `str.lower` is the interface
-- `CaseMapping`, of which ASCII is an instance. Times are whole microseconds, and what the clock
-- returns is a function from the place in the code that reads it. The callbacks, the cancelled tasks
-- and the closed socket are a list of events in the state. The stream mirror holds references: for
-- each destination, the peer that owns the stream. A sender of the group manager may change the
-- session state, as whatever runs while it is awaited may. A set is a list. The
-- jitter of the back-off, the reading of a time stamp and the decoding of bytes as text are
-- parameters, and so are the check of a signature, the text of JSON, SHA-256, HKDF and the cipher of
-- the group store, of which it is used that reading undoes writing, where objects are compared
-- without the order of their keys, and deciphering undoes enciphering with the same key. The lemmas on the store take the writing and
-- reading of a record as an interface, which Record/Written fills. An epoch that is read is not
-- negative. The decoder of group messages reads an object by its keys alone. An exception of a
-- callback ends the call that awaits it.
--
-- Bounds. Flags, message identifiers and lengths of a frame wrap or are refused at 8, 64 and 32 bits
-- as in the code. The splitting loop has the length of the text and one as fuel, since each round
-- takes at least one character; the loop of the receive base has the size of the set of indices,
-- since each round meets another index; the loop of a connection has the number of its bytes and one,
-- since each round reads a line. A delay that doubles raises `OverflowError` where its power of two is
-- no float, from attempt 1025 on, as in the code.
--
-- Not modelled: sockets and the event loop, so no two methods of one object interleave but through the
-- senders; log lines, the texts of errors and the texts made for the windows; files other than
-- those of the group store; ciphers and key schedules; the router, the SAM
-- client, the interfaces and the updates; labels made of floats.
pub mod Prelude
pub mod Text
pub mod Dict
pub mod Json
pub mod PeerAddress
pub mod Session
pub mod Codec
pub mod Chunking
pub mod Groups
pub mod Sorting
pub mod Retention
pub mod BlindBox
pub mod Replica
pub mod Unread
pub mod MessageDelivery
pub mod TransferRetry
pub mod Examples
