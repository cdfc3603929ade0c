-- ===== src/Lib.antt =====
-- A verification of rustymail, a single-node SMTP server and relay in Rust.
--
-- A checked configuration sets the limits. A client's bytes are framed into lines, a line is
-- parsed into a command, the server's loop lets the command through to a session, which moves by
-- it and hands an envelope over, and the message is received. What is to be relayed waits in a
-- queue of SQLite tables from which workers lease one delivery at a time, and a client attempts
-- it. The files follow these parts:
--
-- Base, Bytes: shared names; lists measured by native numbers; Boolean tests; byte strings with
--   the ASCII methods of `u8` and `str` that the sources call.
-- Address: crates/core/src/lib.rs, `valid_domain` and `Address`. Address/Case and
--   Address/Canonical hold the canonical form, Address/Safe its bytes.
-- Framing: crates/protocol/src/lib.rs, `LineDecoder` (a method that changes `self` returns the new
--   decoder), `decode_data_line` and `decode_data_frame`; `fill_line` of crates/server/src/lib.rs,
--   with the chunks of the stream as a list; the dot-stuffing of `send_body` in
--   crates/client/src/smtp.rs.
-- Command: crates/protocol/src/lib.rs, `parse_command` and `parse_path`; Command/Outcome has the
--   result type; Command/Rcpt has the RCPT line of crates/client/src/smtp.rs.
-- Headers: crates/protocol/src/headers.rs, `HeaderFilter::retain`, and Headers/Filter the filter
--   over the lines of a header.
-- Session: crates/protocol/src/lib.rs, `Session::apply` and `routed_recipient_result`;
--   Session/Trace has sequences of commands and lookups, Session/Oracle an independent model of
--   four flags.
-- Queue: crates/store/src/queue.rs. Queue/Rows has the rows of crates/store/schema.sql and the
--   records of the source, Queue/Table the SQL as functions on lists of rows, Queue/Clock the
--   guard `QueueRuntime::now`, Queue/Policy the retry policy, Queue/Lease what the owner of a
--   lease does (`queue_renew`, `queue_mark_body`, `queue_finish`), Queue/Sweep the batches
--   (`queue_expire`, `queue_recover`), Queue/Admin the administrator (`queue_hold`, `queue_retry`,
--   `queue_close_unknown`), Queue/Claim `queue_claim`, with Queue/Claim/Bounds and
--   Queue/Claim/Capacity on how much it leases, Queue/Enqueue `enqueue` and `insert_relay`.
--   Queue/Admin/Consent has what a retry needs, Queue/Lease/Fence what a stale lease may not do.
--   Queue/Clock/Steady has sequences of clock readings. Queue/Integrity has the checks of
--   `queue_integrity_mismatches` on one delivery and the rows joined to it (the count of queue
--   messages with no relay delivery is left out); below it stand the proofs that the
--   operations keep them, and Queue/Integrity/History has sequences of all of them.
--
-- Config: crates/core/src/config.rs, the records of `config_struct!`. Config/Net has the
--   addresses, Config/Check `validate` and the roles, Config/Parse `parse` and `load`,
--   Config/Accepted what an accepted configuration is.
-- Notification, Relay: the policy of crates/store/src/notification.rs, and the policies that
--   crates/server/src/relay.rs makes of a configuration.
-- Client: crates/client/src/smtp.rs. Client/Wire has the socket as a log of what an attempt tries
--   to write and the lines that it receives, and the chunks that a peer sends (`write`, `upgrade`;
--   `line` of crates/client/src/lib.rs), Client/Reply `response`, Client/Payload `send_body`,
--   Client/Attempt `try_attempt` and `attempt`. Framing/Drive has the loop over the frames of a
--   chunk, with a step of the caller's and a bound on its rounds.
--
-- Server: crates/server/src/lib.rs, the rounds of `smtp_session` up to DATA. What the dialog of
--   AUTH, the store, the handshake and the permits answer in a round is a record `Inputs`.
--   Server/Guard has what the rounds let through, Server/Rounds sequences of lines, Server/Receive
--   `receive_message` and `SubmissionHeaders`, with what each `fill_line` gives as a list.
--
-- Numbers are natural numbers with the bounds of their Rust types written out where the code can
-- reach them: a size in MAIL saturates at 2^64 - 1, a time in the queue is checked against or
-- saturates at 2^63 - 1. The loops are structural recursion on their input, except the one over
-- the frames of a chunk (Framing/Drive), which is cut off behind as many rounds as the chunk has
-- bytes, since each round takes a byte at least. A reply has at most the 64 lines of `response`.
--
-- What an operation of the store meets from outside is a record `Env`: the readings of the wall
-- clock and of the monotonic clock, and the end of its COMMIT, which is applied and reported, not
-- applied, or applied with the report lost. The pseudo-random part of a retry delay, made of a
-- SHA-256 digest, is a parameter, and so are the random tokens of `Uuid::new_v4`, of which the
-- proofs use that they have 32 characters. `queue_claim` has an `Env` for itself and one each for
-- the recovery and the expiry that it runs. An entry of `QueueRuntime::active` counts the owners of
-- a lease guard; `queue_finish` drops the lease that it takes, and a clone or another drop of a
-- guard is a step of its own. A column that a CHECK limits to an enumeration is that enumeration.
--
-- Not modelled: sockets, TLS, threads and files; failures of SQLite before a COMMIT, but for the
-- constraints that the insertion of a delivery can break, and the injected faults of the tests;
-- the capacity of buffers; the wording of formatted errors; accounts, mailboxes, the making of
-- reports and the command line; the deadlines of the client, which end an attempt as a lost connection does; of the server, the answer to a received message,
-- the accept loop and the dialog of AUTH; of the queue, `queue_open_body` and the listings.
pub mod Base
pub mod Bytes
pub mod Address
pub mod Framing
pub mod Command
pub mod Headers
pub mod Session
pub mod Queue
pub mod Config
pub mod Notification
pub mod Relay
pub mod Client
pub mod Server
