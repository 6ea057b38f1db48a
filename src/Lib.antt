-- ===== src/Lib.antt =====
-- The node of the n3ur0n network: signed messages between instances, the capabilities that an
-- instance serves, and what it remembers in its database.
--
-- The parts, and the files that model them:
--
-- - Errors, Json, Clock: crates/core/src/error.rs; `serde_json::Value` as the code walks it; instants
--   of `OffsetDateTime`, as nanoseconds since a second so early that every `i64` second is a natural
--   number.
-- - Lobe (crates/core/src/lobe.rs), Identity (identity.rs), Message (message.rs and verify.rs),
--   Capability (capability.rs), Protocol (protocol.rs), BlobTypes (blob.rs): the core types and their
--   checks. `validate_lobe_id`, `parse_instance_id` (`InstanceId::parse`), `validate_alias`, `sign`
--   (`Envelope::sign`), `verify_signature`, `verify_envelope` have the names of the source. A character
--   is its code point, a byte a number.
-- - Storage (crates/storage/src): a table is the list of its rows; `Storage.Table` has the statements
--   of SQL that the repositories use, and Nonces, Peers, PlanRuns, Audit, Blobs and Conversations have one function
--   for each function of the file of that name. A `Fault` says which statement fails; a statement that
--   fails changes nothing.
-- - NodeErrors (crates/node/src/error.rs, audit.rs, crates/adapters/src/lib.rs): the errors of a node.
-- - Registry (crates/node/src/registry.rs): the capabilities, as a list of entries with different
--   names.
-- - Node (crates/node/src/node.rs): the state of a node as a record, with the tables behind its `db`;
--   `Outside` holds what it calls of other crates, of the network and of the file system.
-- - BlobLookup (crates/node/src/blob_resolve.rs): the blobs that the arguments of a call mention.
-- - Discovery (crates/node/src/discovery.rs): `refresh_peer`, which files the descriptor of a peer. `Pull`
--   holds the answer of the HTTP client and what fails.
-- - Verbs and Handler (crates/node/src/handler.rs): `handle_request` is split at its early returns into
--   `admit` (the nonce), `serve_fresh` (prune and dispatch), `conclude` (journal, announce, reply).
--   `Readings` holds what one request reads of clocks and random numbers, `Faults` the statements that
--   fail, and `Served` the answer, the node when the handler returns, and the endpoint for the task that
--   it spawned; `settle` runs that task. `Handler.Admission.Steps` are the lives of a node: requests one after the other on
--   a clock that does not run backwards, with what operators and tasks change in between.
-- - BlobService (crates/server/src/blobs.rs, blob_gc.rs): the tickets, and in Requests and Retrieval the
--   handlers `put_blob`, `get_blob`, `head_blob` and `delete_blob` and one round of the sweep, on a
--   `Shelf`: a node, the files and the configured directory. `ShelfFaults` and `ShelfReadings` hold what
--   fails and what is read of the clock; `Wire` holds the codecs of tickets and whitelists.
-- - Text: the methods of `str` that the planner uses.
-- - Catalog (crates/node/src/planner/catalog.rs): the capabilities that a plan may use: `build`, `find`,
--   `scoped_to`, and `filter_with_scores` for scores of any type.
-- - Plan (crates/node/src/planner/plan.rs): the steps of a plan and the references in their arguments;
--   Order has `topological_order`, Validation `validate_plan`, Board and Resolution `resolve_value` on the
--   blackboard. A step of the graph is a `Link`: an id and what it waits for. Frontier, Schedule and
--   Acyclic are the abstract view: steps taken one by one from a queue of those that wait for nothing.
-- - Executor (the same file): `execute_plan_streaming`. `Running` holds the variables of its loop, `Run`
--   the executions: from `begin`, any step in flight may finish next, with the error that it failed with
--   at once or, once invoked, with any result. That at most four invocations run at a time is left out,
--   so the executions of the source are among them.
-- - Rounds (crates/node/src/planner/plan_exec.rs): `resolve_plan` with its one retry, and the loop over
--   the rounds of a dispatch, from a first run on. `RoundInput` holds what one round meets of the clock,
--   the compiler, the journal and the execution. Plan.Depth has `plan_depth`.
-- - Mention (crates/node/src/mention.rs): `parse_mentions` with its byte positions, `to_token`, and the
--   scope of a message. Storage.Conversations and Conversation (crates/storage/src/conversations.rs,
--   crates/node/src/conversation.rs): the tables of turns; a conversation in memory and the window that
--   the planner is shown, and in Conversation.Stored its loading and storing.
-- - Examples: toy cryptography that keeps the laws, two instances, and runs.
--
-- The cryptography crates are the record `Crypto`; `IsCrypto` names what their documentation says:
-- a signature verifies under its key and has 64 bytes, hexadecimal decodes what it encodes, base32 text
-- is alphanumeric, SHA-256 has 32 bytes. Canonical JSON and the codecs of serde are functions that may
-- fail, and no theorem assumes more of them.
--
-- All functions are total: recursion is on lists and values, but for four loops on fuel. The three
-- that walk over a text with references or mentions get one more than its characters, and each turn
-- takes one at least; the loop over the queue of `topological_order` gets as much as there are steps.
-- Numbers that the code keeps in `i64` or `u64` are natural numbers here; no sum in the modelled code
-- comes near 2^63 but of sizes that a file system holds. Where Rust leaves an order open (a hash map,
-- ties of `ORDER BY`) the model has one order, and no theorem depends on it.
--
-- Not modelled: the first steps of a dispatch, the prompts, grammars, retrieval and reflection of the
-- planner (plan_exec.rs and others in crates/node/src/planner), the JSON of the messages to a language
-- model (conversation.rs), the sanitizing of blob paths, the walks of discovery over many peers and the
-- HTTP clients, the reload of manifests, the statistics of the Activity view, authentication in the database, the HTTP server and
-- the desktop application. Requests run one after the other: the interleaving of two handlers between
-- the check of a message and its nonce is not modelled; the insert of the nonce is one statement. The
-- task that a request spawns runs at once when the handler has returned.
pub mod Prelude
pub mod Text
pub mod Errors
pub mod Json
pub mod Clock
pub mod Lobe
pub mod Identity
pub mod Message
pub mod Capability
pub mod Protocol
pub mod BlobTypes
pub mod Storage
pub mod NodeErrors
pub mod Registry
pub mod Node
pub mod BlobLookup
pub mod Discovery
pub mod Verbs
pub mod Handler
pub mod BlobService
pub mod Catalog
pub mod Plan
pub mod Executor
pub mod Mention
pub mod Rounds
pub mod Conversation
pub mod Examples
