-- ===== src/Lib.antt =====
-- rsntr: verification of the core logic of crates/authenticator, crates/protocol, crates/node,
-- crates/surfaces and crates/web.
--
-- A node answers requests of its peers. A request arrives as frames (crates/protocol), its statement
-- is reduced to a footprint, a chain of deciders (crates/authenticator) says whether it runs, and the
-- node (crates/node) executes it and sends the rows back. The outbox (crates/surfaces) sends the
-- requests of a node's own application until they are settled; the web surface (crates/web) exports
-- and imports tables as CSV.
--
-- Base.antt: helpers. A text is its code points (`Str`), a byte a number; numbers are the native ℕ.
-- Authenticator: one file per source file, each function under the name it has in the source.
--   Types.antt (crates/authenticator/src/types.rs): footprints and decisions.
--   Db.antt: the tables of the node's database that the tiers use; `none` is a table that is missing.
--   Clock.antt: the timestamps of human.rs.
--   Fingerprint.antt (fingerprint.rs): the normal form of a statement and the key of the cache.
--   Policy.antt (policy.rs), Cache.antt (cache.rs), Human.antt (human.rs): the tiers; a function from
--   the database to an answer and, where it writes, the new database.
--   Inbox.antt (human.rs, answer_inbox): the owner's answer, a state and error monad in which the
--   writes before an error stay, as with no transaction.
--   Chain.antt (chain.rs): the registry, the configuration, the masks and the loop over the tiers.
-- Protocol: Envelope.antt (crates/protocol/src/envelope.rs), the frame objects; Response.antt
--   (response.rs) and Entrainment.antt (entrainment.rs), the readers over the order of frames;
--   Frame.antt (frame.rs), the length-prefixed frames; ErrorCode.antt (error.rs), the codes.
-- Node: Authorizer.antt (crates/node/src/footprint.rs), the callbacks that collect the footprint of a
--   statement for the chain and hold its execution to it; ModInstall.antt (mod_install.rs), the gate in
--   front of a remote installation of a mod; Entrain.antt (entrain.rs), the registry of the active
--   entrainments; Projection.antt with Fields.antt (projection.rs, entrain.rs), the points that a caller
--   is offered and the gates of entrainments. Of pipeline.rs: Screen.antt, the screening of a statement; Sources.antt,
--   the gates of media sources and mods; Knock.antt with Budget.antt, the admission of strangers and
--   its token buckets; Limits.antt, Engine.antt, Stream.antt and Execute.antt, the limits of a request,
--   sqlite as the job sees it, the loop over the rows, and the job from its transaction to its frames.
-- Surfaces (crates/surfaces/src/outbox.rs): Wire.antt, what a row of _outbox is on the wire and what a
--   row of a response is in _results; Outbox.antt, the worker's tick over the rows of _outbox, over a
--   record `World` of what it does beside its tables; Worker.antt, that record made of the code's own
--   functions and of PeerId::from_str (crates/transport/src/lib.rs).
-- Web: Csv.antt (crates/web/src/csv.rs), the cell codec and the parser of documents.
-- The children of a module hold its proofs; the Examples modules run the theorems on small data.
--
-- Parameters stand for code that is not in the repository: SHA-256, the JSON of serde and of sqlite's
-- json_extract (`Codec`, `Parsers`; `IsFaithful` is what they promise of texts they wrote), the text of
-- a float, the quoting of a text by `{:?}`, the text of a failure of sqlite, tokio's channels
-- (`Channels`), what sqlite does with a statement (`Engine`, `Preparer`), how many frames a client
-- takes, serde_json and ULIDs of the outbox's worker (`Outside`), and what the transport does on an
-- attempt of it (`Dial`). The levels of the token buckets are exact parts of a token where the code
-- computes in f64. A transaction that is not committed leaves the store as it was. Time, fresh ids and
-- a tier's panic are arguments or results. A failed sqlite statement of the node's own is a missing
-- table or a violated primary key, and of the outbox's worker any statement may fail (`Faults`); other
-- I/O errors are not modelled. A gate's row of `_audit` is part of its result. Recursion is on the
-- structure of the data everywhere but for the decimal digits of a number, where the fuel is the
-- number's successor, more than the number of its digits.
--
-- Not modelled: the Turtle parser of the envelopes, the script tier, the streams, worker threads and
-- timers that join the steps of the node's pipeline, the handlers of chat, media and fires, SPARQL, the
-- rest of mods, the presence table and the virtual table of remote queries, the transport, the HTTP
-- handlers, the command line and the bindings.
pub mod Base
pub mod Authenticator
pub mod Protocol
pub mod Surfaces
pub mod Web
pub mod Node
