-- ===== src/Lib.antt =====
-- The ocypode messaging server.
--
-- A client connects over QUIC, reads INFO, sends CONNECT, and then sends frames: PUBLISH, SUBSCRIBE
-- and UNSUBSCRIBE. The frames are cut out of the byte stream by a codec, topics and filters are
-- validated, and a router keeps a trie of the subscriptions and finds those of a topic. At this
-- commit the connection does not call the router yet, so the router is a component of its own
-- here, and no frame of a client is answered, PUBLISH of a verbose client included.
--
-- Files, with the sources under crates/server/src:
--   Prelude    bytes, tests, lists, Rust's `Result` with a panic, association lists
--   Topic      topic.rs and `TopicError`: `new_topic` is `Topic::new`, `new_filter` is
--              `TopicFilter::new`, `segments_of` is `segments`; Topic/Shape says what a topic and a
--              filter are, and what an error says of the input; Topic/Display prints them
--   Identity   `ClientId` of client.rs
--   Router     router.rs: the trie and `insert_at`; Router/Delivery is `search` and `collect_node`,
--              Router/Removal the parts of `delete`, Router/Registry the operations of `Router`;
--              Levels, Paths, Insert, Pruning, Shrink, Reach, Delete, Missing, Matching, Walk,
--              Search, Count, Sums and Sole are the lemmas; Refinement, Coherence, Forget, Runs,
--              Stale, Once and Answers state the theorems
--   Message    proto/ocypode/pubsub/v1/pubsub.proto
--   Parser     parser.rs and its errors: Parser/Code has `CommandCodec` and the builders of messages,
--              Parser/Framing the header, both decoders and the encoder; Outcome, Chunks, RoundTrip,
--              Exchange, Stream, Atomic and Codecs are about the frames; Parser/Reader is the client's
--              reading and writing of a frame in tests/protocol.rs, beside src
--   Config     config.rs
--   Client     auth.rs, handshake.rs and client.rs: Client/Pipeline and Client/Failures are about
--              `run`, Client/Writer about the outbound writer on batches, Client/Channel about the outbound channel with the
--              writer at its end as steps that interleave, and Client/Start is `Client::new` with
--              `handle_bidirectional_stream` of quic.rs; Client/Conversation puts these, the writer
--              and the reading client together
--   Quic       quic.rs: the set-up in `start`, with Quic/Settings for what builders keep,
--              and in Quic/Loop the tasks that it spawns, as a step relation on connections, streams
--              and clients
--   Metrics    metrics.rs
--   Grpc       grpc.rs
--   Logger     logger.rs
--   Server     main.rs: `main` over Logger, Grpc, Metrics and Quic; Server/Serve is for any
--              configuration, Server/Main for that of `ServerConfig::new`
--   Protocol   tests/protocol.rs, beside src: the set-up of the integration tests and both tests;
--              Protocol/Passes runs the first against the server, and Protocol/Reads has its lemmas
--   The file Examples of a folder has runs at concrete inputs, and Fixtures the parameters of these.
--   UnitTests has the source's own unit tests as functions into Bool or Option, whose file Passes runs
--   them. Client/Session puts codec and `run` together, with the `FramedRead` of Parser/Framed,
--   and Client/Conversation writer and codec, with its `FramedWrite`.
--
-- State is passed: an operation gives the state after it. A panic is `panic` of `Result`, or `none` in
-- the router. A `HashMap` of the standard library is an association list, in whose order it is walked.
-- `Arc` only shares, and the router is changed by one caller at a time. Parameters, with what is
-- documented of them: the `DashMap` of the dashmap crate, prost's encoding of messages, the big-endian
-- `get_u32` and `put_u32` of the bytes crate, `Path::try_exists`, the level type of the tracing crate,
-- the tokio sink, the bounded mpsc channel, the framed halves of tokio-util, the transport, and what
-- s2n-quic on both sides, tonic, axum, prometheus and the parsing of socket addresses give. Of tokio's timing, a run
-- takes whether CONNECT comes in time and whether the writer task still receives; where tasks
-- interleave, each step of one is a step of the relation.
--
-- The loop of `search` runs on fuel, `weight` of the root: a round pops one node and pushes only
-- children of it, so there are no more rounds than nodes. The other loops are structural: the
-- decoders go down the buffer, and `delete` goes down its path.
--
-- Not modelled: transport.rs and permission.rs, which have no code of their own; the counters of
-- metrics.rs, which nothing uses; build.rs and the certificate tool, which only call other crates; the
-- integration test of gRPC; `reserve_udp_port`
-- of tests/protocol.rs, which nothing calls.
pub mod Prelude
pub mod Topic
pub mod Identity
pub mod Message
pub mod Parser
pub mod Config
pub mod Client
pub mod Metrics
pub mod Grpc
pub mod Logger
pub mod Quic
pub mod Server
pub mod Router
pub mod Protocol
