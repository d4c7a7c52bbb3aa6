-- ===== src/Protocol.antt =====
-- The integration tests of crates/server/tests/protocol.rs. `ok` is a test that passes, with whether
-- the shutdown token is cancelled at its end; `panic` is an assertion that fails.
mod Reads
pub mod Passes
mod Examples
use ocypode.Prelude.{
  ℕ, Bool, true, false, ltb, ◌==◌, Option, none, some, List, [], ◌∷◌, Bytes, bytes_eq, codes,
  length, Result, ok, err, panic, ◌>>=◌, not, if◌then◌else◌,
}
use ocypode.Message.{Info, Connect}
use ocypode.Config.{ServerConfig, new_config}
use ocypode.Parser.{Crates, ClientCodecError, info_frame, message_frame}
use ocypode.Parser.Code.{default_info, client_connect, connect_codec}
use ocypode.Parser.Reader.{
  Read, received, failed, Reading, read_next_client_frame, write_client_frame,
}
use ocypode.Quic
use ocypode.Quic.{S2n, StartError}

-- What the tests use of the client of the s2n-quic crate; `A` is the type of socket addresses. Of a
-- stream: what its reads give, what its n-th write gives for some bytes, and what closing gives.
pub record Dialer (X : Crates) (A : Type 0) : Type 1 where
  pub Error : Type 0
  pub Builder : Type 0
  pub Client : Type 0
  pub Connection : Type 0
  pub Stream : Type 0
  pub builder : Builder
  pub with_tls : Bytes → Builder → Result Error Builder
  pub with_io : Bytes → Builder → Result Error Builder
  pub start_client : Builder → Result Error Client
  pub connect : A → Bytes → Client → Result Error Connection
  pub keep_alive : Bool → Connection → Result Error Connection
  pub open_bidirectional_stream : Connection → Result Error Stream
  pub reads : Stream → List (Read X)
  pub write_all : Stream → ℕ → Bytes → Result X.IoError (Unit {0})
  pub close : Stream → Result Error (Unit {0})

module _ (X : Crates) (Q : S2n) (D : Dialer X Q.SocketAddr) (P : Type 0) where
  -- `TestError` boxes any of these.
  pub data TestError : Type 0 where
    start_failed : StartError Q P → TestError
    client_failed : D.Error → TestError
    codec_failed : ClientCodecError X → TestError
    io_failed : X.IoError → TestError
    unexpected_frame : TestError
    missing_info : TestError

-- The conversion of `?` into another error.
abbrev raised : {E F A : Type 0} → (E → F) → Result E A → Result F A
raised wrap (ok a) = ok a
raised wrap (err e) = err (wrap e)
raised wrap panic = panic

-- `assert!`
abbrev asserted : {E : Type 0} → Bool → Result E (Unit {0})
asserted true = ok tt
asserted false = panic

abbrev bool_eq : Bool → Bool → Bool
bool_eq a b = if a then b else not b

-- The configuration of the tests.
unfoldable pub test_config : {L : Type 0} → L → ℕ → ServerConfig L
unfolding new_config
test_config info_level connect_timeout = record (new_config info_level) {
  quic = record (new_config info_level).quic {
    enable_gso = false;
    enable_gro = false;
    listen_addr = codes "127.0.0.1:0";
    connect_timeout = connect_timeout;
    tls = record {
      cert_file_path = codes "../certs/server.crt";
      key_file_path = codes "../certs/key.pem";
    };
  };
}

module _ {X : Crates} (Q : S2n) (D : Dialer X Q.SocketAddr) {P : Type 0} where
  -- The `match` on the first frame: INFO, the buffer, and what the stream still gives.
  abbrev pub info_of : Reading X → Result (TestError X Q D P) (Info × (Bytes × List (Read X)))
  info_of (ok (some (info_frame message)), left) = ok (message, left)
  info_of (ok (some (message_frame _)), left) = err unexpected_frame
  info_of (ok none, left) = err missing_info
  info_of (err e, left) = err (codec_failed e)
  info_of (panic, left) = panic

  -- The number of bytes that the next `read_buf` gives.
  abbrev pub bytes_read : List (Read X) → Result (TestError X Q D P) ℕ
  bytes_read [] = ok 0
  bytes_read (received bytes ∷ _) = ok (length bytes)
  bytes_read (failed e ∷ _) = err (io_failed e)

  -- The assertions on INFO.
  abbrev pub verify_info : Info → Result (TestError X Q D P) (Unit {0})
  verify_info info_message = do
    let expected_info = default_info
    _ ← asserted (info_message.version == expected_info.version)
    _ ← asserted (bool_eq info_message.requires_auth expected_info.requires_auth)
    _ ← asserted (bool_eq info_message.tls_verify expected_info.tls_verify)
    _ ← asserted (bytes_eq info_message.server_id expected_info.server_id)
    _ ← asserted (bytes_eq info_message.server_name expected_info.server_name)
    _ ← asserted (info_message.max_payload == expected_info.max_payload)
    asserted (ltb 0 info_message.client_id)

module _ (X : Crates) (Q : S2n) (D : Dialer X Q.SocketAddr) {P L : Type 0}
    (parse : Bytes → Result Q.Error Q.SocketAddr) (try_exists : Bytes → Result P Bool)
    (info_level : L) where
  unfoldable pub setup_server_and_client :
      ℕ → Result (TestError X Q D P) (ServerConfig L × D.Client × Q.SocketAddr)
  unfolding Quic.start test_config
  setup_server_and_client connect_timeout = do
    let server_config = test_config info_level connect_timeout
    (server_address, _) ← raised start_failed (Quic.start Q parse try_exists server_config)
    b ← raised client_failed (D.with_tls (codes "../certs/server.crt") D.builder)
    b ← raised client_failed (D.with_io (codes "0.0.0.0:0") b)
    client ← raised client_failed (D.start_client b)
    ok (server_config, client, server_address)

  -- How both tests begin: a connection and its stream.
  unfoldable pub open_stream : ℕ → Result (TestError X Q D P) D.Stream
  unfolding setup_server_and_client
  open_stream connect_timeout = do
    (_, client, server_address) ← setup_server_and_client connect_timeout
    connection ← raised client_failed (D.connect server_address (codes "localhost") client)
    connection ← raised client_failed (D.keep_alive true connection)
    raised client_failed (D.open_bidirectional_stream connection)

  unfoldable pub info_then_connect_over_quic : Result (TestError X Q D P) Bool
  unfolding open_stream read_next_client_frame write_client_frame default_info client_connect
      connect_codec
  info_then_connect_over_quic = do
    stream ← open_stream 5
    (info_message, _) ← info_of Q D (read_next_client_frame X (D.reads stream) [])
    _ ← verify_info Q D info_message
    _ ←
        raised codec_failed
          (write_client_frame X (D.write_all stream 0) (connect_codec X) (client_connect 1 true))
    _ ←
        raised codec_failed
          (write_client_frame X (D.write_all stream 1) (connect_codec X) (client_connect 1 true))
    _ ← raised client_failed (D.close stream)
    ok true

  unfoldable pub connect_timeout_when_no_connect_message : Result (TestError X Q D P) Bool
  unfolding open_stream read_next_client_frame
  connect_timeout_when_no_connect_message = do
    stream ← open_stream 1
    (_, (_, reads)) ← info_of Q D (read_next_client_frame X (D.reads stream) [])
    bytes_read ← bytes_read Q D reads
    _ ← asserted (bytes_read == 0)
    ok true
