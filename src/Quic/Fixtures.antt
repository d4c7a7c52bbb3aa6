-- ===== src/Quic/Fixtures.antt =====
-- A small stand-in for s2n-quic in the examples of crates/server/src/main.rs and of
-- crates/server/tests/protocol.rs: every call succeeds.
use ocypode.Prelude.{[], Bytes, ok}
use ocypode.Quic.{S2n}

abbrev pub quic : S2n
quic = record {
  SocketAddr = Bytes;
  IoBuilder = Unit {0};
  Io = Unit {0};
  LimitsBuilder = Unit {0};
  Limits = Unit {0};
  TlsBuilder = Unit {0};
  Tls = Unit {0};
  ServerBuilder = Unit {0};
  Server = Unit {0};
  Error = Unit {0};
  io_builder = tt;
  with_receive_address = λ a b. ok b;
  with_gso = λ on b. ok b;
  with_gro = λ on b. ok b;
  build_io = λ b. ok b;
  limits_builder = tt;
  with_inflight_handshake_limit = λ n b. ok b;
  build_limits = λ b. ok b;
  default_limits = tt;
  tls_builder = tt;
  with_certificate = λ c k b. ok b;
  with_client_authentication = λ b. ok b;
  build_tls = λ b. ok b;
  server_builder = tt;
  with_tls = λ t b. ok b;
  with_io = λ t b. ok b;
  with_endpoint_limits = λ t b. ok b;
  start_server = λ b. ok b;
  local_addr = λ s. ok [];
}
