-- ===== src/Quic.antt =====
-- crates/server/src/quic.rs: `start`. The s2n-quic crate is a parameter, with one function for each
-- call of a builder; so are the parsing of an address and `Path::try_exists`. Quic/Loop has the
-- tasks that `start` spawns.
pub mod Settings
pub mod Start
pub mod Loop
pub mod Fixtures
mod Examples
use ocypode.Prelude.{
  ℕ, Bool, true, false, Option, none, some, Bytes, Result, ok, err, panic, ◌>>=◌, if◌then◌else◌,
}
use ocypode.Config.{
  ServerConfig, QuicConfig, quic_socket_addr, PathError, cert_file_path, key_file_path,
}

pub record S2n : Type 1 where
  pub SocketAddr : Type 0
  pub IoBuilder : Type 0
  pub Io : Type 0
  pub LimitsBuilder : Type 0
  pub Limits : Type 0
  pub TlsBuilder : Type 0
  pub Tls : Type 0
  pub ServerBuilder : Type 0
  pub Server : Type 0
  pub Error : Type 0
  pub io_builder : IoBuilder
  pub with_receive_address : SocketAddr → IoBuilder → Result Error IoBuilder
  pub with_gso : Bool → IoBuilder → Result Error IoBuilder
  pub with_gro : Bool → IoBuilder → Result Error IoBuilder
  pub build_io : IoBuilder → Result Error Io
  pub limits_builder : LimitsBuilder
  pub with_inflight_handshake_limit : ℕ → LimitsBuilder → Result Error LimitsBuilder
  pub build_limits : LimitsBuilder → Result Error Limits
  pub default_limits : Limits
  pub tls_builder : TlsBuilder
  pub with_certificate : Bytes → Bytes → TlsBuilder → Result Error TlsBuilder
  pub with_client_authentication : TlsBuilder → Result Error TlsBuilder
  pub build_tls : TlsBuilder → Result Error Tls
  pub server_builder : ServerBuilder
  pub with_tls : Tls → ServerBuilder → Result Error ServerBuilder
  pub with_io : Io → ServerBuilder → Result Error ServerBuilder
  pub with_endpoint_limits : Limits → ServerBuilder → Result Error ServerBuilder
  pub start_server : ServerBuilder → Result Error Server
  pub local_addr : Server → Result Error SocketAddr

-- The boxed error of `start`.
pub data StartError (X : S2n) (P : Type 0) : Type 0 where
  provider : X.Error → StartError X P
  path : PathError P → StartError X P

module _ (X : S2n) where
  unfoldable pub build_io : QuicConfig → X.SocketAddr → Result X.Error X.Io
  build_io quic addr = do
    b ← X.with_receive_address addr X.io_builder
    b ← X.with_gso quic.enable_gso b
    b ← X.with_gro quic.enable_gro b
    X.build_io b

  unfoldable pub build_limits : Option ℕ → Result X.Error X.Limits
  build_limits none = ok X.default_limits
  build_limits (some limit) = do
    b ← X.with_inflight_handshake_limit limit X.limits_builder
    X.build_limits b

  unfoldable pub build_server : X.Tls → X.Io → X.Limits → Result X.Error X.Server
  build_server tls io limits = do
    b ← X.with_tls tls X.server_builder
    b ← X.with_io io b
    b ← X.with_endpoint_limits limits b
    X.start_server b

module _ (X : S2n) {P : Type 0} where
  abbrev pub boxed : {A : Type 0} → Result X.Error A → Result (StartError X P) A
  boxed (ok a) = ok a
  boxed (err e) = err (provider e)
  boxed panic = panic

  abbrev pub boxed_path : Result (PathError P) Bytes → Result (StartError X P) Bytes
  boxed_path (ok a) = ok a
  boxed_path (err e) = err (path e)
  boxed_path panic = panic

module _ (X : S2n) {P L : Type 0} (try_exists : Bytes → Result P Bool) where
  unfoldable pub build_tls : ServerConfig L → Result (StartError X P) X.Tls
  unfolding cert_file_path key_file_path
  build_tls config = do
    cert ← boxed_path X (cert_file_path try_exists config.quic.tls)
    key ← boxed_path X (key_file_path try_exists config.quic.tls)
    tls_builder ← boxed X (X.with_certificate cert key X.tls_builder)
    if config.tls_verify
        then (boxed X (X.with_client_authentication tls_builder) >>= λ b. boxed X (X.build_tls b))
        else boxed X (X.build_tls tls_builder)

module _ (X : S2n) {P L : Type 0} (parse : Bytes → Result X.Error X.SocketAddr)
    (try_exists : Bytes → Result P Bool) where
  -- `start` up to the spawned loop: the address that it returns, and the server that the loop owns.
  unfoldable pub start : ServerConfig L → Result (StartError X P) (X.SocketAddr × X.Server)
  unfolding quic_socket_addr build_io build_limits build_tls build_server
  start config = do
    addr ← quic_socket_addr parse config.quic
    io ← boxed X (build_io X config.quic addr)
    limits ← boxed X (build_limits X config.quic.endpoint_limits)
    tls ← build_tls X try_exists config
    server ← boxed X (build_server X tls io limits)
    local ← boxed X (X.local_addr server)
    ok (local, server)
