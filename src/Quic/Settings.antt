-- ===== src/Quic/Settings.antt =====
-- What the builders of s2n-quic, as crates/server/src/quic.rs uses them, keep of what they are asked:
-- each call sets its own setting and leaves the others, and building keeps all.
use ocypode.Prelude.{ℕ, ◌≡◌, Bool, true, false, Option, none, some, Bytes, ok}
use ocypode.Quic.{S2n}

pub record IoSettings (A : Type 0) : Type 0 where
  pub receive_address : Option A
  pub gso : Bool
  pub gro : Bool

pub record TlsSettings : Type 0 where
  pub certificate : Option (Bytes × Bytes)
  pub client_authentication : Bool

pub record ServerSettings (X : S2n) : Type 0 where
  pub tls : Option X.Tls
  pub io : Option X.Io
  pub limits : Option X.Limits

pub record Settings (X : S2n) : Type 0 where
  pub io_of_builder : X.IoBuilder → IoSettings X.SocketAddr
  pub io_of : X.Io → IoSettings X.SocketAddr
  pub limit_of_builder : X.LimitsBuilder → Option ℕ
  pub limit_of : X.Limits → Option ℕ
  pub tls_of_builder : X.TlsBuilder → TlsSettings
  pub tls_of : X.Tls → TlsSettings
  pub server_of_builder : X.ServerBuilder → ServerSettings X
  pub server_of : X.Server → ServerSettings X
  pub receive_address_set :
      (a : X.SocketAddr) (b b' : X.IoBuilder)
      → X.with_receive_address a b ≡ ok b'
      → io_of_builder b' ≡ record (io_of_builder b) { receive_address = some a }
  pub gso_set :
      (on : Bool) (b b' : X.IoBuilder)
      → X.with_gso on b ≡ ok b'
      → io_of_builder b' ≡ record (io_of_builder b) { gso = on }
  pub gro_set :
      (on : Bool) (b b' : X.IoBuilder)
      → X.with_gro on b ≡ ok b'
      → io_of_builder b' ≡ record (io_of_builder b) { gro = on }
  pub io_built : (b : X.IoBuilder) (io : X.Io) → X.build_io b ≡ ok io → io_of io ≡ io_of_builder b
  pub limit_set :
      (n : ℕ) (b b' : X.LimitsBuilder)
      → X.with_inflight_handshake_limit n b ≡ ok b'
      → limit_of_builder b' ≡ some n
  pub limits_built :
      (b : X.LimitsBuilder) (limits : X.Limits)
      → X.build_limits b ≡ ok limits
      → limit_of limits ≡ limit_of_builder b
  pub no_limit : limit_of X.default_limits ≡ none
  pub no_authentication : (tls_of_builder X.tls_builder).client_authentication ≡ false
  pub certificate_set :
      (cert key : Bytes) (b b' : X.TlsBuilder)
      → X.with_certificate cert key b ≡ ok b'
      → tls_of_builder b' ≡ record (tls_of_builder b) { certificate = some (cert, key) }
  pub authentication_set :
      (b b' : X.TlsBuilder)
      → X.with_client_authentication b ≡ ok b'
      → tls_of_builder b' ≡ record (tls_of_builder b) { client_authentication = true }
  pub tls_built :
      (b : X.TlsBuilder) (tls : X.Tls) → X.build_tls b ≡ ok tls → tls_of tls ≡ tls_of_builder b
  pub tls_set :
      (tls : X.Tls) (b b' : X.ServerBuilder)
      → X.with_tls tls b ≡ ok b'
      → server_of_builder b' ≡ record (server_of_builder b) { tls = some tls }
  pub io_set :
      (io : X.Io) (b b' : X.ServerBuilder)
      → X.with_io io b ≡ ok b'
      → server_of_builder b' ≡ record (server_of_builder b) { io = some io }
  pub limits_set :
      (limits : X.Limits) (b b' : X.ServerBuilder)
      → X.with_endpoint_limits limits b ≡ ok b'
      → server_of_builder b' ≡ record (server_of_builder b) { limits = some limits }
  pub server_started :
      (b : X.ServerBuilder) (server : X.Server)
      → X.start_server b ≡ ok server
      → server_of server ≡ server_of_builder b
