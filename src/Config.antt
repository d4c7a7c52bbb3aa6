-- ===== src/Config.antt =====
-- crates/server/src/config.rs. `LevelFilter` of the tracing crate, with its `INFO`, is a parameter;
-- so is what `Path::try_exists` answers.
mod Examples
use ocypode.Prelude.{
  ltb, expect, ℕ, suc, ◌*◌, ◌↔◌, ◌≡◌, refl, Bool, true, false, Option, none, some, ◌++◌, Bytes,
  codes, Result, ok, err, panic, ◌>>=◌, if◌then◌else◌, not,
}

abbrev default_server_id : Bytes
default_server_id = codes "ocypode-server"

abbrev default_server_name : Bytes
default_server_name = codes "ocypode"

abbrev pub quic_connect_timeout_ms : ℕ
quic_connect_timeout_ms = 2000

abbrev pub quic_read_buffer_size : ℕ
quic_read_buffer_size = 32 * 1024

abbrev pub quic_write_buffer_size : ℕ
quic_write_buffer_size = 10 * 1024 * 1024

abbrev pub quic_outbound_channel_capacity : ℕ
quic_outbound_channel_capacity = 1024

pub record LoggerConfig (L : Type 0) : Type 0 where
  pub name : Bytes
  pub enable_tokio_console : Bool
  pub with_thread_name : Bool
  pub default_level : L

pub record GrpcConfig : Type 0 where
  pub listen_addr : Bytes

pub data MetricLevel : Type 0 where
  disabled : MetricLevel
  critical : MetricLevel
  info : MetricLevel
  debug : MetricLevel

pub record MetricsConfig : Type 0 where
  pub metrics_level : MetricLevel
  pub listen_addr : Bytes

pub record TlsConfig : Type 0 where
  pub cert_file_path : Bytes
  pub key_file_path : Bytes

pub record QuicConfig : Type 0 where
  pub listen_addr : Bytes
  pub enable_gso : Bool
  pub enable_gro : Bool
  pub endpoint_limits : Option ℕ
  pub connect_timeout : ℕ
  pub read_buffer_size : ℕ
  pub write_buffer_size : ℕ
  pub outbound_channel_capacity : ℕ
  pub tls : TlsConfig

pub record ServerConfig (L : Type 0) : Type 0 where
  pub logger : LoggerConfig L
  pub grpc : GrpcConfig
  pub metrics : MetricsConfig
  pub quic : QuicConfig
  pub server_id : Bytes
  pub server_name : Bytes
  pub requires_auth : Bool
  pub tls_verify : Bool

unfoldable pub default_tls : TlsConfig
default_tls = record {
  cert_file_path = codes "crates/certs/server.crt";
  key_file_path = codes "crates/certs/key.pem";
}

unfoldable pub default_quic : QuicConfig
unfolding default_tls
default_quic = record {
  listen_addr = codes "127.0.0.1:4433";
  enable_gso = true;
  enable_gro = true;
  endpoint_limits = none;
  connect_timeout = quic_connect_timeout_ms;
  read_buffer_size = quic_read_buffer_size;
  write_buffer_size = quic_write_buffer_size;
  outbound_channel_capacity = quic_outbound_channel_capacity;
  tls = default_tls;
}

unfoldable pub default_grpc : GrpcConfig
default_grpc = record { listen_addr = codes "[::1]:50051" }

unfoldable pub default_metrics : MetricsConfig
default_metrics = record { metrics_level = disabled; listen_addr = codes "127.0.0.1:9090" }

module _ {L : Type 0} (info_level : L) where
  unfoldable pub new_logger : Bytes → LoggerConfig L
  new_logger name = record {
    name = name;
    enable_tokio_console = false;
    with_thread_name = false;
    default_level = info_level;
  }

  -- `ServerConfig::new`, which `default` calls.
  unfoldable pub new_config : ServerConfig L
  unfolding new_logger default_grpc default_metrics default_quic
  new_config = record {
    logger = new_logger (codes "ocypode");
    grpc = default_grpc;
    metrics = default_metrics;
    quic = default_quic;
    server_id = default_server_id;
    server_name = default_server_name;
    requires_auth = false;
    tls_verify = false;
  }

-- `socket_addr` of both configurations, with the parsing of an address as a parameter.
module _ {E F A : Type 0} (parse : Bytes → Result E A) where
  unfoldable pub grpc_socket_addr : GrpcConfig → Result F A
  grpc_socket_addr config = expect (parse config.listen_addr)

  unfoldable pub quic_socket_addr : QuicConfig → Result F A
  quic_socket_addr config = expect (parse config.listen_addr)

-- The order of `MetricLevel`, which `PartialOrd` derives from the order of the variants.
unfoldable pub metric_level_code : MetricLevel → ℕ
metric_level_code disabled = 0
metric_level_code critical = 1
metric_level_code info = 2
metric_level_code debug = 3

-- `level > MetricLevel::Disabled`
unfoldable pub metrics_enabled : MetricLevel → Bool
unfolding metric_level_code
metrics_enabled level = ltb (metric_level_code disabled) (metric_level_code level)

-- The `io::Error` of the path checks: that of `try_exists`, or one of the kind `NotFound`.
pub data PathError (E : Type 0) : Type 0 where
  unreachable_path : E → PathError E
  not_found : Bytes → PathError E

module _ {E : Type 0} (try_exists : Bytes → Result E Bool) where
  abbrev checked : Bytes → Bytes → Result E Bool → Result (PathError E) Bytes
  checked message path (ok b) = if not b then err (not_found (message ++ path)) else ok path
  checked message path (err e) = err (unreachable_path e)
  checked message path panic = panic

  unfoldable pub cert_file_path : TlsConfig → Result (PathError E) Bytes
  cert_file_path tls =
      checked (codes "Certificate file not found at: ") tls.cert_file_path
        (try_exists tls.cert_file_path)

  unfoldable pub key_file_path : TlsConfig → Result (PathError E) Bytes
  key_file_path tls =
      checked (codes "Key file not found at: ") tls.key_file_path (try_exists tls.key_file_path)

  checked_ok :
      (message path p : Bytes) (o : Result E Bool)
      → (checked message path o ≡ ok p) ↔ ((o ≡ ok true) × (p ≡ path))
  checked_ok message path p (ok true) = (λ e. (refl, cc), λ h. cc)
  checked_ok message path p (ok false) = (λ e. absurd cc, λ h. absurd cc)
  checked_ok message path p (err e) = (λ q. absurd cc, λ h. absurd cc)
  checked_ok message path p panic = (λ e. absurd cc, λ h. absurd cc)

  -- The certificate and the key are given out exactly if the file system says that a file of that
  -- path exists, and then as the configured path.
  pub tls_paths_outcome :
      (tls : TlsConfig) (p : Bytes)
      → ((cert_file_path tls ≡ ok p)
          ↔ ((try_exists tls.cert_file_path ≡ ok true) × (p ≡ tls.cert_file_path)))
        × ((key_file_path tls ≡ ok p)
            ↔ ((try_exists tls.key_file_path ≡ ok true) × (p ≡ tls.key_file_path)))
  unfolding cert_file_path key_file_path
  tls_paths_outcome tls p = (
    checked_ok (codes "Certificate file not found at: ") tls.cert_file_path p
        (try_exists tls.cert_file_path),
    checked_ok (codes "Key file not found at: ") tls.key_file_path p (try_exists tls.key_file_path),
  )
