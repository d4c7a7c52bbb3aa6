-- ===== src/Server/Examples.antt =====
-- `main` of crates/server/src/main.rs where every crate does its part at once.
use ocypode.Prelude.{ℕ, ◌≡◌, refl, ◌↔◌, true, false, none, some, [], ◌∷◌, Bytes, codes, ok}
use ocypode.Config.{ServerConfig, critical, new_config}
use ocypode.Logger.{fmt_layer, layers_of}
use ocypode.Metrics.{not_booted}
use ocypode.Grpc.{Tonic}
use ocypode.Quic.Fixtures.{quic}
use ocypode.Server.{grpc_service, quic_accept_loop, World, Runtime, serve, main}
use ocypode.Server.Serve.{booted, ServesUp, serve_ok_iff}

abbrev tonic : Tonic
tonic = record {
  SocketAddr = Bytes;
  Listener = Bytes;
  HealthService = Bytes;
  Server = Bytes;
  Error = Unit {0};
  parse = λ b. ok b;
  bind = λ a. ok a;
  local_addr = λ l. ok l;
  health_service = λ b. b;
  serve = λ h l. l;
}

-- `INFO` is 3 and `TRACE` is 5.
abbrev runtime : Runtime ℕ quic (Unit {0})
runtime = record {
  info_level = 3;
  trace_level = 5;
  thread_spawns = true;
  parse = λ b. ok b;
  try_exists = λ p. ok true;
  ctrl_c = ok tt;
}

abbrev before : World ℕ tonic quic
before = record {
  tracing = record { global = none; threads = [] };
  metrics = not_booted;
  tasks = [];
  cancelled = false;
}

abbrev after : World ℕ tonic quic
after = record {
  tracing = record { global = some (fmt_layer false 3 ∷ []); threads = [] };
  metrics = not_booted;
  tasks = grpc_service listen ∷ quic_accept_loop tt ∷ [];
  cancelled = false;
}
  where
    listen : Bytes
    listen = b'[' ∷ b':' ∷ b':' ∷ b'1' ∷ b']' ∷ b':' ∷ b'5' ∷ b'0' ∷ b'0' ∷ b'5' ∷ b'1' ∷ []

main_runs : main runtime before ≡ (ok tt, after)
unfolding main
main_runs = refl

-- With the console and the metrics service.
abbrev config : ServerConfig ℕ
config = record c {
  logger = record c.logger { enable_tokio_console = true };
  metrics = record c.metrics { metrics_level = critical };
}
  where
    c : ServerConfig ℕ
    c = new_config 3

abbrev observed : World ℕ tonic quic
observed = record after {
  tracing = record {
    global = some (layers_of 5 true config.logger);
    threads = codes "ocypode tokio-console" ∷ [];
  };
  metrics = booted config not_booted;
}

serve_runs : serve runtime config before ≡ (ok tt, observed)
unfolding serve new_config
serve_runs = refl

serve_ok_iff_example :
    (serve runtime config before ≡ (ok tt, observed)) ↔ ServesUp runtime config before observed
serve_ok_iff_example = serve_ok_iff runtime config before observed
