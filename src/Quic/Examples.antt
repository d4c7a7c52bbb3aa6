-- ===== src/Quic/Examples.antt =====
-- crates/server/src/quic.rs with a small stand-in for s2n-quic, whose builders are their settings, and
-- a run of its tasks.
use ocypode.Prelude.{
  ap, Option, none, some, In, ◌⊎◌, ℕ, ◌≡◌, refl, Bool, true, false, [], ◌∷◌, arith, Bytes, codes,
  Result, ok, err,
}
use ocypode.Identity.{next_client_id}
use ocypode.Config.{ServerConfig, new_config, default_quic, not_found}
use ocypode.Quic.{S2n, path, start}
use ocypode.Quic.Settings.{IoSettings, TlsSettings, ServerSettings, Settings}
use ocypode.Quic.Start.{start_ok}
use ocypode.Quic.Loop
use ocypode.Quic.Loop.{
  Step, next, here, Steps, Endpoint, running, stopped, started, Reach, later, Steps, here, next,
  cancel, take_shutdown, accept, accept_stream, begin_client, end_connection,
}
use ocypode.Quic.Loop.Clients.{Distinct, ids, Reach-Distinct}
use ocypode.Quic.Loop.Shutdown.{IsServing, shutdown_stops}

abbrev Io : Type 0
Io = IoSettings Bytes

-- What a server was given.
pub record Parts : Type 0 where
  pub tls : Option TlsSettings
  pub io : Option Io
  pub limits : Option (Option ℕ)

abbrev quic : S2n
quic = record {
  SocketAddr = Bytes;
  IoBuilder = Io;
  Io = Io;
  LimitsBuilder = Option ℕ;
  Limits = Option ℕ;
  TlsBuilder = TlsSettings;
  Tls = TlsSettings;
  ServerBuilder = Parts;
  Server = Parts;
  Error = Unit {0};
  io_builder = record { receive_address = none; gso = false; gro = false };
  with_receive_address = λ a b. ok (record b { receive_address = some a });
  with_gso = λ on b. ok (record b { gso = on });
  with_gro = λ on b. ok (record b { gro = on });
  build_io = λ b. ok b;
  limits_builder = none;
  with_inflight_handshake_limit = λ n b. ok (some n);
  build_limits = λ n. ok n;
  default_limits = none;
  tls_builder = record { certificate = none; client_authentication = false };
  with_certificate = λ c k b. ok (record b { certificate = some (c, k) });
  with_client_authentication = λ b. ok (record b { client_authentication = true });
  build_tls = λ b. ok b;
  server_builder = record { tls = none; io = none; limits = none };
  with_tls = λ t b. ok (record b { tls = some t });
  with_io = λ t b. ok (record b { io = some t });
  with_endpoint_limits = λ t b. ok (record b { limits = some t });
  start_server = λ b. ok b;
  local_addr = λ s. ok (codes "127.0.0.1:4433");
}

given : {A : Type 0} {a b : A} → ◌≡◌ {A = Result (Unit {0}) A} (ok a) (ok b) → b ≡ a
given e = cc

abbrev parts : Parts → ServerSettings quic
parts p = record { tls = p.tls; io = p.io; limits = p.limits }

abbrev settings : Settings quic
settings = record {
  io_of_builder = λ b. b;
  io_of = λ b. b;
  limit_of_builder = λ b. b;
  limit_of = λ b. b;
  tls_of_builder = λ b. b;
  tls_of = λ b. b;
  server_of_builder = parts;
  server_of = parts;
  receive_address_set = λ a b b' e. given e;
  gso_set = λ on b b' e. given e;
  gro_set = λ on b b' e. given e;
  io_built = λ b io e. given e;
  limit_set = λ n b b' e. given e;
  limits_built = λ b limits e. given e;
  no_limit = refl;
  no_authentication = refl;
  certificate_set = λ cert key b b' e. given e;
  authentication_set = λ b b' e. given e;
  tls_built = λ b tls e. given e;
  tls_set = λ tls b b' e. ap parts (given e);
  io_set = λ io b b' e. ap parts (given e);
  limits_set = λ limits b b' e. ap parts (given e);
  server_started = λ b server e. ap parts (given e);
}

abbrev parse : Bytes → Result (Unit {0}) Bytes
parse b = ok b

abbrev all_exist : Bytes → Result (Unit {0}) Bool
all_exist p = ok true

abbrev none_exist : Bytes → Result (Unit {0}) Bool
none_exist p = ok false

abbrev config : ServerConfig ℕ
unfolding new_config default_quic
config = record (new_config 3) {
  tls_verify = true;
  quic = record default_quic { enable_gro = false; endpoint_limits = some 7 };
}

abbrev tls_asks : TlsSettings
tls_asks = record {
  certificate = some (codes "crates/certs/server.crt", codes "crates/certs/key.pem");
  client_authentication = true;
}

abbrev io_asks : Io
io_asks = record { receive_address = some (codes "127.0.0.1:4433"); gso = true; gro = false }

abbrev running_server : Parts
running_server = record { tls = some tls_asks; io = some io_asks; limits = some (some 7) }

starts : start quic parse all_exist config ≡ ok (codes "127.0.0.1:4433", running_server)
unfolding start config
starts = refl

no_certificate :
    start quic parse none_exist config
    ≡ err (path (not_found (codes "Certificate file not found at: crates/certs/server.crt")))
unfolding start config
no_certificate = refl

start_ok_example :
    (quic.local_addr running_server ≡ ok (codes "127.0.0.1:4433"))
    × (all_exist config.quic.tls.cert_file_path ≡ ok true)
    × (all_exist config.quic.tls.key_file_path ≡ ok true)
    × (listen : Bytes) × (tls : TlsSettings) × (io : Io) × (limits : Option ℕ) × (parse
          config.quic.listen_addr
        ≡ ok listen)
    × (parts running_server ≡ record { tls = some tls; io = some io; limits = some limits })
    × (io ≡ record {
      receive_address = some listen;
      gso = config.quic.enable_gso;
      gro = config.quic.enable_gro;
    })
    × (limits ≡ config.quic.endpoint_limits)
    × (tls ≡ record {
      certificate = some (config.quic.tls.cert_file_path, config.quic.tls.key_file_path);
      client_authentication = config.tls_verify;
    })
start_ok_example =
    start_ok settings parse all_exist config (codes "127.0.0.1:4433") running_server starts

-- Two connections, named by numbers, and a client on each; then the token is cancelled.
abbrev two_clients : Endpoint ℕ
unfolding next_client_id
two_clients = record {
  cancelled = true;
  accept_loop = running;
  counter = 3;
  connections = 20 ∷ 10 ∷ [];
  waiting = [];
  clients = (record { value = 2 }, 20) ∷ (record { value = 1 }, 10) ∷ [];
}

two_clients-Reach : Reach 7 two_clients
unfolding two_clients next_client_id
two_clients-Reach =
    later
      (later
        (later
          (later
            (later (later (later Loop.start (accept 10 refl)) (accept 20 refl))
              (accept_stream 10 (20 ∷ []) [] refl))
            (begin_client 10 [] [] refl))
          (accept_stream 20 [] (10 ∷ []) refl))
        (begin_client 20 [] [] refl))
      cancel

Reach-Distinct_example : Distinct (ids two_clients.clients)
Reach-Distinct_example = Reach-Distinct (omega arith) two_clients-Reach

-- Another connection comes before the loop takes notice.
abbrev three_connections : Endpoint ℕ
unfolding two_clients
three_connections = record two_clients { connections = 30 ∷ 20 ∷ 10 ∷ [] }

one_more : Steps two_clients three_connections
unfolding two_clients three_connections
one_more = next here (accept 30 refl)

shutdown_stops_example :
    (three_connections.accept_loop ≡ stopped → two_clients.cancelled ≡ true)
    × (two_clients.cancelled ≡ true
        → (three_connections.accept_loop ≡ stopped)
          ⊎ ((u : Endpoint ℕ) × (st : Step three_connections u) × IsServing st
              × (u.accept_loop ≡ stopped)))
    × ((u : Endpoint ℕ)
        → three_connections.accept_loop ≡ stopped
        → Steps three_connections u
        → (u.accept_loop ≡ stopped)
          × ((c : ℕ) → In c u.connections → In c three_connections.connections))
unfolding one_more two_clients
shutdown_stops_example = shutdown_stops two_clients three_connections one_more (tt, tt) refl
