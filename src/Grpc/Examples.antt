-- ===== src/Grpc/Examples.antt =====
-- `grpc_serve` of crates/server/src/grpc.rs on an address that does not parse, and its task.
use ocypode.Prelude.{◌≡◌, refl, some, [], Bytes, Result, ok, err, panic}
use ocypode.Config.{default_grpc}
use ocypode.Grpc.{Tonic, grpc_task, grpc_serve, response, cancelled, shutdown_signal, server_error}

abbrev tonic : Result (Unit {0}) Bytes → Tonic
tonic parsed = record {
  SocketAddr = Bytes;
  Listener = Bytes;
  HealthService = Bytes;
  Server = Bytes;
  Error = Unit {0};
  parse = λ b. parsed;
  bind = λ a. ok a;
  local_addr = λ l. ok l;
  health_service = λ b. b;
  serve = λ h l. l;
}

unparsed : grpc_serve {F = ⊥} (tonic (err tt)) default_grpc ≡ panic
unfolding grpc_serve
unparsed = refl

served : grpc_serve {F = ⊥} (tonic (ok [])) default_grpc ≡ ok ([], [])
unfolding grpc_serve
served = refl

shut_down :
    (grpc_task {E = Unit {0}} cancelled ≡ some shutdown_signal)
    × (grpc_task (response (err tt)) ≡ some (server_error tt))
unfolding grpc_task
shut_down = (refl, refl)
