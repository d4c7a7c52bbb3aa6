-- ===== src/Grpc.antt =====
-- crates/server/src/grpc.rs. The tonic and tokio crates are parameters, and so is the parsing of a
-- socket address.
mod Examples
use ocypode.Prelude.{
  ◌≡◌, refl, ap, ◌∙◌, ◌↔◌, Option, none, some, expect, Bytes, codes, Result, ok, err, panic, ◌>>=◌,
}
use ocypode.Config.{GrpcConfig, grpc_socket_addr}

-- What `grpc_serve` uses. `health_service` is the service whose reporter was told that the service of
-- this name is serving; `serve` is `serve_with_incoming` on the listener, with that service added.
pub record Tonic : Type 1 where
  pub SocketAddr : Type 0
  pub Listener : Type 0
  pub HealthService : Type 0
  pub Server : Type 0
  pub Error : Type 0
  pub parse : Bytes → Result Error SocketAddr
  pub bind : SocketAddr → Result Error Listener
  pub local_addr : Listener → Result Error SocketAddr
  pub health_service : Bytes → HealthService
  pub serve : HealthService → Listener → Server

-- The branch of `select!` in the spawned task that is ready first.
pub data Ready (E : Type 0) : Type 0 where
  response : Result E (Unit {0}) → Ready E
  cancelled : Ready E

pub data GrpcLog (E : Type 0) : Type 0 where
  server_error : E → GrpcLog E
  shutdown_signal : GrpcLog E

-- What the task logs at its end.
unfoldable pub grpc_task : {E : Type 0} → Ready E → Option (GrpcLog E)
grpc_task (response (ok _)) = none
grpc_task (response (err e)) = some (server_error e)
grpc_task (response panic) = none
grpc_task cancelled = some shutdown_signal

-- `grpc_serve`: the server whose task is spawned, and the address that is returned.
unfoldable pub grpc_serve :
    {F : Type 0} (X : Tonic) → GrpcConfig → Result F (X.Server × X.SocketAddr)
unfolding grpc_socket_addr
grpc_serve X config = do
  addr ← grpc_socket_addr X.parse config
  listener ← expect (X.bind addr)
  listen_addr ← expect (X.local_addr listener)
  ok (X.serve (X.health_service (codes "ocypode-service")) listener, listen_addr)
