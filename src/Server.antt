-- ===== src/Server.antt =====
-- crates/server/src/main.rs: `main` over the services of the other modules. The runtime and the
-- crates below the services are parameters.
pub mod Main
pub mod Serve
mod Examples
use ocypode.Prelude.{
  arith, ◌≡◌, refl, sym, ap, ◌∙◌, ◌↔◌, inl, inr, Bool, true, false, Option, none, some, List, [],
  ◌∷◌, ◌++◌, if◌then◌else◌, Bytes, Result, ok, err, panic, ◌>>=◌,
}
use ocypode.Config.{ServerConfig, new_config, metrics_enabled}
use ocypode.Logger.{Tracing, init_ocypode_logger}
use ocypode.Metrics.{Metrics, boot_metrics_service}
use ocypode.Grpc.{Tonic, grpc_serve}
use ocypode.Quic
use ocypode.Quic.{S2n, StartError}

-- The tasks that `main` has its services spawn, with what they own. The metrics service has its own
-- record.
pub data Task (G : Tonic) (Q : S2n) : Type 0 where
  grpc_service : G.Server → Task G Q
  quic_accept_loop : Q.Server → Task G Q

pub record World (L : Type 0) (G : Tonic) (Q : S2n) : Type 0 where
  pub tracing : Tracing L
  pub metrics : Metrics
  pub tasks : List (Task G Q)
  pub cancelled : Bool

pub data MainError (Q : S2n) (P : Type 0) : Type 0 where
  start_failed : StartError Q P → MainError Q P
  signal_failed : P → MainError Q P

-- What `main` uses besides the services; `P` is the type of `std::io::Error`.
pub record Runtime (L : Type 0) (Q : S2n) (P : Type 0) : Type 0 where
  pub info_level : L
  pub trace_level : L
  pub thread_spawns : Bool
  pub parse : Bytes → Result Q.Error Q.SocketAddr
  pub try_exists : Bytes → Result P Bool
  pub ctrl_c : Result P (Unit {0})

abbrev pub after_signal :
    {Q : S2n} {P : Type 0} → Result P (Unit {0}) → Result (MainError Q P) (Unit {0})
after_signal (ok _) = ok tt
after_signal (err e) = err (signal_failed e)
after_signal panic = panic

module _ {L : Type 0} {G : Tonic} {Q : S2n} {P : Type 0} (X : Runtime L Q P) where
  abbrev pub after_quic :
      World L G Q
      → Result (StartError Q P) (Q.SocketAddr × Q.Server)
      → Result (MainError Q P) (Unit {0}) × World L G Q
  after_quic w (ok (addr, server)) =
      (after_signal X.ctrl_c, record w { tasks = w.tasks ++ (quic_accept_loop server ∷ []) })
  after_quic w (err e) = (err (start_failed e), w)
  after_quic w panic = (panic, w)

  abbrev pub with_metrics : ServerConfig L → World L G Q → World L G Q
  with_metrics config w =
      if metrics_enabled config.metrics.metrics_level
      then record w { metrics = boot_metrics_service config.metrics.listen_addr w.metrics }
      else w

  abbrev pub after_grpc :
      ServerConfig L
      → World L G Q
      → Result ⊥ (G.Server × G.SocketAddr)
      → Result (MainError Q P) (Unit {0}) × World L G Q
  after_grpc config w (ok (server, addr)) =
      after_quic (with_metrics config (record w { tasks = w.tasks ++ (grpc_service server ∷ []) }))
        (Quic.start Q X.parse X.try_exists config)
  after_grpc config w (err e) = absurd e
  after_grpc config w panic = (panic, w)

  abbrev pub after_logger :
      ServerConfig L
      → World L G Q
      → Result ⊥ (Unit {0}) × Tracing L
      → Result (MainError Q P) (Unit {0}) × World L G Q
  after_logger config w (ok _, t) =
      after_grpc config (record w { tracing = t; cancelled = false }) (grpc_serve G config.grpc)
  after_logger config w (err e, t) = absurd e
  after_logger config w (panic, t) = (panic, record w { tracing = t })

  -- `main` behind `ServerConfig::new`.
  unfoldable pub serve :
      ServerConfig L → World L G Q → Result (MainError Q P) (Unit {0}) × World L G Q
  unfolding init_ocypode_logger grpc_serve metrics_enabled boot_metrics_service Quic.start
  serve config w =
      after_logger config w
        (init_ocypode_logger X.trace_level X.thread_spawns config.logger w.tracing)

  unfoldable pub main : World L G Q → Result (MainError Q P) (Unit {0}) × World L G Q
  unfolding serve new_config
  main w = serve (new_config X.info_level) w
