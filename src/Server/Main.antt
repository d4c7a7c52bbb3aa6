-- ===== src/Server/Main.antt =====
-- What `main` of crates/server/src/main.rs starts with the configuration it has.
use ocypode.Prelude.{◌≡◌, refl, ◌↔◌, inl, false, none, some, [], ◌∷◌, ◌++◌, ok}
use ocypode.Config.{new_config, metrics_enabled}
use ocypode.Logger.{fmt_layer}
use ocypode.Grpc.{Tonic, grpc_serve}
use ocypode.Quic
use ocypode.Quic.{S2n}
use ocypode.Server.{grpc_service, quic_accept_loop, World, Runtime, main}
use ocypode.Server.Serve.{ServesUp, serve_ok_iff}

module _ {L : Type 0} {G : Tonic} {Q : S2n} {P : Type 0} (X : Runtime L Q P) where
  -- Each service comes up, and then the signal.
  abbrev ComesUp : World L G Q → World L G Q → Type 0
  ComesUp w w' =
      (w.tracing.global ≡ none)
      × (g : G.Server × G.SocketAddr) × (grpc_serve {F = ⊥} G (new_config X.info_level).grpc ≡ ok g)
      × (q : Q.SocketAddr × Q.Server) × (Quic.start Q X.parse X.try_exists (new_config X.info_level)
          ≡ ok q)
      × (X.ctrl_c ≡ ok tt)
      × (w' ≡ record w {
        tracing = record w.tracing { global = some (fmt_layer false X.info_level ∷ []) };
        tasks = (w.tasks ++ (grpc_service g.0 ∷ [])) ++ (quic_accept_loop q.1 ∷ []);
        cancelled = false;
      })

  comes_up : (w w' : World L G Q) → ServesUp X (new_config X.info_level) w w' → ComesUp w w'
  unfolding new_config metrics_enabled
  comes_up w w' ((unset, console), g, served, q, started, signal, left) =
      (unset, g, served, q, started, signal, left)

  serves_up : (w w' : World L G Q) → ComesUp w w' → ServesUp X (new_config X.info_level) w w'
  unfolding new_config metrics_enabled
  serves_up w w' (unset, g, served, q, started, signal, left) =
      ((unset, inl refl), g, served, q, started, signal, left)

  -- `main` returns without an error, leaving a given world, exactly if no subscriber was set, the gRPC
  -- service and then the QUIC endpoint come up and the interrupt arrives, and the world is this: the
  -- subscriber is set, the two tasks are spawned in this order, no metrics service is booted, and the
  -- shutdown token, which the two tasks wait for, is not cancelled.
  main_ok_iff : (w w' : World L G Q) → (main X w ≡ (ok tt, w')) ↔ ComesUp w w'
  unfolding main
  main_ok_iff w w' =
      let (there, back) = serve_ok_iff X (new_config X.info_level) w w' in
      (λ e. comes_up w w' (there e), λ up. back (serves_up w w' up))
