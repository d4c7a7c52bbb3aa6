-- ===== src/Server/Serve.antt =====
-- `main` of crates/server/src/main.rs behind `ServerConfig::new`, for any configuration.
use ocypode.Prelude.{
  ◌≡◌, refl, sym, ap, ◌∙◌, ◌↔◌, ◌⊎◌, inl, inr, true, false, Bool-cases, none, some, [], ◌∷◌, ◌++◌,
  codes, Bytes, if◌then◌else◌, Result, ok, err, panic,
}
use ocypode.Config.{
  ServerConfig, LoggerConfig, MetricLevel, disabled, critical, info, debug, metrics_enabled,
}
use ocypode.Logger.{Tracing, layers_of, init_ocypode_logger, init_ocypode_logger_outcome}
use ocypode.Metrics.{Metrics, boot_metrics_service}
use ocypode.Grpc.{Tonic, grpc_serve}
use ocypode.Quic
use ocypode.Quic.{S2n, StartError}
use ocypode.Server.{
  grpc_service, quic_accept_loop, World, Runtime, start_failed, after_signal, after_quic,
  with_metrics, after_grpc, after_logger, serve,
}

module _ {L : Type 0} {Q : S2n} {P : Type 0} (X : Runtime L Q P) where
  -- The logger has nothing in its way: no subscriber is set, and the console has its thread.
  abbrev pub CanLog : LoggerConfig L → Tracing L → Type 0
  CanLog config t =
      (t.global ≡ none) × ((config.enable_tokio_console ≡ false) ⊎ (X.thread_spawns ≡ true))

  abbrev pub traced : LoggerConfig L → Tracing L → Tracing L
  traced config t = record {
    global = some (layers_of X.trace_level X.thread_spawns config);
    threads =
        if config.enable_tokio_console
        then t.threads ++ ((config.name ++ codes " tokio-console") ∷ [])
        else t.threads;
  }

  pub can_log :
      (config : LoggerConfig L) (t : Tracing L)
      → CanLog config t
      → init_ocypode_logger X.trace_level X.thread_spawns config t ≡ (ok tt, traced config t)
  unfolding init_ocypode_logger
  can_log config t (unset, console) = elim (Bool-cases config.enable_tokio_console) [
    | inl on ↦ elim console [
      | inl off ↦ absurd (let f : true ≡ false = sym on ∙ off in cc)
      | inr up ↦ rw (unset, on, up) refl
    ]
    | inr off ↦ rw (unset, off) refl
  ]

  cannot_log :
      (config : LoggerConfig L) (t : Tracing L)
      → CanLog config t ⊎ ((init_ocypode_logger X.trace_level X.thread_spawns config t).0 ≡ panic)
  cannot_log config t = elim (init_ocypode_logger_outcome X.trace_level X.thread_spawns config t) [
    | inl (through, set, unset, console) ↦ inl (unset, console)
    | inr (panics, _, _) ↦ inr panics
  ]

after_signal_ok :
    {Q : S2n} {P : Type 0} (r : Result P (Unit {0})) → after_signal {Q = Q} r ≡ ok tt → r ≡ ok tt
after_signal_ok (ok u) e = refl
after_signal_ok (err x) e = absurd cc
after_signal_ok panic e = absurd cc

module _ {L : Type 0} {G : Tonic} {Q : S2n} {P : Type 0} (X : Runtime L Q P) where
  after_quic_ok :
      (w w' : World L G Q) (r : Result (StartError Q P) (Q.SocketAddr × Q.Server))
      → after_quic X w r ≡ (ok tt, w')
      → (q : Q.SocketAddr × Q.Server) × (r ≡ ok q)
        × (X.ctrl_c ≡ ok tt)
        × (w' ≡ record w { tasks = w.tasks ++ (quic_accept_loop q.1 ∷ []) })
  after_quic_ok w w' (ok q) e =
      (q, refl, after_signal_ok {Q = Q} X.ctrl_c (ap (λ o. o.0) e), sym (ap (λ o. o.1) e))
  after_quic_ok w w' (err x) e =
      absurd (let f : err (start_failed x) ≡ ok tt = ap (λ o. o.0) e in cc)
  after_quic_ok w w' panic e = absurd (let f : panic ≡ ok tt = ap (λ o. o.0) e in cc)

-- The metrics service is booted, unless the level is `Disabled`.
abbrev pub booted_at : MetricLevel → Bytes → Metrics → Metrics
booted_at disabled addr m = m
booted_at critical addr m = boot_metrics_service addr m
booted_at info addr m = boot_metrics_service addr m
booted_at debug addr m = boot_metrics_service addr m

abbrev pub booted : {L : Type 0} → ServerConfig L → Metrics → Metrics
booted config m = booted_at config.metrics.metrics_level config.metrics.listen_addr m

module _ {L : Type 0} {G : Tonic} {Q : S2n} {P : Type 0} (X : Runtime L Q P)
    (config : ServerConfig L) where
  -- Each service of a configuration comes up, and then the signal.
  abbrev pub ServesUp : World L G Q → World L G Q → Type 0
  ServesUp w w' =
      CanLog X config.logger w.tracing
      × (g : G.Server × G.SocketAddr) × (grpc_serve {F = ⊥} G config.grpc ≡ ok g)
      × (q : Q.SocketAddr × Q.Server) × (Quic.start Q X.parse X.try_exists config ≡ ok q)
      × (X.ctrl_c ≡ ok tt)
      × (w' ≡ record {
        tracing = traced X config.logger w.tracing;
        metrics = booted config w.metrics;
        tasks = (w.tasks ++ (grpc_service g.0 ∷ [])) ++ (quic_accept_loop q.1 ∷ []);
        cancelled = false;
      })

  with_metrics_lem :
      (w : World L G Q) → with_metrics X config w ≡ record w { metrics = booted config w.metrics }
  unfolding metrics_enabled
  with_metrics_lem w = by_level config.metrics.metrics_level refl
    where
      by_level :
          (level : MetricLevel)
          → config.metrics.metrics_level ≡ level
          → with_metrics X config w ≡ record w { metrics = booted config w.metrics }
      by_level disabled e = rw e refl
      by_level critical e = rw e refl
      by_level info e = rw e refl
      by_level debug e = rw e refl

  -- The world behind the logger.
  abbrev logging : World L G Q → World L G Q
  logging w = record w { tracing = traced X config.logger w.tracing; cancelled = false }

  serve-CanLog :
      (w : World L G Q)
      → CanLog X config.logger w.tracing
      → serve X config w ≡ after_grpc X config (logging w) (grpc_serve G config.grpc)
  unfolding serve
  serve-CanLog w h = ap (after_logger X config w) (can_log X config.logger w.tracing h)

  after_panic :
      (w : World L G Q) (r : Result ⊥ (Unit {0}) × Tracing L)
      → r.0 ≡ panic
      → (after_logger X config w r).0 ≡ panic
  after_panic w (ok _, t) e = absurd cc
  after_panic w (err x, t) e = absurd x
  after_panic w (panic, t) e = refl

  after_grpc_ok :
      (w w' : World L G Q) (r : Result ⊥ (G.Server × G.SocketAddr))
      → after_grpc X config w r ≡ (ok tt, w')
      → (g : G.Server × G.SocketAddr) × (r ≡ ok g)
        × (q : Q.SocketAddr × Q.Server) × (Quic.start Q X.parse X.try_exists config ≡ ok q)
        × (X.ctrl_c ≡ ok tt)
        × (w' ≡ record w {
          metrics = booted config w.metrics;
          tasks = (w.tasks ++ (grpc_service g.0 ∷ [])) ++ (quic_accept_loop q.1 ∷ []);
        })
  after_grpc_ok w w' (ok g) e =
      let spawned : World L G Q = record w { tasks = w.tasks ++ (grpc_service g.0 ∷ []) } in
      let quic : Result (StartError Q P) (Q.SocketAddr × Q.Server) =
        Quic.start Q X.parse X.try_exists config in
      let (q, started, signal, left) =
        after_quic_ok X (record spawned { metrics = booted config w.metrics }) w' quic
          (ap (λ v. after_quic X v quic) (sym (with_metrics_lem spawned)) ∙ e) in
      (g, refl, q, started, signal, left)
  after_grpc_ok w w' (err x) e = absurd x
  after_grpc_ok w w' panic e = absurd (let f : panic ≡ ok tt = ap (λ o. o.0) e in cc)

  serve_ok : (w w' : World L G Q) → serve X config w ≡ (ok tt, w') → ServesUp w w'
  unfolding serve
  serve_ok w w' e = elim (cannot_log X config.logger w.tracing) [
    | inl h ↦
        let (g, served, q, started, signal, left) =
          after_grpc_ok (logging w) w' (grpc_serve G config.grpc) (sym (serve-CanLog w h) ∙ e) in
        (h, g, served, q, started, signal, left)
    | inr p ↦ absurd (
        let f : panic ≡ ok tt =
          sym (
            after_panic w
              (init_ocypode_logger X.trace_level X.thread_spawns config.logger w.tracing) p)
          ∙ ap (λ o. o.0) e in
        cc)
  ]

  ok_serve : (w w' : World L G Q) → ServesUp w w' → serve X config w ≡ (ok tt, w')
  ok_serve w w' (h, g, served, q, started, signal, left) =
      let spawned : World L G Q = record (logging w) {
        tasks = w.tasks ++ (grpc_service g.0 ∷ []);
      } in
      let measured : World L G Q = record spawned { metrics = booted config w.metrics } in
      serve-CanLog w h
      ∙ ap (after_grpc X config (logging w)) served
      ∙ ap (λ v. after_quic X v (Quic.start Q X.parse X.try_exists config))
          (with_metrics_lem spawned)
      ∙ ap (after_quic X measured) started
      ∙ ap
          (λ c. (
            after_signal c,
            record measured { tasks = measured.tasks ++ (quic_accept_loop q.1 ∷ []) },
          ))
          signal
      ∙ ap (λ v. (ok tt, v)) (sym left)

  -- With any configuration, `main` behind `ServerConfig::new` returns without an error, leaving a
  -- given world, exactly if the logger can be set up, the gRPC service and then the QUIC endpoint come
  -- up and the interrupt arrives, and the world is this: the subscriber is set, the thread of the
  -- console is named if the console is on, the metrics service is booted unless their level is `Disabled`, the two
  -- tasks are spawned in this order, and the shutdown token, for which they wait, is not cancelled.
  pub serve_ok_iff : (w w' : World L G Q) → (serve X config w ≡ (ok tt, w')) ↔ ServesUp w w'
  serve_ok_iff w w' = (serve_ok w w', ok_serve w w')
