-- ===== src/Logger.antt =====
-- crates/server/src/logger.rs. The tracing and console-subscriber crates are parameters: a layer is
-- what it is built from, and the global subscriber is a cell that is set once.
mod Examples
use ocypode.Prelude.{
  Bool-cases, arith, ◌≡◌, refl, ◌↔◌, ◌⊎◌, inl, inr, Bool, true, false, not, Option, none, some,
  List, [], ◌∷◌, ◌++◌, if◌then◌else◌, Bytes, codes, Result, ok, err, panic, ◌>>=◌,
}
use ocypode.Config.{LoggerConfig}

-- A layer with its filter: that of the log, and that of the console.
pub data Layer (L : Type 0) : Type 0 where
  fmt_layer : Bool → L → Layer L
  console_layer : List (Bytes × L) → Layer L

-- The global subscriber, if one is set, and the names of the threads that were spawned.
pub record Tracing (L : Type 0) : Type 0 where
  pub global : Option (List (Layer L))
  pub threads : List Bytes

module _ {L : Type 0} (trace_level : L) (thread_spawns : Bool) where
  -- The thread of the console, whose failure to spawn is a panic.
  abbrev spawn_console : Bytes → Tracing L → Result ⊥ (Unit {0}) × Tracing L
  spawn_console name t =
      if thread_spawns
      then (ok tt, record t { threads = t.threads ++ ((name ++ codes " tokio-console") ∷ []) })
      else (panic, t)

  abbrev set_global_default : List (Layer L) → Tracing L → Result ⊥ (Unit {0}) × Tracing L
  set_global_default layers t = by_cell t.global
    where
      by_cell : Option (List (Layer L)) → Result ⊥ (Unit {0}) × Tracing L
      by_cell none = (ok tt, record t { global = some layers })
      by_cell (some _) = (panic, t)

  abbrev and_set :
      List (Layer L) → Result ⊥ (Unit {0}) × Tracing L → Result ⊥ (Unit {0}) × Tracing L
  and_set layers (ok _, t) = set_global_default layers t
  and_set layers (err e, t) = absurd e
  and_set layers (panic, t) = (panic, t)

  -- `init_ocypode_logger`
  unfoldable pub init_ocypode_logger : LoggerConfig L → Tracing L → Result ⊥ (Unit {0}) × Tracing L
  init_ocypode_logger config t =
      let fmt : Layer L = fmt_layer config.with_thread_name config.default_level in
      if config.enable_tokio_console
      then and_set
          (fmt
            ∷ console_layer ((codes "tokio", trace_level) ∷ (codes "runtime", trace_level) ∷ [])
            ∷ [])
          (spawn_console config.name t)
      else set_global_default (fmt ∷ []) t

  -- The layers that a configuration asks for.
  abbrev pub layers_of : LoggerConfig L → List (Layer L)
  layers_of config =
      fmt_layer config.with_thread_name config.default_level
      ∷ (if config.enable_tokio_console
          then console_layer ((codes "tokio", trace_level) ∷ (codes "runtime", trace_level) ∷ [])
            ∷ []
          else [])

  -- A call comes to its end, with the subscriber of the configuration set, if none was set and the
  -- console is off or its thread spawns; else one was set or the thread does not spawn, and the call
  -- panics and leaves the subscriber as it was.
  pub init_ocypode_logger_outcome :
      (config : LoggerConfig L) (t : Tracing L)
      → (((init_ocypode_logger config t).0 ≡ ok tt)
          × ((init_ocypode_logger config t).1.global ≡ some (layers_of config))
          × (t.global ≡ none)
          × ((config.enable_tokio_console ≡ false) ⊎ (thread_spawns ≡ true)))
        ⊎ (((init_ocypode_logger config t).0 ≡ panic)
            × ((init_ocypode_logger config t).1.global ≡ t.global)
            × (¬ (t.global ≡ none)
                ⊎ ((config.enable_tokio_console ≡ true) × (thread_spawns ≡ false))))
  unfolding init_ocypode_logger
  init_ocypode_logger_outcome config t = elim (Bool-cases config.enable_tokio_console) [
    | inl on ↦ elim (Bool-cases thread_spawns) [ inl up ↦ ground arith | inr down ↦ ground arith ]
    | inr off ↦ ground arith
  ]
