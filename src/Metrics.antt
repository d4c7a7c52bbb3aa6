-- ===== src/Metrics.antt =====
-- crates/server/src/metrics.rs. The prometheus, axum and tokio crates are parameters; a `static`
-- `OnceLock` is a cell that is passed, and what a call starts or logs is a list of events.
pub mod Boots
mod Examples
use ocypode.Prelude.{
  unwrapped, Bool, true, false, not, Option, none, some, List, [], ◌∷◌, ◌++◌, if◌then◌else◌, Bytes,
  bytes_eq, Result, ok, err, panic, ◌>>=◌,
}

pub data MetricsEvent : Type 0 where
  collector_registered : MetricsEvent
  listening : Bytes → MetricsEvent
  service_spawned : Bytes → MetricsEvent
  unable_to_listen : Bytes → Bytes → MetricsEvent

-- `METRICS_SERVICE_LISTEN_ADDR`, and the events so far.
pub record Metrics : Type 0 where
  pub listen_addr : Option Bytes
  pub events : List MetricsEvent

abbrev pub not_booted : Metrics
not_booted = record { listen_addr = none; events = [] }

-- `get_or_init`: the address in the cell, and the state after it.
unfoldable pub current_listen_addr : Bytes → Metrics → Bytes × Metrics
current_listen_addr listen_addr m = by_cell m.listen_addr
  where
    by_cell : Option Bytes → Bytes × Metrics
    by_cell (some addr) = (addr, m)
    by_cell none = (
      listen_addr,
      record {
        listen_addr = some listen_addr;
        events =
            m.events
            ++ (collector_registered ∷ listening listen_addr ∷ service_spawned listen_addr ∷ []);
      },
    )

abbrev warned : Bytes → Bytes × Metrics → Metrics
warned requested (current, m) =
    if not (bytes_eq requested current)
    then record m { events = m.events ++ (unable_to_listen requested current ∷ []) }
    else m

-- `MetricsManager::boot_metrics_service`
unfoldable pub boot_metrics_service : Bytes → Metrics → Metrics
unfolding current_listen_addr bytes_eq
boot_metrics_service listen_addr m = warned listen_addr (current_listen_addr listen_addr m)

-- How the spawned task ends: `bind` is unwrapped, and an error of `serve` is logged.
pub data TaskEnd (E : Type 0) : Type 0 where
  served : TaskEnd E
  exited_with_error : E → TaskEnd E
  task_panicked : TaskEnd E

module _ {E Listener : Type 0} (bind : Bytes → Result E Listener)
    (serve : Listener → Result E (Unit {0})) where
  abbrev logged : Result E (Unit {0}) → TaskEnd E
  logged (ok _) = served
  logged (err e) = exited_with_error e
  logged panic = task_panicked

  abbrev bound : Result E Listener → TaskEnd E
  bound (ok listener) = logged (serve listener)
  bound (err _) = task_panicked
  bound panic = task_panicked

  unfoldable pub metrics_task : Bytes → TaskEnd E
  metrics_task spawn_addr = bound (bind spawn_addr)

-- What `metrics` uses of prometheus and of axum.
pub record Exporter : Type 1 where
  pub Families : Type 0
  pub Error : Type 0
  pub Response : Type 0
  pub gather : Families
  pub encode : Families → Bytes → Result Error Bytes
  pub format_type : Bytes
  pub response : Bytes → Bytes → Result Error Response

abbrev respond : (X : Exporter) → Option Bytes → Option X.Response
respond X none = none
respond X (some buffer) = unwrapped (X.response X.format_type buffer)

-- `metrics`; `none` is a panic.
unfoldable pub metrics : (X : Exporter) → Option X.Response
metrics X = respond X (unwrapped (X.encode X.gather []))
