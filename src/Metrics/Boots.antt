-- ===== src/Metrics/Boots.antt =====
-- Calls of `MetricsManager::boot_metrics_service` in a row.
use ocypode.Prelude.{
  ◌≡◌, sym, ap, ◌∙◌, inl, inr, some, List, [], ◌∷◌, ◌++◌, append_assoc, append-nil, if◌then◌else◌,
  Bytes, bytes_eq, bytes_eq_refl, Bool-cases,
}
use ocypode.Metrics.{
  MetricsEvent, collector_registered, listening, service_spawned, unable_to_listen, Metrics,
  not_booted, boot_metrics_service,
}

abbrev pub boot_all : List Bytes → Metrics → Metrics
boot_all [] m = m
boot_all (a ∷ rest) m = boot_all rest (boot_metrics_service a m)

-- A warning for each request of another address.
abbrev pub warnings : Bytes → List Bytes → List MetricsEvent
warnings current [] = []
warnings current (a ∷ rest) =
    let later = warnings current rest in
    if bytes_eq a current then later else unable_to_listen a current ∷ later

boot_all-some :
    (current : Bytes) (rest : List Bytes) (events : List MetricsEvent)
    → boot_all rest (record { listen_addr = some current; events = events })
      ≡ record { listen_addr = some current; events = events ++ warnings current rest }
unfolding boot_metrics_service
boot_all-some current [] events =
    ap (λ es. record { listen_addr = some current; events = es }) (sym (append-nil events))
boot_all-some current (a ∷ rest) events = elim (Bool-cases (bytes_eq a current)) [
  | inl same ↦ rw same (boot_all-some current rest events)
  | inr differs ↦ rw differs (
      boot_all-some current rest (events ++ (unable_to_listen a current ∷ []))
      ∙ ap (λ es. record { listen_addr = some current; events = es })
          (append_assoc events (unable_to_listen a current ∷ []) (warnings current rest)))
]

-- However often the service is booted, it is spawned once, at the address of the first call, and
-- each later call for another address only leaves a warning.
pub boot_all-not_booted :
    (first : Bytes) (rest : List Bytes)
    → boot_all (first ∷ rest) not_booted ≡ record {
      listen_addr = some first;
      events =
          (collector_registered ∷ listening first ∷ service_spawned first ∷ [])
          ++ warnings first rest;
    }
unfolding boot_metrics_service
boot_all-not_booted first rest =
    rw (bytes_eq_refl first) (
      boot_all-some first rest
        (collector_registered ∷ listening first ∷ service_spawned first ∷ []))
