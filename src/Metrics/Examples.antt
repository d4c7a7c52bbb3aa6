-- ===== src/Metrics/Examples.antt =====
-- `boot_metrics_service` of crates/server/src/metrics.rs, called three times.
use ocypode.Prelude.{◌≡◌, refl, [], ◌∷◌, ◌++◌, some, Bytes, codes, bytes_eq}
use ocypode.Metrics.{collector_registered, listening, service_spawned, unable_to_listen, not_booted}
use ocypode.Metrics.Boots.{boot_all, warnings, boot_all-not_booted}

abbrev first_addr : Bytes
first_addr = codes "127.0.0.1:9090"

abbrev other_addr : Bytes
other_addr = codes "127.0.0.1:9191"

other_is_refused :
    warnings first_addr (first_addr ∷ other_addr ∷ []) ≡ unable_to_listen other_addr first_addr ∷ []
unfolding bytes_eq
other_is_refused = refl

boot_all-not_booted_example :
    boot_all (first_addr ∷ first_addr ∷ other_addr ∷ []) not_booted ≡ record {
      listen_addr = some first_addr;
      events =
          (collector_registered ∷ listening first_addr ∷ service_spawned first_addr ∷ [])
          ++ warnings first_addr (first_addr ∷ other_addr ∷ []);
    }
boot_all-not_booted_example = boot_all-not_booted first_addr (first_addr ∷ other_addr ∷ [])
