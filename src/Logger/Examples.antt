-- ===== src/Logger/Examples.antt =====
-- `init_ocypode_logger` of crates/server/src/logger.rs, with numbers for the levels, and the default
-- configuration of crates/server/src/config.rs.
use ocypode.Prelude.{ℕ, ◌≡◌, refl, true, false, none, some, [], ◌∷◌, codes, ok}
use ocypode.Config.{LoggerConfig, new_logger}
use ocypode.Logger.{fmt_layer, Tracing, init_ocypode_logger}

abbrev config : LoggerConfig ℕ
unfolding new_logger
config = new_logger 3 (codes "ocypode")

abbrev unset : Tracing ℕ
unset = record { global = none; threads = [] }

set_by_default :
    init_ocypode_logger 5 true config unset
    ≡ (ok tt, record { global = some (fmt_layer false 3 ∷ []); threads = [] })
unfolding init_ocypode_logger config
set_by_default = refl
