-- ===== src/Identity/Examples.antt =====
-- The identifiers of the first connections of crates/server/src/client.rs.
use ocypode.Prelude.{◌≡◌, refl}
use ocypode.Identity.{issued}

third : issued 2 ≡ record { value = 3 }
unfolding issued
third = refl
