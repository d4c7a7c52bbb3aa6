-- ===== src/Config/Examples.antt =====
-- The path checks of crates/server/src/config.rs where only the certificate exists.
use ocypode.Prelude.{◌≡◌, refl, ◌↔◌, Bool, true, Bytes, codes, bytes_eq, Result, ok, err}
use ocypode.Config.{default_tls, cert_file_path, key_file_path, not_found, tls_paths_outcome}

abbrev only_certificate : Bytes → Result (Unit {0}) Bool
only_certificate p = ok (bytes_eq p (codes "crates/certs/server.crt"))

missing_key :
    key_file_path only_certificate default_tls
    ≡ err (not_found (codes "Key file not found at: crates/certs/key.pem"))
unfolding key_file_path default_tls bytes_eq
missing_key = refl

tls_paths_outcome_example :
    ((cert_file_path only_certificate default_tls ≡ ok (codes "crates/certs/server.crt")) ↔ (
      (only_certificate default_tls.cert_file_path ≡ ok true)
      × (codes "crates/certs/server.crt" ≡ default_tls.cert_file_path)))
    × ((key_file_path only_certificate default_tls ≡ ok (codes "crates/certs/server.crt")) ↔ (
        (only_certificate default_tls.key_file_path ≡ ok true)
        × (codes "crates/certs/server.crt" ≡ default_tls.key_file_path)))
tls_paths_outcome_example =
    tls_paths_outcome only_certificate default_tls (codes "crates/certs/server.crt")
