-- ===== src/Quic/Start.antt =====
-- The settings of the server that `start` of crates/server/src/quic.rs starts.
use ocypode.Prelude.{
  ◌≡◌, refl, ℕ, Option, none, some, sym, ap, ◌∙◌, Bool, true, false, Bytes, Result, ok, err, panic,
  ◌>>=◌, expect, bound_ok, if◌then◌else◌,
}
use ocypode.Config.{
  QuicConfig, ServerConfig, quic_socket_addr, cert_file_path, key_file_path, tls_paths_outcome,
  PathError,
}
use ocypode.Quic.Settings.{IoSettings, TlsSettings, ServerSettings, Settings}
use ocypode.Quic.{S2n, boxed, boxed_path, build_io, build_limits, build_tls, build_server, start}

module _ (X : S2n) {P : Type 0} where
  boxed_ok : {A : Type 0} (r : Result X.Error A) {a : A} → boxed X {P = P} r ≡ ok a → r ≡ ok a
  boxed_ok (ok a) e = cc
  boxed_ok (err x) e = absurd cc
  boxed_ok panic e = absurd cc

  boxed_path_ok : (r : Result (PathError P) Bytes) {a : Bytes} → boxed_path X r ≡ ok a → r ≡ ok a
  boxed_path_ok (ok a) e = cc
  boxed_path_ok (err x) e = absurd cc
  boxed_path_ok panic e = absurd cc

expect_ok {κ} :
    {E F : Type 0} {A : Type κ} (r : Result E A) {a : A} → expect {F = F} r ≡ ok a → r ≡ ok a
expect_ok (ok a) e = cc
expect_ok (err x) e = absurd cc
expect_ok panic e = absurd cc

module _ {X : S2n} (V : Settings X) where
  build_io_sets :
      (quic : QuicConfig) (listen : X.SocketAddr) (io : X.Io)
      → build_io X quic listen ≡ ok io
      → V.io_of io
        ≡ record { receive_address = some listen; gso = quic.enable_gso; gro = quic.enable_gro }
  unfolding build_io
  build_io_sets quic listen io e =
      let (b1, e1, r1) = bound_ok (X.with_receive_address listen X.io_builder) e in
      let (b2, e2, r2) = bound_ok (X.with_gso quic.enable_gso b1) r1 in
      let (b3, e3, r3) = bound_ok (X.with_gro quic.enable_gro b2) r2 in
      V.io_built b3 io r3
      ∙ V.gro_set quic.enable_gro b2 b3 e3
      ∙ ap {A = IoSettings X.SocketAddr} (λ o. record o { gro = quic.enable_gro })
          (V.gso_set quic.enable_gso b1 b2 e2)
      ∙ ap {A = IoSettings X.SocketAddr}
          (λ o. record o { gso = quic.enable_gso; gro = quic.enable_gro })
          (V.receive_address_set listen X.io_builder b1 e1)

  build_limits_sets :
      (limit : Option ℕ) (limits : X.Limits)
      → build_limits X limit ≡ ok limits
      → V.limit_of limits ≡ limit
  unfolding build_limits
  build_limits_sets none limits e =
      let same : X.default_limits ≡ limits = cc e in ap V.limit_of (sym same) ∙ V.no_limit
  build_limits_sets (some n) limits e =
      let (b, e1, r) = bound_ok (X.with_inflight_handshake_limit n X.limits_builder) e in
      V.limits_built b limits r ∙ V.limit_set n X.limits_builder b e1

  build_server_sets :
      (tls : X.Tls) (io : X.Io) (limits : X.Limits) (server : X.Server)
      → build_server X tls io limits ≡ ok server
      → V.server_of server ≡ record { tls = some tls; io = some io; limits = some limits }
  unfolding build_server
  build_server_sets tls io limits server e =
      let (b1, e1, r1) = bound_ok (X.with_tls tls X.server_builder) e in
      let (b2, e2, r2) = bound_ok (X.with_io io b1) r1 in
      let (b3, e3, r3) = bound_ok (X.with_endpoint_limits limits b2) r2 in
      V.server_started b3 server r3
      ∙ V.limits_set limits b2 b3 e3
      ∙ ap {A = ServerSettings X} (λ o. record o { limits = some limits }) (V.io_set io b1 b2 e2)
      ∙ ap {A = ServerSettings X} (λ o. record o { io = some io; limits = some limits })
          (V.tls_set tls X.server_builder b1 e1)

module _ {X : S2n} (V : Settings X) {P L : Type 0} (parse : Bytes → Result X.Error X.SocketAddr)
    (try_exists : Bytes → Result P Bool) (config : ServerConfig L) where
  -- The builder that has the certificate, and what is built from it.
  tls_built_sets :
      (b : X.TlsBuilder) (tls : X.Tls) (verify : Bool)
      → V.tls_of_builder b ≡ record {
        certificate = some (config.quic.tls.cert_file_path, config.quic.tls.key_file_path);
        client_authentication = false;
      }
      → (if verify
          then (boxed X {P = P} (X.with_client_authentication b) >>= λ c. boxed X (X.build_tls c))
          else boxed X (X.build_tls b))
        ≡ ok tls
      → V.tls_of tls ≡ record {
        certificate = some (config.quic.tls.cert_file_path, config.quic.tls.key_file_path);
        client_authentication = verify;
      }
  tls_built_sets b tls true h e =
      let (c, e1, e2) = bound_ok (boxed X (X.with_client_authentication b)) e in
      V.tls_built c tls (boxed_ok X (X.build_tls c) e2)
      ∙ V.authentication_set b c (boxed_ok X (X.with_client_authentication b) e1)
      ∙ ap {A = TlsSettings} (λ o. record o { client_authentication = true }) h
  tls_built_sets b tls false h e = V.tls_built b tls (boxed_ok X (X.build_tls b) e) ∙ h

  build_tls_sets :
      (tls : X.Tls)
      → build_tls X try_exists config ≡ ok tls
      → (try_exists config.quic.tls.cert_file_path ≡ ok true)
        × (try_exists config.quic.tls.key_file_path ≡ ok true)
        × (V.tls_of tls ≡ record {
          certificate = some (config.quic.tls.cert_file_path, config.quic.tls.key_file_path);
          client_authentication = config.tls_verify;
        })
  unfolding build_tls
  build_tls_sets tls e =
      let (cert, e1, r1) = bound_ok (boxed_path X (cert_file_path try_exists config.quic.tls)) e in
      let (key, e2, r2) = bound_ok (boxed_path X (key_file_path try_exists config.quic.tls)) r1 in
      let (b, e3, r3) = bound_ok (boxed X (X.with_certificate cert key X.tls_builder)) r2 in
      let (c_there, c_path) =
        ((tls_paths_outcome try_exists config.quic.tls cert).0).0
          (boxed_path_ok X (cert_file_path try_exists config.quic.tls) e1) in
      let (k_there, k_path) =
        ((tls_paths_outcome try_exists config.quic.tls key).1).0
          (boxed_path_ok X (key_file_path try_exists config.quic.tls) e2) in
      (
        c_there,
        k_there,
        tls_built_sets b tls config.tls_verify
            (V.certificate_set cert key X.tls_builder b
                (boxed_ok X (X.with_certificate cert key X.tls_builder) e3)
              ∙ rw (c_path, k_path, V.no_authentication) refl)
            r3,
      )

  -- If `start` returns an address, then it is that of the server that the loop gets. The files of the
  -- certificate and the key exist, and the server runs with the settings of the configuration: it
  -- receives on the listen address, parsed, with GSO and GRO as configured; its limit of handshakes is
  -- the configured one, or none; its certificate and key are the configured ones; and it demands a
  -- client certificate exactly if `tls_verify` is set. Of s2n-quic, each call of a builder sets its
  -- own setting and leaves the others.
  pub start_ok :
      (addr : X.SocketAddr) (server : X.Server)
      → start X parse try_exists config ≡ ok (addr, server)
      → (X.local_addr server ≡ ok addr)
        × (try_exists config.quic.tls.cert_file_path ≡ ok true)
        × (try_exists config.quic.tls.key_file_path ≡ ok true)
        × (listen : X.SocketAddr) × (tls : X.Tls) × (io : X.Io) × (limits : X.Limits) × (parse
              config.quic.listen_addr
            ≡ ok listen)
        × (V.server_of server ≡ record { tls = some tls; io = some io; limits = some limits })
        × (V.io_of io ≡ record {
          receive_address = some listen;
          gso = config.quic.enable_gso;
          gro = config.quic.enable_gro;
        })
        × (V.limit_of limits ≡ config.quic.endpoint_limits)
        × (V.tls_of tls ≡ record {
          certificate = some (config.quic.tls.cert_file_path, config.quic.tls.key_file_path);
          client_authentication = config.tls_verify;
        })
  unfolding start quic_socket_addr
  start_ok addr server e =
      let (listen, e1, r1) = bound_ok (quic_socket_addr parse config.quic) e in
      let (io, e2, r2) = bound_ok (boxed X (build_io X config.quic listen)) r1 in
      let (limits, e3, r3) = bound_ok (boxed X (build_limits X config.quic.endpoint_limits)) r2 in
      let (tls, e4, r4) = bound_ok (build_tls X try_exists config) r3 in
      let (server', e5, r5) = bound_ok (boxed X (build_server X tls io limits)) r4 in
      let (local, e6, r6) = bound_ok (boxed X (X.local_addr server')) r5 in
      let same_addr : local ≡ addr = cc r6 in
      let same_server : server' ≡ server = cc r6 in
      let (cert_there, key_there, tls_set) = build_tls_sets tls e4 in
      (
        ap X.local_addr (sym same_server) ∙ boxed_ok X (X.local_addr server') e6 ∙ ap ok same_addr,
        cert_there,
        key_there,
        listen,
        tls,
        io,
        limits,
        expect_ok (parse config.quic.listen_addr) e1,
        build_server_sets V tls io limits server
            (boxed_ok X (build_server X tls io limits) e5 ∙ ap ok same_server),
        build_io_sets V config.quic listen io (boxed_ok X (build_io X config.quic listen) e2),
        build_limits_sets V config.quic.endpoint_limits limits
            (boxed_ok X (build_limits X config.quic.endpoint_limits) e3),
        tls_set,
      )
