-- ===== src/Client/UnitTests/Passes.antt =====
-- The unit tests of crates/server/src/client.rs and crates/server/src/handshake.rs pass.
use ocypode.Prelude.{◌≡◌, refl, true, some, [], ◌∷◌, bytes_eq, ℕ, false}
use ocypode.Identity.{first_client_id}
use ocypode.Parser.{Crates, protocol_version}
use ocypode.Parser.Code.{server_info, client_connect, connect_codec, info_codec}
use ocypode.Parser.Framing.{client_encode, server_encode, client_decode, server_decode}
use ocypode.Parser.Fixtures.{single, nothing, crates_of, framed_read}
use ocypode.Config.{ServerConfig, new_config}
use ocypode.Client.{on_connect, no_auth_authenticator, run}
use ocypode.Client.Start.{new_client}
use ocypode.Client.Fixtures.{client_id, mpsc, wiring}
use ocypode.Client.UnitTests.{
  on_connect_transitions_to_completed_with_no_auth, client_run_sends_info_and_accepts_connect,
}

on_connect_passes : on_connect_transitions_to_completed_with_no_auth client_id ≡ some true
unfolding on_connect_transitions_to_completed_with_no_auth on_connect no_auth_authenticator
on_connect_passes = refl

abbrev config : ServerConfig ℕ
config = new_config 3

-- INFO and CONNECT of this test.
abbrev crates : Crates
crates =
    crates_of
      (single (8 ∷ 1 ∷ []) (
        server_info protocol_version (record { value = 1 }) config.server_id config.server_name
          config.requires_auth config.tls_verify))
      (single (8 ∷ 1 ∷ []) (client_connect 1 false)) nothing nothing nothing nothing

client_run_passes :
    client_run_sends_info_and_accepts_connect wiring mpsc
      (framed_read crates)
      ([], [])
      config
      first_client_id
    ≡ some true
unfolding client_run_sends_info_and_accepts_connect new_config new_client run server_info
    client_connect bytes_eq no_auth_authenticator client_encode connect_codec server_encode
    info_codec client_decode server_decode
client_run_passes = refl
