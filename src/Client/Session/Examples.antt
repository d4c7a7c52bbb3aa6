-- ===== src/Client/Session/Examples.antt =====
-- A connection whose client sends CONNECT, PUBLISH and UNSUBSCRIBE, through the codec and
-- `Client::run` of crates/server/src/client.rs.
use ocypode.Prelude.{◌≡◌, refl, true, List, [], ◌∷◌, Bytes, bytes_eq, ok, arith}
use ocypode.Parser.{Frame, connect_frame, publish_frame, unsubscribe_frame, outbound_info}
use ocypode.Parser.Code.{connect_codec, publish_codec, unsubscribe_codec}
use ocypode.Parser.Fixtures.{note, hello, goodbye, crates, framed_read}
use ocypode.Parser.Framing.{client_encode}
use ocypode.Parser.Stream.{send_all}
use ocypode.Client.{no_auth_authenticator, run}
use ocypode.Client.Fixtures.{config, client_id}
use ocypode.Client.Session.{items, run-send_all}

abbrev frames : List Frame
frames = publish_frame note ∷ unsubscribe_frame goodbye ∷ []

abbrev stream : Bytes
stream =
    1 ∷ 0 ∷ 0 ∷ 0 ∷ 2 ∷ 8 ∷ 1 ∷ 2 ∷ 0 ∷ 0 ∷ 0 ∷ 3 ∷ 10 ∷ 1 ∷ 97 ∷ 4 ∷ 0 ∷ 0 ∷ 0 ∷ 2 ∷ 8 ∷ 7 ∷ []

streamed : send_all crates (connect_frame hello ∷ frames) [] ≡ (ok tt, stream)
unfolding client_encode connect_codec publish_codec unsubscribe_codec
streamed = refl

run-send_all_example :
    run config client_id no_auth_authenticator true true (items (framed_read crates) 4 stream) ≡ (
      outbound_info (record {
        version = 1;
        server_id = config.server_id;
        server_name = config.server_name;
        max_payload = 1048576;
        client_id = 5;
        requires_auth = config.requires_auth;
        tls_verify = config.tls_verify;
      })
          ∷ [],
      ok tt,
    )
unfolding no_auth_authenticator bytes_eq
run-send_all_example =
    run-send_all (framed_read crates) config client_id no_auth_authenticator hello frames
      ((8 ∷ 1 ∷ []) ∷ (10 ∷ 1 ∷ 97 ∷ []) ∷ (8 ∷ 7 ∷ []) ∷ []) stream 4 refl
      ((refl, refl), omega arith, ((refl, refl), omega arith, ((refl, refl), omega arith, tt)))
      streamed (omega arith)
