-- ===== src/Client/Conversation/Examples.antt =====
-- INFO of crates/server/src/client.rs, written to a list of bytes and read in two pieces.
use ocypode.Prelude.{
  ℕ, ◌≡◌, refl, true, false, some, List, [], ◌∷◌, map, arith, Bytes, bytes_eq, Result, ok, err,
}
use ocypode.Identity.{counter_after}
use ocypode.Config.{ServerConfig, new_config}
use ocypode.Parser.{Crates, info_frame}
use ocypode.Parser.Code.{info_codec}
use ocypode.Parser.Fixtures.{single, nothing, crates_of}
use ocypode.Parser.Framing.{server_encode}
use ocypode.Parser.Exchange.{Restores}
use ocypode.Parser.Reader
use ocypode.Parser.Reader.{read_next_client_frame, outcome}
use ocypode.Client.{no_auth_authenticator, handshake_failed, connect_timeout, ClientError}
use ocypode.Client.Conversation.{greeting, info_arrives}
use ocypode.Client.Fixtures.{mpsc}
use ocypode.Client.Conversation.Fixtures.{
  wiring, frame_of, framed_write, message, queue, last, written_out,
}
use ocypode.Client.Start.{handle_bidirectional_stream}

abbrev config : ServerConfig ℕ
config = new_config 3

abbrev crates : Crates
crates = crates_of (single (8 ∷ 1 ∷ []) (greeting config 5)) nothing nothing nothing nothing nothing

made : mpsc.channel config.quic.outbound_channel_capacity ≡ some queue
unfolding new_config
made = refl

abbrev result : Result (ClientError crates) (Unit {0})
result = err (handshake_failed connect_timeout)

handled :
    handle_bidirectional_stream wiring mpsc
      ([], ([], []))
      config
      no_auth_authenticator
      (counter_after 4)
      true
      false
      []
    ≡ some (message (greeting config 5) ∷ [], result)
unfolding handle_bidirectional_stream new_config counter_after
handled = refl

abbrev pieces : List Bytes
pieces = (0 ∷ 0 ∷ []) ∷ (0 ∷ 0 ∷ 2 ∷ 8 ∷ 1 ∷ []) ∷ []

cut : Reader.joined crates pieces ≡ frame_of crates (greeting config 5)
unfolding server_encode info_codec new_config
cut = refl

restores : Restores crates crates.info (greeting config 5) (8 ∷ 1 ∷ [])
unfolding bytes_eq
restores = (refl, refl)

info_arrives_example :
    outcome crates (read_next_client_frame crates (map Reader.received pieces) [])
    ≡ (ok (some (info_frame (greeting config 5))), [])
info_arrives_example =
    info_arrives wiring mpsc (framed_write crates) ([], ([], [])) config no_auth_authenticator 4
      false [] queue (message (greeting config 5) ∷ []) result (last crates (greeting config 5))
      (8 ∷ 1 ∷ []) pieces (omega arith) made handled (refl, refl)
      (written_out crates (greeting config 5)) refl restores (omega arith) (tt, (tt, tt)) cut
