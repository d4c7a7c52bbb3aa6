-- ===== src/Client/UnitTests.antt =====
-- The unit tests of crates/server/src/client.rs and crates/server/src/handshake.rs: `some true` is a
-- test that passes, and `none` one that panics. The duplex pipe of the first is a transport whose
-- bytes all arrive.
mod Passes
use ocypode.Prelude.{
  ℕ, Bool, true, false, ◌==◌, ltb, Option, none, some, List, [], ◌∷◌, Bytes, unwrapped,
}
use ocypode.Identity.{ClientId}
use ocypode.Message.{Info}
use ocypode.Config.{ServerConfig}
use ocypode.Parser.{Crates}
use ocypode.Parser.Code.{client_connect, info_codec, connect_codec}
use ocypode.Parser.Framing.{server_encode, client_encode, client_decode}
use ocypode.Parser.Framed.{FramedRead}
use ocypode.Parser.UnitTests.{◌>>=◌, written, decoded, as_info, plain_connect}
use ocypode.Client.{no_auth_authenticator, new_pending, on_connect, run}
use ocypode.Client.Channel.{Mpsc}
use ocypode.Client.Session.{items}
use ocypode.Client.Start.{Wiring, new_client}
use ocypode.Client.Writer.{infos}

unfoldable pub on_connect_transitions_to_completed_with_no_auth : ClientId → Option Bool
on_connect_transitions_to_completed_with_no_auth client_id = do
  completed ←
      unwrapped (on_connect (new_pending client_id) (plain_connect false) no_auth_authenticator)
  some (completed.client_id.value == client_id.value)

abbrev next_info : List Info → Option Info
next_info [] = none
next_info (info ∷ _) = some info

module _ (T : Wiring) (M : Mpsc) {X : Crates} (R : FramedRead X) {L : Type 0} where
  unfoldable pub client_run_sends_info_and_accepts_connect :
      T.Transport → ServerConfig L → ℕ → Option Bool
  client_run_sends_info_and_accepts_connect transport config counter = do
    (client, _, _) ← new_client T M transport no_auth_authenticator config counter
    input ← written (client_encode X (connect_codec X) (client_connect 1 false) [])
    let (sent, result) =
        run client.config client.client_id client.authenticator true true
          (items R 2 (R.from_bytes input))
    info ← next_info (infos sent)
    output ← written (server_encode X (info_codec X) info [])
    frame ← decoded (client_decode X output)
    (info_msg, _) ← as_info frame
    _ ← unwrapped result
    some (ltb 0 info_msg.client_id)
