-- ===== src/Client.antt =====
-- crates/server/src/client.rs, with crates/server/src/handshake.rs and crates/server/src/auth.rs.
-- The runtime is a parameter: whether the writer task still receives, whether CONNECT arrives in
-- time, and the items of the framed input, whose end is the end of the connection.
pub mod Pipeline
pub mod Failures
pub mod Writer
pub mod Channel
pub mod Start
mod Session
pub mod Conversation
pub mod Fixtures
mod UnitTests
mod Examples
use ocypode.Prelude.{
  ℕ, Bool, true, false, Option, none, some, List, [], ◌∷◌, Bytes, Result, ok, err, panic, ◌>>=◌,
  ◌>>◌,
}
use ocypode.Identity.{ClientId, next_client_id}
use ocypode.Message.{Info, Connect, Message}
use ocypode.Config.{ServerConfig}
use ocypode.Parser.{
  protocol_version, Crates, ServerCodecError, Frame, connect_frame, publish_frame, subscribe_frame,
  unsubscribe_frame, OutboundMessage, outbound_info, outbound_message,
}
use ocypode.Parser.Code.{server_info}

-- auth.rs: an `Authenticator` is its method `authenticate`.
pub data AuthOutcome : Type 0 where
  accepted : AuthOutcome
  rejected : Bytes → AuthOutcome

abbrev pub Authenticator : Type 0
Authenticator = Connect → AuthOutcome

unfoldable pub no_auth_authenticator : Authenticator
no_auth_authenticator _ = accepted

-- handshake.rs
pub record PendingHandshake : Type 0 where
  pub client_id : ClientId

pub record CompletedHandshake : Type 0 where
  pub client_id : ClientId
  pub connect_info : Connect

pub data HandshakeError : Type 0 where
  connect_timeout : HandshakeError
  connection_closed : HandshakeError
  unexpected_frame : HandshakeError
  authentication_failed : Bytes → HandshakeError

-- `PendingHandshake::new`
abbrev pub new_pending : ClientId → PendingHandshake
new_pending client_id = record { client_id = client_id }

abbrev judged : PendingHandshake → Connect → AuthOutcome → Result HandshakeError CompletedHandshake
judged p connect accepted = ok (record { client_id = p.client_id; connect_info = connect })
judged p connect (rejected reason) = err (authentication_failed reason)

unfoldable pub on_connect :
    PendingHandshake → Connect → Authenticator → Result HandshakeError CompletedHandshake
on_connect p connect authenticator = judged p connect (authenticator connect)

-- client.rs
pub data ClientError (X : Crates) : Type 0 where
  handshake_failed : HandshakeError → ClientError X
  codec_failed : ServerCodecError X → ClientError X
  outbound_channel_closed : ClientError X

-- What `framed_read.next()` gives: `Some(Ok(frame))` or `Some(Err(e))`.
pub data Item (X : Crates) : Type 0 where
  received : Frame → Item X
  failed : ServerCodecError X → Item X

module _ {X : Crates} where
  abbrev wrapped :
      Result HandshakeError CompletedHandshake → Result (ClientError X) CompletedHandshake
  wrapped (ok c) = ok c
  wrapped (err e) = err (handshake_failed e)
  wrapped panic = panic

  -- The item that is next, under `timeout`: the result, and the items after it.
  unfoldable pub await_connect :
      PendingHandshake
      → Authenticator
      → List (Item X)
      → Result (ClientError X) CompletedHandshake × List (Item X)
  unfolding on_connect
  await_connect pending authenticator [] = (err (handshake_failed connection_closed), [])
  await_connect pending authenticator (received (connect_frame connect) ∷ items) =
      (wrapped (on_connect pending connect authenticator), items)
  await_connect pending authenticator (received _ ∷ items) =
      (err (handshake_failed connection_closed), items)
  await_connect pending authenticator (failed e ∷ items) = (err (codec_failed e), items)

  -- `perform_handshake`: what it sends, its result, and the items that it leaves. A send fails once
  -- the writer task is gone.
  unfoldable pub perform_handshake :
      Bool
      → Bool
      → PendingHandshake
      → Authenticator
      → Info
      → List (Item X)
      → List OutboundMessage × (Result (ClientError X) CompletedHandshake × List (Item X))
  unfolding await_connect
  perform_handshake false timely pending authenticator info items =
      ([], (err outbound_channel_closed, items))
  perform_handshake true false pending authenticator info items =
      (outbound_info info ∷ [], (err (handshake_failed connect_timeout), items))
  perform_handshake true true pending authenticator info items =
      (outbound_info info ∷ [], await_connect pending authenticator items)

  -- `dispatch_frame`, which for now only logs.
  unfoldable pub dispatch_frame : Frame → CompletedHandshake → Result (ClientError X) (Unit {0})
  dispatch_frame (connect_frame _) h = ok tt
  dispatch_frame (publish_frame _) h = ok tt
  dispatch_frame (subscribe_frame _) h = ok tt
  dispatch_frame (unsubscribe_frame _) h = ok tt

  unfoldable pub dispatch_loop :
      CompletedHandshake → List (Item X) → Result (ClientError X) (Unit {0})
  unfolding dispatch_frame
  dispatch_loop h [] = ok tt
  dispatch_loop h (received frame ∷ items) = dispatch_frame frame h >> dispatch_loop h items
  dispatch_loop h (failed e ∷ items) = err (codec_failed e)

  abbrev then_dispatch :
      List OutboundMessage × (Result (ClientError X) CompletedHandshake × List (Item X))
      → List OutboundMessage × Result (ClientError X) (Unit {0})
  then_dispatch (sent, (completed, items)) = (sent, (completed >>= λ h. dispatch_loop h items))

  -- `Client::run`: what is sent, and the result.
  unfoldable pub run :
      {L : Type 0}
      → ServerConfig L
      → ClientId
      → Authenticator
      → Bool
      → Bool
      → List (Item X)
      → List OutboundMessage × Result (ClientError X) (Unit {0})
  unfolding server_info perform_handshake dispatch_loop
  run config client_id authenticator open_writer timely items = then_dispatch (
      perform_handshake open_writer timely (new_pending client_id) authenticator
        (server_info protocol_version client_id config.server_id config.server_name
          config.requires_auth config.tls_verify)
        items)
