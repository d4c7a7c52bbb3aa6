-- ===== src/Parser.antt =====
-- crates/server/src/parser.rs, and the errors of the codecs in crates/server/src/error.rs. What the
-- crates prost, bytes and std::io give is a record of parameters; a `BytesMut` is the list of its
-- bytes, and an operation that changes it gives the list after it.
pub mod Code
pub mod Framing
pub mod Outcome
pub mod Chunks
pub mod RoundTrip
pub mod Exchange
pub mod Stream
pub mod Atomic
pub mod Codecs
pub mod Reader
pub mod Framed
pub mod Fixtures
pub mod UnitTests
mod Examples
use ocypode.Prelude.{
  ℕ, suc, ◌+◌, ◌*◌, ◌/◌, ◌%◌, ◌^◌, Bool, true, false, Option, none, some, List, [], ◌∷◌, ◌++◌, ◌≡◌,
  ltb, ◌==◌, if◌then◌else◌, Bytes, codes, length, take, drop, Result, ok, err, panic, ◌>>=◌,
}
use ocypode.Identity.{ClientId}
use ocypode.Message.{
  no_auth, password_auth, auth_method_code, Info, PasswordAuth, Connect, Publish, Subscribe,
  UnSubscribe, Message,
}

abbrev pub command_byte_len : ℕ
command_byte_len = 1

abbrev pub payload_length_bytes : ℕ
payload_length_bytes = 4

abbrev pub header_length : ℕ
header_length = command_byte_len + payload_length_bytes

abbrev pub maximum_payload_bytes : ℕ
maximum_payload_bytes = 1024 * 1024

abbrev pub protocol_version : ℕ
protocol_version = 1

pub data Command : Type 0 where
  info_command : Command
  connect_command : Command
  publish_command : Command
  subscribe_command : Command
  unsubscribe_command : Command
  message_command : Command

-- `as u8`
unfoldable pub command_code : Command → ℕ
command_code info_command = 0
command_code connect_command = 1
command_code publish_command = 2
command_code subscribe_command = 3
command_code unsubscribe_command = 4
command_code message_command = 5

-- `prost::Message` for a type of messages.
pub record ProstMessage (E D M : Type 0) : Type 0 where
  pub encode : M → Result E Bytes
  pub decode : Bytes → Result D M

-- The crates. `get_u32` and `put_u32` of the bytes crate are documented to be big-endian.
pub record Crates : Type 1 where
  pub EncodeError : Type 0
  pub DecodeError : Type 0
  pub IoError : Type 0
  pub get_u32 : Bytes → ℕ
  pub put_u32 : ℕ → Bytes
  pub get_u32_be :
      (a b c d : ℕ) → get_u32 (a ∷ b ∷ c ∷ d ∷ []) ≡ ((a * 256 + b) * 256 + c) * 256 + d
  pub put_u32_be :
      (n : ℕ)
      → put_u32 n ≡ ((n / 16777216) % 256 ∷ (n / 65536) % 256 ∷ (n / 256) % 256 ∷ n % 256 ∷ [])
  pub info : ProstMessage EncodeError DecodeError Info
  pub connect : ProstMessage EncodeError DecodeError Connect
  pub publish : ProstMessage EncodeError DecodeError Publish
  pub subscribe : ProstMessage EncodeError DecodeError Subscribe
  pub unsubscribe : ProstMessage EncodeError DecodeError UnSubscribe
  pub message : ProstMessage EncodeError DecodeError Message

pub data CodecError (X : Crates) : Type 0 where
  error : CodecError X
  invalid_command : CodecError X
  encode_error : X.EncodeError → CodecError X
  decode_error : X.DecodeError → CodecError X
  invalid_size_bytes : ℕ → CodecError X
  invalid_version : Bytes → CodecError X

-- `ServerCodecError`, and `ClientCodecError` with the same variants.
pub data ServerCodecError (X : Crates) : Type 0 where
  server_codec : CodecError X → ServerCodecError X
  server_io : X.IoError → ServerCodecError X

pub data ClientCodecError (X : Crates) : Type 0 where
  client_codec : CodecError X → ClientCodecError X
  client_io : X.IoError → ClientCodecError X

pub data Frame : Type 0 where
  connect_frame : Connect → Frame
  publish_frame : Publish → Frame
  subscribe_frame : Subscribe → Frame
  unsubscribe_frame : UnSubscribe → Frame

pub data ClientFrame : Type 0 where
  info_frame : Info → ClientFrame
  message_frame : Message → ClientFrame

pub data OutboundMessage : Type 0 where
  outbound_info : Info → OutboundMessage
  outbound_message : Message → OutboundMessage

pub data ServerInboundCommand : Type 0 where
  inbound_connect : ServerInboundCommand
  inbound_publish : ServerInboundCommand
  inbound_subscribe : ServerInboundCommand
  inbound_unsubscribe : ServerInboundCommand

pub data ClientInboundCommand : Type 0 where
  inbound_info : ClientInboundCommand
  inbound_message : ClientInboundCommand

-- `TryFrom<u8>`; `none` is `Err(())`.
unfoldable pub server_try_from : ℕ → Option ServerInboundCommand
unfolding command_code
server_try_from v =
    if v == command_code connect_command
    then some inbound_connect
    else if v == command_code publish_command
    then some inbound_publish
    else if v == command_code subscribe_command
    then some inbound_subscribe
    else if v == command_code unsubscribe_command
    then some inbound_unsubscribe
    else none

unfoldable pub client_try_from : ℕ → Option ClientInboundCommand
unfolding command_code
client_try_from v =
    if v == command_code info_command
    then some inbound_info
    else if v == command_code message_command
    then some inbound_message
    else none

-- `.map_err`, which the operator `?` calls.
abbrev pub map_err {ℓ} : {E E' : Type 0} {A : Type ℓ} → (E → E') → Result E A → Result E' A
map_err f (ok a) = ok a
map_err f (err e) = err (f e)
map_err f panic = panic
