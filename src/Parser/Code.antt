-- ===== src/Parser/Code.antt =====
-- crates/server/src/parser.rs: the trait `CommandCodec` with its implementations, and the builders
-- `ServerOutbound` and `ClientOutbound`.
use ocypode.Prelude.{ℕ, ◌%◌, ◌^◌, Bool, false, none, some, Bytes, codes, Result}
use ocypode.Identity.{ClientId}
use ocypode.Message.{
  no_auth, password_auth, auth_method_code, Info, Connect, Publish, Subscribe, UnSubscribe, Message,
}
use ocypode.Parser.{
  maximum_payload_bytes, info_command, connect_command, publish_command, subscribe_command,
  unsubscribe_command, message_command, command_code, Crates, ProstMessage, CodecError,
  encode_error, decode_error, map_err,
}

-- A type with `COMMAND` and the prost implementation that the default methods call.
pub record CommandCodec (X : Crates) (M : Type 0) : Type 0 where
  pub command : ℕ
  pub prost : ProstMessage X.EncodeError X.DecodeError M

module _ {X : Crates} {M : Type 0} where
  abbrev pub encode_payload : CommandCodec X M → M → Result (CodecError X) Bytes
  encode_payload k item = map_err encode_error (k.prost.encode item)

  abbrev pub decode_payload : CommandCodec X M → Bytes → Result (CodecError X) M
  decode_payload k payload = map_err decode_error (k.prost.decode payload)

module _ (X : Crates) where
  unfoldable pub info_codec : CommandCodec X Info
  unfolding command_code
  info_codec = record { command = command_code info_command; prost = X.info }

  unfoldable pub connect_codec : CommandCodec X Connect
  unfolding command_code
  connect_codec = record { command = command_code connect_command; prost = X.connect }

  unfoldable pub publish_codec : CommandCodec X Publish
  unfolding command_code
  publish_codec = record { command = command_code publish_command; prost = X.publish }

  unfoldable pub subscribe_codec : CommandCodec X Subscribe
  unfolding command_code
  subscribe_codec = record { command = command_code subscribe_command; prost = X.subscribe }

  unfoldable pub unsubscribe_codec : CommandCodec X UnSubscribe
  unfolding command_code
  unsubscribe_codec = record { command = command_code unsubscribe_command; prost = X.unsubscribe }

  unfoldable pub message_codec : CommandCodec X Message
  unfolding command_code
  message_codec = record { command = command_code message_command; prost = X.message }

-- `ServerOutbound::info`
unfoldable pub server_info : ℕ → ClientId → Bytes → Bytes → Bool → Bool → Info
server_info version client_id server_id server_name requires_auth tls_verify = record {
  version = version;
  server_id = server_id;
  server_name = server_name;
  max_payload = maximum_payload_bytes % 2 ^ 32;
  client_id = client_id.value;
  requires_auth = requires_auth;
  tls_verify = tls_verify;
}

-- `ServerOutbound::default_info`
unfoldable pub default_info : Info
unfolding server_info
default_info =
    server_info 1 (record { value = 0 }) (codes "ocypode-server") (codes "ocypode") false false

-- `ClientOutbound::connect`
unfoldable pub client_connect : ℕ → Bool → Connect
unfolding auth_method_code
client_connect version verbose = record {
  version = version;
  verbose = verbose;
  auth_method = auth_method_code no_auth;
  credentials = none;
}

-- `ClientOutbound::connect_with_password`
unfoldable pub connect_with_password : ℕ → Bool → Bytes → Bytes → Connect
unfolding auth_method_code
connect_with_password version verbose username password = record {
  version = version;
  verbose = verbose;
  auth_method = auth_method_code password_auth;
  credentials = some (record { username = username; password = password });
}
