-- ===== src/Parser/UnitTests/FromServer.antt =====
-- The unit tests of crates/server/src/parser.rs on INFO and MESSAGE.
use ocypode.Prelude.{Bool, false, ◌==◌, ◌&&◌, Option, some, [], bytes_eq, codes, drop, unwrapped}
use ocypode.Message.{Info, Message}
use ocypode.Parser.{header_length, info_command, message_command, Crates}
use ocypode.Parser.Code.{info_codec, message_codec}
use ocypode.Parser.Framing.{server_encode, client_decode}
use ocypode.Parser.UnitTests.{
  ◌>>=◌, written, decoded, is_empty, as_info, as_message, has_header, with_bad_prefix,
}

abbrev pub info_1 : Info
info_1 = record {
  version = 1;
  server_id = codes "srv-1";
  server_name = codes "ocypode";
  max_payload = 1024;
  client_id = 0;
  requires_auth = false;
  tls_verify = false;
}

abbrev pub info_2 : Info
info_2 = record {
  version = 1;
  server_id = codes "srv-2";
  server_name = codes "ocypode";
  max_payload = 2048;
  client_id = 0;
  requires_auth = false;
  tls_verify = false;
}

abbrev pub info_3 : Info
info_3 = record {
  version = 1;
  server_id = codes "srv-3";
  server_name = codes "ocypode";
  max_payload = 512;
  client_id = 0;
  requires_auth = false;
  tls_verify = false;
}

abbrev pub info_4 : Info
info_4 = record {
  version = 2;
  server_id = codes "srv-4";
  server_name = codes "ocypode";
  max_payload = 4096;
  client_id = 0;
  requires_auth = false;
  tls_verify = false;
}

abbrev pub temperature : Message
temperature = record {
  topic = codes "sensors/temperature";
  subscription_id = 3;
  payload = codes "23.1";
  header = codes "encoding:utf-8";
}

abbrev pub delivery : Message
delivery = record {
  topic = codes "test/topic";
  subscription_id = 5;
  payload = codes "data";
  header = [];
}

module _ (X : Crates) where
  unfoldable pub encode_info_frame_has_header_and_payload : Option Bool
  encode_info_frame_has_header_and_payload = do
    output ← written (server_encode X (info_codec X) info_1 [])
    message ← unwrapped (X.info.decode (drop header_length output))
    some (
        has_header X info_command output
        && (message.version == info_1.version)
        && bytes_eq message.server_id info_1.server_id)

  unfoldable pub encode_and_decode_info_frame : Option Bool
  encode_and_decode_info_frame = do
    output ← written (server_encode X (info_codec X) info_2 [])
    frame ← decoded (client_decode X output)
    (message, rest) ← as_info frame
    some (
        bytes_eq message.server_id info_2.server_id
        && (message.max_payload == info_2.max_payload)
        && is_empty rest)

  unfoldable pub client_decode_info_frame_recovers_from_bad_prefix : Option Bool
  client_decode_info_frame_recovers_from_bad_prefix = do
    payload ← unwrapped (X.info.encode info_3)
    frame ← decoded (client_decode X (with_bad_prefix X info_command payload))
    (message, rest) ← as_info frame
    some (bytes_eq message.server_id info_3.server_id && is_empty rest)

  unfoldable pub client_encode_and_decode_info_frame : Option Bool
  client_encode_and_decode_info_frame = do
    output ← written (server_encode X (info_codec X) info_4 [])
    frame ← decoded (client_decode X output)
    (message, rest) ← as_info frame
    some (
        bytes_eq message.server_id info_4.server_id
        && (message.max_payload == info_4.max_payload)
        && is_empty rest)

  unfoldable pub encode_and_decode_message_frame : Option Bool
  encode_and_decode_message_frame = do
    output ← written (server_encode X (message_codec X) temperature [])
    frame ← decoded (client_decode X output)
    (delivered, rest) ← as_message frame
    some (
        bytes_eq delivered.topic temperature.topic
        && (delivered.subscription_id == temperature.subscription_id)
        && bytes_eq delivered.payload temperature.payload
        && bytes_eq delivered.header temperature.header
        && is_empty rest)

  unfoldable pub client_decode_message_frame_recovers_from_bad_prefix : Option Bool
  client_decode_message_frame_recovers_from_bad_prefix = do
    payload ← unwrapped (X.message.encode delivery)
    frame ← decoded (client_decode X (with_bad_prefix X message_command payload))
    (delivered, rest) ← as_message frame
    some ((delivered.subscription_id == delivery.subscription_id) && is_empty rest)
