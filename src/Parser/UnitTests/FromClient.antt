-- ===== src/Parser/UnitTests/FromClient.antt =====
-- The unit tests of crates/server/src/parser.rs on CONNECT, PUBLISH, SUBSCRIBE and UNSUBSCRIBE.
use ocypode.Prelude.{Bool, true, ◌==◌, ◌&&◌, Option, some, [], bytes_eq, codes, drop, unwrapped}
use ocypode.Message.{Publish, Subscribe, UnSubscribe}
use ocypode.Parser.{header_length, connect_command, publish_command, Crates}
use ocypode.Parser.Code.{connect_codec, publish_codec, subscribe_codec, unsubscribe_codec}
use ocypode.Parser.Framing.{server_encode, client_encode, server_decode}
use ocypode.Parser.UnitTests.{
  ◌>>=◌, written, decoded, is_empty, as_publish, as_subscribe, as_unsubscribe, is_connect,
  plain_connect, has_header, with_bad_prefix,
}

abbrev pub reading : Publish
reading = record {
  topic = codes "sensors/temperature";
  payload = codes "42.5";
  header = codes "content-type:text/plain";
}

abbrev pub greeting : Publish
greeting = record { topic = codes "test/topic"; payload = codes "hello"; header = [] }

abbrev pub workers : Subscribe
workers = record { topic = codes "sensors/#"; subscription_id = 7; queue_group = codes "workers" }

abbrev pub alone : Subscribe
alone = record { topic = codes "events/+/status"; subscription_id = 1; queue_group = [] }

abbrev pub goodbye : UnSubscribe
goodbye = record { subscription_id = 42 }

module _ (X : Crates) where
  unfoldable pub decode_conn_frame_recovers_from_bad_prefix : Option Bool
  decode_conn_frame_recovers_from_bad_prefix = do
    payload ← unwrapped (X.connect.encode (plain_connect true))
    (frame, rest) ← decoded (server_decode X (with_bad_prefix X connect_command payload))
    some (is_connect frame && is_empty rest)

  unfoldable pub client_encode_connect_frame_has_header_and_payload : Option Bool
  client_encode_connect_frame_has_header_and_payload = do
    output ← written (client_encode X (connect_codec X) (plain_connect true) [])
    message ← unwrapped (X.connect.decode (drop header_length output))
    some (has_header X connect_command output && (message.version == (plain_connect true).version))

  unfoldable pub encode_and_decode_publish_frame : Option Bool
  encode_and_decode_publish_frame = do
    output ← written (server_encode X (publish_codec X) reading [])
    frame ← decoded (server_decode X output)
    (message, rest) ← as_publish frame
    some (
        bytes_eq message.topic reading.topic
        && bytes_eq message.payload reading.payload
        && bytes_eq message.header reading.header
        && is_empty rest)

  unfoldable pub encode_publish_frame_has_correct_header : Option Bool
  encode_publish_frame_has_correct_header = do
    output ← written (server_encode X (publish_codec X) greeting [])
    some (has_header X publish_command output)

  unfoldable pub encode_and_decode_subscribe_frame : Option Bool
  encode_and_decode_subscribe_frame = do
    output ← written (server_encode X (subscribe_codec X) workers [])
    frame ← decoded (server_decode X output)
    (message, rest) ← as_subscribe frame
    some (
        bytes_eq message.topic workers.topic
        && (message.subscription_id == workers.subscription_id)
        && bytes_eq message.queue_group workers.queue_group
        && is_empty rest)

  unfoldable pub subscribe_without_queue_group_roundtrips : Option Bool
  subscribe_without_queue_group_roundtrips = do
    output ← written (server_encode X (subscribe_codec X) alone [])
    frame ← decoded (server_decode X output)
    (message, _) ← as_subscribe frame
    some ((message.subscription_id == alone.subscription_id) && is_empty message.queue_group)

  unfoldable pub encode_and_decode_unsubscribe_frame : Option Bool
  encode_and_decode_unsubscribe_frame = do
    output ← written (server_encode X (unsubscribe_codec X) goodbye [])
    frame ← decoded (server_decode X output)
    (message, rest) ← as_unsubscribe frame
    some ((message.subscription_id == goodbye.subscription_id) && is_empty rest)
