-- ===== src/Parser/UnitTests/Passes.antt =====
-- The unit tests of crates/server/src/parser.rs pass where prost has one payload for each message.
use ocypode.Prelude.{◌≡◌, refl, true, false, some, [], ◌∷◌, bytes_eq}
use ocypode.Parser.{Crates}
use ocypode.Parser.Code.{
  info_codec, connect_codec, publish_codec, subscribe_codec, unsubscribe_codec, message_codec,
}
use ocypode.Parser.Framing.{server_encode, client_encode, server_decode, client_decode}
use ocypode.Parser.Fixtures.{Prost, single, nothing, crates_of, framed_read}
use ocypode.Parser.UnitTests.{plain_connect, has_header, with_bad_prefix, build_connect_frame}
use ocypode.Parser.UnitTests.FromServer.{
  info_1, info_2, info_3, info_4, temperature, delivery, encode_info_frame_has_header_and_payload,
  encode_and_decode_info_frame, client_decode_info_frame_recovers_from_bad_prefix,
  client_encode_and_decode_info_frame, encode_and_decode_message_frame,
  client_decode_message_frame_recovers_from_bad_prefix,
}
use ocypode.Parser.UnitTests.FromClient.{
  reading, greeting, workers, alone, goodbye, decode_conn_frame_recovers_from_bad_prefix,
  client_encode_connect_frame_has_header_and_payload, encode_and_decode_publish_frame,
  encode_publish_frame_has_correct_header, encode_and_decode_subscribe_frame,
  subscribe_without_queue_group_roundtrips, encode_and_decode_unsubscribe_frame,
}
use ocypode.Parser.UnitTests.InSequence.{
  payload_to_ab, below_a, one, framed_read_decodes_single_connect_frame,
  framed_read_decodes_multiple_frames_in_sequence, framed_read_recovers_from_bad_prefix_byte,
  framed_read_decodes_publish_subscribe_unsubscribe_sequence,
}

abbrev payload : {M : Type 0} → M → Prost M
payload m = single (8 ∷ 1 ∷ 18 ∷ []) m

abbrev framed_crates : Crates
framed_crates =
    crates_of nothing (payload (plain_connect false)) (payload payload_to_ab) (payload below_a)
      (payload one) nothing

from_server_passes :
    (encode_info_frame_has_header_and_payload
        (crates_of (payload info_1) nothing nothing nothing nothing nothing)
      ≡ some true)
    × (encode_and_decode_info_frame
          (crates_of (payload info_2) nothing nothing nothing nothing nothing)
        ≡ some true)
    × (client_decode_info_frame_recovers_from_bad_prefix
          (crates_of (payload info_3) nothing nothing nothing nothing nothing)
        ≡ some true)
    × (client_encode_and_decode_info_frame
          (crates_of (payload info_4) nothing nothing nothing nothing nothing)
        ≡ some true)
    × (encode_and_decode_message_frame
          (crates_of nothing nothing nothing nothing nothing (payload temperature))
        ≡ some true)
    × (client_decode_message_frame_recovers_from_bad_prefix
          (crates_of nothing nothing nothing nothing nothing (payload delivery))
        ≡ some true)
unfolding encode_info_frame_has_header_and_payload encode_and_decode_info_frame
    client_decode_info_frame_recovers_from_bad_prefix client_encode_and_decode_info_frame
    encode_and_decode_message_frame client_decode_message_frame_recovers_from_bad_prefix
    plain_connect has_header with_bad_prefix build_connect_frame bytes_eq info_codec connect_codec
    publish_codec subscribe_codec unsubscribe_codec message_codec server_encode client_encode
    server_decode client_decode
from_server_passes = (refl, refl, refl, refl, refl, refl)

from_client_passes :
    (decode_conn_frame_recovers_from_bad_prefix (
        crates_of nothing
          (payload (plain_connect true))
          (payload reading)
          (payload workers)
          (payload goodbye)
          nothing)
      ≡ some true)
    × (client_encode_connect_frame_has_header_and_payload (
          crates_of nothing
            (payload (plain_connect true))
            (payload reading)
            (payload workers)
            (payload goodbye)
            nothing)
        ≡ some true)
    × (encode_and_decode_publish_frame (
          crates_of nothing
            (payload (plain_connect true))
            (payload reading)
            (payload workers)
            (payload goodbye)
            nothing)
        ≡ some true)
    × (encode_publish_frame_has_correct_header (
          crates_of nothing
            (payload (plain_connect true))
            (payload greeting)
            (payload workers)
            (payload goodbye)
            nothing)
        ≡ some true)
    × (encode_and_decode_subscribe_frame (
          crates_of nothing
            (payload (plain_connect true))
            (payload reading)
            (payload workers)
            (payload goodbye)
            nothing)
        ≡ some true)
    × (subscribe_without_queue_group_roundtrips (
          crates_of nothing
            (payload (plain_connect true))
            (payload reading)
            (payload alone)
            (payload goodbye)
            nothing)
        ≡ some true)
    × (encode_and_decode_unsubscribe_frame (
          crates_of nothing
            (payload (plain_connect true))
            (payload reading)
            (payload workers)
            (payload goodbye)
            nothing)
        ≡ some true)
unfolding decode_conn_frame_recovers_from_bad_prefix
    client_encode_connect_frame_has_header_and_payload encode_and_decode_publish_frame
    encode_publish_frame_has_correct_header encode_and_decode_subscribe_frame
    subscribe_without_queue_group_roundtrips encode_and_decode_unsubscribe_frame plain_connect
    has_header with_bad_prefix build_connect_frame bytes_eq info_codec connect_codec publish_codec
    subscribe_codec unsubscribe_codec message_codec server_encode client_encode server_decode
    client_decode
from_client_passes = (refl, refl, refl, refl, refl, refl, refl)

in_sequence_passes :
    (framed_read_decodes_single_connect_frame framed_crates (framed_read framed_crates) ≡ some true)
    × (framed_read_decodes_multiple_frames_in_sequence framed_crates (framed_read framed_crates)
        ≡ some true)
    × (framed_read_recovers_from_bad_prefix_byte framed_crates (framed_read framed_crates)
        ≡ some true)
    × (framed_read_decodes_publish_subscribe_unsubscribe_sequence framed_crates
          (framed_read framed_crates)
        ≡ some true)
unfolding framed_read_decodes_single_connect_frame framed_read_decodes_multiple_frames_in_sequence
    framed_read_recovers_from_bad_prefix_byte
    framed_read_decodes_publish_subscribe_unsubscribe_sequence plain_connect has_header
    with_bad_prefix build_connect_frame bytes_eq info_codec connect_codec publish_codec
    subscribe_codec unsubscribe_codec message_codec server_encode client_encode server_decode
    client_decode
in_sequence_passes = (refl, refl, refl, refl)
