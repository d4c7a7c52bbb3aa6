-- ===== src/Parser/UnitTests/InSequence.antt =====
-- The unit tests of crates/server/src/parser.rs on `FramedRead`.
use ocypode.Prelude.{Bool, ◌&&◌, Option, some, [], ◌∷◌, ◌++◌, codes}
use ocypode.Message.{Publish, Subscribe, UnSubscribe}
use ocypode.Parser.{Crates}
use ocypode.Parser.Code.{publish_codec, subscribe_codec, unsubscribe_codec}
use ocypode.Parser.Framing.{client_encode}
use ocypode.Parser.Framed.{FramedRead}
use ocypode.Parser.UnitTests.{
  ◌>>=◌, written, as_publish, as_subscribe, as_unsubscribe, is_connect, build_connect_frame,
  next_frame, is_at_end,
}

abbrev pub payload_to_ab : Publish
payload_to_ab = record { topic = codes "a/b"; payload = codes "payload"; header = [] }

abbrev pub below_a : Subscribe
below_a = record { topic = codes "a/#"; subscription_id = 1; queue_group = [] }

abbrev pub one : UnSubscribe
one = record { subscription_id = 1 }

module _ (X : Crates) (R : FramedRead X) where
  unfoldable pub framed_read_decodes_single_connect_frame : Option Bool
  framed_read_decodes_single_connect_frame = do
    input ← build_connect_frame X
    (frame, s) ← next_frame X R (R.from_bytes input)
    some (is_connect frame && is_at_end X R s)

  unfoldable pub framed_read_decodes_multiple_frames_in_sequence : Option Bool
  framed_read_decodes_multiple_frames_in_sequence = do
    input ← build_connect_frame X
    (frame1, s1) ← next_frame X R (R.from_bytes (input ++ input))
    (frame2, s2) ← next_frame X R s1
    some (is_connect frame1 && is_connect frame2 && is_at_end X R s2)

  unfoldable pub framed_read_recovers_from_bad_prefix_byte : Option Bool
  framed_read_recovers_from_bad_prefix_byte = do
    input ← build_connect_frame X
    (frame, s) ← next_frame X R (R.from_bytes (255 ∷ input))
    some (is_connect frame && is_at_end X R s)

  unfoldable pub framed_read_decodes_publish_subscribe_unsubscribe_sequence : Option Bool
  framed_read_decodes_publish_subscribe_unsubscribe_sequence = do
    buf1 ← written (client_encode X (publish_codec X) payload_to_ab [])
    buf2 ← written (client_encode X (subscribe_codec X) below_a buf1)
    buf3 ← written (client_encode X (unsubscribe_codec X) one buf2)
    (frame1, s1) ← next_frame X R (R.from_bytes buf3)
    _ ← as_publish (frame1, [])
    (frame2, s2) ← next_frame X R s1
    _ ← as_subscribe (frame2, [])
    (frame3, s3) ← next_frame X R s2
    _ ← as_unsubscribe (frame3, [])
    some (is_at_end X R s3)
