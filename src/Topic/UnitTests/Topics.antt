-- ===== src/Topic/UnitTests/Topics.antt =====
-- The unit tests of crates/server/src/topic.rs on topics.
use ocypode.Prelude.{◌+◌, Bool, [], ◌∷◌, codes}
use ocypode.Topic.{
  new_topic, segments_of, max_topic_length, empty, too_long, leading_slash, trailing_slash,
  empty_layer, too_many_layers, wildcard_in_publish_topic,
}
use ocypode.Topic.UnitTests.{parse_pub, unwrapped_passes, fails, is_ok, segments_are, repeat}

unfoldable pub segments_splits_simple_path : Bool
segments_splits_simple_path =
    unwrapped_passes
      (λ v. segments_are (codes "a" ∷ codes "b" ∷ codes "c" ∷ []) (segments_of v.bytes))
      (new_topic (codes "a/b/c"))

unfoldable pub segments_single_component : Bool
segments_single_component =
    unwrapped_passes (λ v. segments_are (codes "single" ∷ []) (segments_of v.bytes))
      (new_topic (codes "single"))

unfoldable pub parse_rejects_empty_topic : Bool
parse_rejects_empty_topic = fails empty (parse_pub [])

unfoldable pub parse_rejects_leading_slash : Bool
parse_rejects_leading_slash = fails leading_slash (parse_pub (codes "/a/b"))

unfoldable pub parse_rejects_trailing_slash : Bool
parse_rejects_trailing_slash = fails trailing_slash (parse_pub (codes "a/b/"))

unfoldable pub parse_rejects_consecutive_slashes : Bool
parse_rejects_consecutive_slashes = fails empty_layer (parse_pub (codes "a//b"))

unfoldable pub parse_rejects_topic_exceeding_max_length : Bool
parse_rejects_topic_exceeding_max_length =
    fails (too_long (max_topic_length + 1)) (parse_pub (repeat b'a' (max_topic_length + 1)))

unfoldable pub parse_accepts_topic_at_max_length : Bool
parse_accepts_topic_at_max_length = is_ok (parse_pub (repeat b'x' max_topic_length))

unfoldable pub parse_rejects_more_than_8_layers : Bool
parse_rejects_more_than_8_layers = fails (too_many_layers 9) (parse_pub (codes "a/b/c/d/e/f/g/h/i"))

unfoldable pub parse_accepts_exactly_8_layers : Bool
parse_accepts_exactly_8_layers = is_ok (parse_pub (codes "a/b/c/d/e/f/g/h"))

unfoldable pub parse_accepts_sys_not_at_first_layer : Bool
parse_accepts_sys_not_at_first_layer = is_ok (parse_pub (codes "device/$SYS/info"))

unfoldable pub parse_accepts_global_prefix_publish : Bool
parse_accepts_global_prefix_publish = is_ok (parse_pub (codes "$G/sensor/data"))

unfoldable pub parse_rejects_single_wildcard_in_publish : Bool
parse_rejects_single_wildcard_in_publish =
    fails wildcard_in_publish_topic (parse_pub (codes "sensor/+/data"))

unfoldable pub parse_rejects_multi_wildcard_in_publish : Bool
parse_rejects_multi_wildcard_in_publish =
    fails wildcard_in_publish_topic (parse_pub (codes "sensor/#"))
