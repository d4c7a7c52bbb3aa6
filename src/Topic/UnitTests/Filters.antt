-- ===== src/Topic/UnitTests/Filters.antt =====
-- The unit tests of crates/server/src/topic.rs on filters, or on both.
use ocypode.Prelude.{Bool, not, ◌&&◌, [], ◌∷◌, codes}
use ocypode.Topic.{
  new_filter, segments_of, global_prefix, reserved_sys_prefix, global_prefix_without_topic,
  multi_wildcard_not_terminal, invalid_wildcard_usage,
}
use ocypode.Topic.UnitTests.{
  parse_pub, parse_sub, unwrapped_passes, fails, is_ok, segments_are, first_segment_is,
}

unfoldable pub parse_rejects_sys_prefix : Bool
parse_rejects_sys_prefix =
    fails reserved_sys_prefix (parse_pub (codes "$SYS/status"))
    && fails reserved_sys_prefix (parse_sub (codes "$SYS/+"))

unfoldable pub parse_accepts_global_prefix_subscribe_with_wildcard : Bool
parse_accepts_global_prefix_subscribe_with_wildcard =
    is_ok (parse_sub (codes "$G/sensor/+/data")) && is_ok (parse_sub (codes "$G/sensor/#"))

unfoldable pub parse_rejects_global_prefix_alone : Bool
parse_rejects_global_prefix_alone =
    fails global_prefix_without_topic (parse_pub (codes "$G"))
    && fails global_prefix_without_topic (parse_sub (codes "$G"))

unfoldable pub is_global_returns_true_for_global_filter : Bool
is_global_returns_true_for_global_filter =
    unwrapped_passes (λ v. first_segment_is global_prefix (segments_of v.bytes))
      (new_filter (codes "$G/broadcast/alerts"))

unfoldable pub is_global_returns_false_for_normal_filter : Bool
is_global_returns_false_for_normal_filter =
    unwrapped_passes (λ v. not (first_segment_is global_prefix (segments_of v.bytes)))
      (new_filter (codes "sensor/data"))

unfoldable pub parse_accepts_single_wildcard_in_subscribe : Bool
parse_accepts_single_wildcard_in_subscribe = is_ok (parse_sub (codes "sensor/+/data"))

unfoldable pub parse_accepts_multi_wildcard_terminal_in_subscribe : Bool
parse_accepts_multi_wildcard_terminal_in_subscribe = is_ok (parse_sub (codes "sensor/data/#"))

unfoldable pub parse_accepts_standalone_multi_wildcard : Bool
parse_accepts_standalone_multi_wildcard = is_ok (parse_sub (codes "#"))

unfoldable pub parse_accepts_standalone_single_wildcard : Bool
parse_accepts_standalone_single_wildcard = is_ok (parse_sub (codes "+"))

unfoldable pub parse_accepts_multiple_single_wildcards : Bool
parse_accepts_multiple_single_wildcards = is_ok (parse_sub (codes "+/+/data"))

unfoldable pub parse_rejects_multi_wildcard_not_terminal : Bool
parse_rejects_multi_wildcard_not_terminal =
    fails multi_wildcard_not_terminal (parse_sub (codes "sensor/#/data"))

unfoldable pub parse_rejects_embedded_wildcard_plus : Bool
parse_rejects_embedded_wildcard_plus =
    fails invalid_wildcard_usage (parse_sub (codes "sensor+/data"))

unfoldable pub parse_rejects_embedded_wildcard_hash : Bool
parse_rejects_embedded_wildcard_hash =
    fails invalid_wildcard_usage (parse_sub (codes "sensor#/data"))

unfoldable pub parse_rejects_embedded_wildcard_plus_suffix : Bool
parse_rejects_embedded_wildcard_plus_suffix =
    fails invalid_wildcard_usage (parse_sub (codes "sensor/data+"))

unfoldable pub filter_segments_splits_simple_path : Bool
filter_segments_splits_simple_path =
    unwrapped_passes
      (λ v. segments_are (codes "a" ∷ codes "b" ∷ codes "c" ∷ []) (segments_of v.bytes))
      (new_filter (codes "a/b/c"))
