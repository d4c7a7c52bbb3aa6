-- ===== src/Topic/UnitTests/Passes.antt =====
-- The unit tests of crates/server/src/topic.rs pass.
use ocypode.Prelude.{
  ◌≡◌, refl, Bool, true, false, Option, none, some, [], ◌∷◌, ltb, if◌then◌else◌, Bytes, bytes_eq,
}
use ocypode.Topic.UnitTests.Display.{display_shows_topic_string, filter_display_shows_filter_string}
use ocypode.Topic.{new_topic, new_filter, segments_of}
use ocypode.Topic.UnitTests.{fails, segments_are, first_segment_is, repeat, error_beq}
use ocypode.Topic.UnitTests.Topics.{
  segments_splits_simple_path, segments_single_component, parse_rejects_empty_topic,
  parse_rejects_leading_slash, parse_rejects_trailing_slash, parse_rejects_consecutive_slashes,
  parse_rejects_topic_exceeding_max_length, parse_accepts_topic_at_max_length,
  parse_rejects_more_than_8_layers, parse_accepts_exactly_8_layers,
  parse_accepts_sys_not_at_first_layer, parse_accepts_global_prefix_publish,
  parse_rejects_single_wildcard_in_publish, parse_rejects_multi_wildcard_in_publish,
}
use ocypode.Topic.UnitTests.Filters.{
  parse_rejects_sys_prefix, parse_accepts_global_prefix_subscribe_with_wildcard,
  parse_rejects_global_prefix_alone, is_global_returns_true_for_global_filter,
  is_global_returns_false_for_normal_filter, parse_accepts_single_wildcard_in_subscribe,
  parse_accepts_multi_wildcard_terminal_in_subscribe, parse_accepts_standalone_multi_wildcard,
  parse_accepts_standalone_single_wildcard, parse_accepts_multiple_single_wildcards,
  parse_rejects_multi_wildcard_not_terminal, parse_rejects_embedded_wildcard_plus,
  parse_rejects_embedded_wildcard_hash, parse_rejects_embedded_wildcard_plus_suffix,
  filter_segments_splits_simple_path,
}

topics_pass :
    (segments_splits_simple_path ≡ true)
    × (segments_single_component ≡ true)
    × (parse_rejects_empty_topic ≡ true)
    × (parse_rejects_leading_slash ≡ true)
    × (parse_rejects_trailing_slash ≡ true)
    × (parse_rejects_consecutive_slashes ≡ true)
    × (parse_rejects_topic_exceeding_max_length ≡ true)
    × (parse_accepts_topic_at_max_length ≡ true)
    × (parse_rejects_more_than_8_layers ≡ true)
    × (parse_accepts_exactly_8_layers ≡ true)
    × (parse_accepts_sys_not_at_first_layer ≡ true)
    × (parse_accepts_global_prefix_publish ≡ true)
    × (parse_rejects_single_wildcard_in_publish ≡ true)
    × (parse_rejects_multi_wildcard_in_publish ≡ true)
unfolding segments_splits_simple_path segments_single_component parse_rejects_empty_topic
    parse_rejects_leading_slash parse_rejects_trailing_slash parse_rejects_consecutive_slashes
    parse_rejects_topic_exceeding_max_length parse_accepts_topic_at_max_length
    parse_rejects_more_than_8_layers parse_accepts_exactly_8_layers
    parse_accepts_sys_not_at_first_layer parse_accepts_global_prefix_publish
    parse_rejects_single_wildcard_in_publish parse_rejects_multi_wildcard_in_publish new_topic
    new_filter segments_of fails segments_are first_segment_is repeat error_beq bytes_eq
topics_pass = (refl, refl, refl, refl, refl, refl, refl, refl, refl, refl, refl, refl, refl, refl)

filters_pass :
    (parse_rejects_sys_prefix ≡ true)
    × (parse_accepts_global_prefix_subscribe_with_wildcard ≡ true)
    × (parse_rejects_global_prefix_alone ≡ true)
    × (is_global_returns_true_for_global_filter ≡ true)
    × (is_global_returns_false_for_normal_filter ≡ true)
    × (parse_accepts_single_wildcard_in_subscribe ≡ true)
    × (parse_accepts_multi_wildcard_terminal_in_subscribe ≡ true)
    × (parse_accepts_standalone_multi_wildcard ≡ true)
    × (parse_accepts_standalone_single_wildcard ≡ true)
    × (parse_accepts_multiple_single_wildcards ≡ true)
    × (parse_rejects_multi_wildcard_not_terminal ≡ true)
    × (parse_rejects_embedded_wildcard_plus ≡ true)
    × (parse_rejects_embedded_wildcard_hash ≡ true)
    × (parse_rejects_embedded_wildcard_plus_suffix ≡ true)
    × (filter_segments_splits_simple_path ≡ true)
unfolding parse_rejects_sys_prefix parse_accepts_global_prefix_subscribe_with_wildcard
    parse_rejects_global_prefix_alone is_global_returns_true_for_global_filter
    is_global_returns_false_for_normal_filter parse_accepts_single_wildcard_in_subscribe
    parse_accepts_multi_wildcard_terminal_in_subscribe parse_accepts_standalone_multi_wildcard
    parse_accepts_standalone_single_wildcard parse_accepts_multiple_single_wildcards
    parse_rejects_multi_wildcard_not_terminal parse_rejects_embedded_wildcard_plus
    parse_rejects_embedded_wildcard_hash parse_rejects_embedded_wildcard_plus_suffix
    filter_segments_splits_simple_path new_topic new_filter segments_of fails segments_are
    first_segment_is repeat error_beq bytes_eq
filters_pass =
    (refl, refl, refl, refl, refl, refl, refl, refl, refl, refl, refl, refl, refl, refl, refl)

-- Text where every byte is ASCII.
abbrev ascii : Bytes → Option Bytes
ascii b = if all_ascii b then some b else none
  where
    all_ascii : Bytes → Bool
    all_ascii [] = true
    all_ascii (c ∷ bytes) = if ltb c 128 then all_ascii bytes else false

display_passes :
    (display_shows_topic_string ascii (λ b. b) ≡ true)
    × (filter_display_shows_filter_string ascii (λ b. b) ≡ true)
unfolding display_shows_topic_string filter_display_shows_filter_string new_topic new_filter
    bytes_eq
display_passes = (refl, refl)
