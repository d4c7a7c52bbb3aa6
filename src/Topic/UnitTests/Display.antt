-- ===== src/Topic/UnitTests/Display.antt =====
-- The unit tests of `Display` of crates/server/src/topic.rs; `format!` starts with nothing printed.
use ocypode.Prelude.{Bool, Option, [], Bytes, codes, bytes_eq}
use ocypode.Topic.{new_topic, new_filter}
use ocypode.Topic.Display.{fmt_topic, fmt_filter}
use ocypode.Topic.UnitTests.{unwrapped_passes}

module _ (from_utf8 : Bytes → Option Bytes) (debug : Bytes → Bytes) where
  unfoldable pub display_shows_topic_string : Bool
  unfolding fmt_topic
  display_shows_topic_string =
      unwrapped_passes (λ t. bytes_eq (fmt_topic from_utf8 debug t []) (codes "sensor/data/temp"))
        (new_topic (codes "sensor/data/temp"))

  unfoldable pub filter_display_shows_filter_string : Bool
  unfolding fmt_filter
  filter_display_shows_filter_string =
      unwrapped_passes (λ f. bytes_eq (fmt_filter from_utf8 debug f []) (codes "sensor/+/temp"))
        (new_filter (codes "sensor/+/temp"))
