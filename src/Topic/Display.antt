-- ===== src/Topic/Display.antt =====
-- `Display` and the `From` conversions of crates/server/src/topic.rs. `from_utf8` of the standard
-- library gives the text of bytes that are UTF-8, and `debug` is how `{:?}` prints a slice of bytes;
-- the formatter is what was printed.
use ocypode.Prelude.{Option, none, some, ◌++◌, Bytes}
use ocypode.Topic.{Topic, TopicFilter}

module _ (from_utf8 : Bytes → Option Bytes) (debug : Bytes → Bytes) where
  abbrev printed : Option Bytes → Bytes → Bytes → Bytes
  printed (some text) bytes f = f ++ text
  printed none bytes f = f ++ debug bytes

  unfoldable pub fmt_topic : Topic → Bytes → Bytes
  fmt_topic topic f = printed (from_utf8 topic.bytes) topic.bytes f

  unfoldable pub fmt_filter : TopicFilter → Bytes → Bytes
  fmt_filter filter f = printed (from_utf8 filter.bytes) filter.bytes f

-- `From<Bytes>` and `From<&'static [u8]>`, neither of which validates.
abbrev pub topic_from_bytes : Bytes → Topic
topic_from_bytes bytes = record { bytes = bytes }

abbrev pub topic_from_static : Bytes → Topic
topic_from_static bytes = record { bytes = bytes }
