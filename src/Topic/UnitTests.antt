-- ===== src/Topic/UnitTests.antt =====
-- The unit tests at the end of crates/server/src/topic.rs: `true` is a test that passes.
mod Topics
mod Filters
mod Display
mod Passes
use ocypode.Prelude.{
  ℕ, zero, suc, Bool, true, false, ◌==◌, ◌&&◌, List, [], ◌∷◌, Bytes, bytes_eq, Result, ok, err,
  panic,
}
use ocypode.Topic.{
  Topic, TopicFilter, new_topic, new_filter, TopicError, empty, too_long, leading_slash,
  trailing_slash, empty_layer, too_many_layers, reserved_sys_prefix, global_prefix_without_topic,
  wildcard_in_publish_topic, multi_wildcard_not_terminal, invalid_wildcard_usage,
}

-- The derived `PartialEq` of `TopicError`.
unfoldable pub error_beq : TopicError → TopicError → Bool
error_beq empty empty = true
error_beq leading_slash leading_slash = true
error_beq trailing_slash trailing_slash = true
error_beq empty_layer empty_layer = true
error_beq reserved_sys_prefix reserved_sys_prefix = true
error_beq global_prefix_without_topic global_prefix_without_topic = true
error_beq wildcard_in_publish_topic wildcard_in_publish_topic = true
error_beq multi_wildcard_not_terminal multi_wildcard_not_terminal = true
error_beq invalid_wildcard_usage invalid_wildcard_usage = true
error_beq (too_long m) (too_long n) = m == n
error_beq (too_many_layers m) (too_many_layers n) = m == n
error_beq _ _ = false

-- `assert_eq!(…, Err(e))`, `assert!(….is_ok())`, and `assert_eq!` on segments.
unfoldable pub fails : {A : Type 0} → TopicError → Result TopicError A → Bool
fails e (ok a) = false
fails e (err x) = error_beq x e
fails e panic = false

abbrev pub is_ok : {A : Type 0} → Result TopicError A → Bool
is_ok (ok a) = true
is_ok (err x) = false
is_ok panic = false

unfoldable pub segments_are : List Bytes → List Bytes → Bool
segments_are [] [] = true
segments_are (s ∷ ss) (t ∷ ts) = bytes_eq s t && segments_are ss ts
segments_are _ _ = false

-- `segments().next() == Some(…)`
unfoldable pub first_segment_is : Bytes → List Bytes → Bool
first_segment_is s [] = false
first_segment_is s (t ∷ ts) = bytes_eq t s

-- `"a".repeat(n)`
unfoldable pub repeat : ℕ → ℕ → Bytes
repeat c zero = []
repeat c (suc n) = c ∷ repeat c n

abbrev pub parse_pub : Bytes → Result TopicError Topic
parse_pub s = new_topic s

abbrev pub parse_sub : Bytes → Result TopicError TopicFilter
parse_sub s = new_filter s

-- A test on an unwrapped topic or filter.
abbrev pub unwrapped_passes : {A : Type 0} → (A → Bool) → Result TopicError A → Bool
unwrapped_passes test (ok v) = test v
unwrapped_passes test (err x) = false
unwrapped_passes test panic = false
