-- ===== src/Topic/Examples.antt =====
-- Some runs of crates/server/src/topic.rs, and the theorems at concrete inputs.
use ocypode.Prelude.{◌≡◌, refl, ok, err, codes, [], ◌∷◌}
use ocypode.Topic.Shape.{IsName, IsPlaced, matchable}
use ocypode.Topic.Names.{
  TopicOutcome, FilterOutcome, new_topic_outcome, new_filter_outcome, segments-new_filter,
}
use ocypode.Topic.{
  split, new_topic, new_filter, segments_of, leading_slash, trailing_slash, empty_layer,
  too_many_layers, reserved_sys_prefix, global_prefix_without_topic, wildcard_in_publish_topic,
  multi_wildcard_not_terminal, invalid_wildcard_usage, empty,
}

simple_path : segments_of (codes "a/b/c") ≡ codes "a" ∷ codes "b" ∷ codes "c" ∷ []
unfolding segments_of
simple_path = refl

rejected_topics :
    (new_topic [] ≡ err empty)
    × (new_topic (codes "/a/b") ≡ err leading_slash)
    × (new_topic (codes "a/b/") ≡ err trailing_slash)
    × (new_topic (codes "a//b") ≡ err empty_layer)
    × (new_topic (codes "a/b/c/d/e/f/g/h/i") ≡ err (too_many_layers 9))
    × (new_topic (codes "$SYS/status") ≡ err reserved_sys_prefix)
    × (new_topic (codes "$G") ≡ err global_prefix_without_topic)
    × (new_topic (codes "sensor/+/data") ≡ err wildcard_in_publish_topic)
unfolding new_topic
rejected_topics = (refl, refl, refl, refl, refl, refl, refl, refl)

rejected_filters :
    (new_filter (codes "sensor/#/data") ≡ err multi_wildcard_not_terminal)
    × (new_filter (codes "sensor+/data") ≡ err invalid_wildcard_usage)
    × (new_filter (codes "sensor/data+") ≡ err invalid_wildcard_usage)
unfolding new_filter
rejected_filters = (refl, refl, refl)

accepted_topics :
    (new_topic (codes "device/$SYS/info") ≡ ok (record { bytes = codes "device/$SYS/info" }))
    × (new_filter (codes "$G/sensor/#") ≡ ok (record { bytes = codes "$G/sensor/#" }))
    × (new_filter (codes "+/+/data") ≡ ok (record { bytes = codes "+/+/data" }))
unfolding new_topic new_filter
accepted_topics = (refl, refl, refl)

new_topic_outcome_example : TopicOutcome (codes "a/b") (new_topic (codes "a/b"))
new_topic_outcome_example = new_topic_outcome (codes "a/b")

new_filter_outcome_example : FilterOutcome (codes "a/#") (new_filter (codes "a/#"))
new_filter_outcome_example = new_filter_outcome (codes "a/#")

topic_ab : new_topic (codes "a/b") ≡ ok (record { bytes = codes "a/b" })
unfolding new_topic
topic_ab = refl

filter_ab : new_filter (codes "a/+") ≡ ok (record { bytes = codes "a/+" })
unfolding new_filter
filter_ab = refl

segments-new_filter_example :
    (segments_of (codes "a/+") ≡ split (codes "a/+"))
    × IsName (codes "a/+") (segments_of (codes "a/+"))
    × IsPlaced (matchable (segments_of (codes "a/+")))
segments-new_filter_example =
    segments-new_filter (codes "a/+") (record { bytes = codes "a/+" }) filter_ab
