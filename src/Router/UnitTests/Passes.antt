-- ===== src/Router/UnitTests/Passes.antt =====
-- The unit tests of crates/server/src/router.rs pass on an association list.
use ocypode.Prelude.{◌≡◌, refl, true, some, bytes_eq, lookup, insert, remove}
use ocypode.Identity.{issued}
use ocypode.Router.{nth, key_eq}
use ocypode.Router.Fixtures.{table}
use ocypode.Router.Registry
use ocypode.Router.UnitTests.{inserted, searched, contains_key}
use ocypode.Router.UnitTests.Insert.{
  insert_single_segment_creates_child, insert_multi_segment_creates_nested_children,
  insert_leaf_node_contains_subscription, insert_wildcard_single_wildcard_sets_flag_on_parent,
  insert_wildcard_multi_sets_flag_on_parent, insert_two_subscribers_same_topic,
  insert_shares_common_prefix_nodes,
}
use ocypode.Router.UnitTests.Search.{
  search_exact_match_returns_subscriber, search_no_match_returns_empty,
  search_single_wildcard_matches_one_segment, search_single_wildcard_does_not_match_wrong_depth,
  search_multi_wildcard_matches_remaining_segments,
  search_multi_wildcard_matches_zero_remaining_segments,
  search_root_multi_wildcard_matches_any_topic, search_returns_all_matching_subscribers,
  search_non_matching_sibling_not_returned,
}
use ocypode.Router.UnitTests.Delete.{
  delete_removes_subscription_from_leaf, delete_cleans_up_empty_leaf_node,
  delete_cleans_up_empty_intermediate_nodes, delete_updates_wildcard_single_flag_on_parent,
  delete_updates_wildcard_multi_flag_on_parent, delete_of_nonexistent_key_is_noop,
  delete_leaves_sibling_intact,
}

insert_passes :
    (insert_single_segment_creates_child table ≡ some true)
    × (insert_multi_segment_creates_nested_children table ≡ some true)
    × (insert_leaf_node_contains_subscription table ≡ some true)
    × (insert_wildcard_single_wildcard_sets_flag_on_parent table ≡ some true)
    × (insert_wildcard_multi_sets_flag_on_parent table ≡ some true)
    × (insert_two_subscribers_same_topic table ≡ some true)
    × (insert_shares_common_prefix_nodes table ≡ some true)
unfolding insert_single_segment_creates_child insert_multi_segment_creates_nested_children
    insert_leaf_node_contains_subscription insert_wildcard_single_wildcard_sets_flag_on_parent
    insert_wildcard_multi_sets_flag_on_parent insert_two_subscribers_same_topic
    insert_shares_common_prefix_nodes table inserted searched contains_key issued nth lookup insert
    remove key_eq bytes_eq Registry.new Registry.insert Registry.search Registry.delete
insert_passes = (refl, refl, refl, refl, refl, refl, refl)

search_passes :
    (search_exact_match_returns_subscriber table ≡ some true)
    × (search_no_match_returns_empty table ≡ some true)
    × (search_single_wildcard_matches_one_segment table ≡ some true)
    × (search_single_wildcard_does_not_match_wrong_depth table ≡ some true)
    × (search_multi_wildcard_matches_remaining_segments table ≡ some true)
    × (search_multi_wildcard_matches_zero_remaining_segments table ≡ some true)
    × (search_root_multi_wildcard_matches_any_topic table ≡ some true)
    × (search_returns_all_matching_subscribers table ≡ some true)
    × (search_non_matching_sibling_not_returned table ≡ some true)
unfolding search_exact_match_returns_subscriber search_no_match_returns_empty
    search_single_wildcard_matches_one_segment search_single_wildcard_does_not_match_wrong_depth
    search_multi_wildcard_matches_remaining_segments
    search_multi_wildcard_matches_zero_remaining_segments
    search_root_multi_wildcard_matches_any_topic search_returns_all_matching_subscribers
    search_non_matching_sibling_not_returned table inserted searched contains_key issued nth lookup
    insert remove key_eq bytes_eq Registry.new Registry.insert Registry.search Registry.delete
search_passes = (refl, refl, refl, refl, refl, refl, refl, refl, refl)

delete_passes :
    (delete_removes_subscription_from_leaf table ≡ some true)
    × (delete_cleans_up_empty_leaf_node table ≡ some true)
    × (delete_cleans_up_empty_intermediate_nodes table ≡ some true)
    × (delete_updates_wildcard_single_flag_on_parent table ≡ some true)
    × (delete_updates_wildcard_multi_flag_on_parent table ≡ some true)
    × (delete_of_nonexistent_key_is_noop table ≡ some true)
    × (delete_leaves_sibling_intact table ≡ some true)
unfolding delete_removes_subscription_from_leaf delete_cleans_up_empty_leaf_node
    delete_cleans_up_empty_intermediate_nodes delete_updates_wildcard_single_flag_on_parent
    delete_updates_wildcard_multi_flag_on_parent delete_of_nonexistent_key_is_noop
    delete_leaves_sibling_intact table inserted searched contains_key issued nth lookup insert
    remove key_eq bytes_eq Registry.new Registry.insert Registry.search Registry.delete
delete_passes = (refl, refl, refl, refl, refl, refl, refl)
