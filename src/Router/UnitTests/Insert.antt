-- ===== src/Router/UnitTests/Insert.antt =====
-- The unit tests of crates/server/src/router.rs on `insert`.
use ocypode.Prelude.{Bool, ◌==◌, ◌&&◌, Option, some, bytes_eq, codes, length}
use ocypode.Identity.{issued}
use ocypode.Router.{level, subscription_map, has_wildcard_single, has_wildcard_multi, ◌>>=◌}
use ocypode.Router.Registry
use ocypode.Router.Registry.{DashMap}
use ocypode.Router.UnitTests.{child, child_count, contains_key, inserted, subscription_key}

module _ (D : DashMap) where
  unfoldable pub insert_single_segment_creates_child : Option Bool
  insert_single_segment_creates_child = do
    r1 ← inserted D (issued 0) 1 (codes "a") (Registry.new D)
    count ← child_count r1.root
    some (count == 1)

  unfoldable pub insert_multi_segment_creates_nested_children : Option Bool
  insert_multi_segment_creates_nested_children = do
    r1 ← inserted D (issued 0) 1 (codes "a/b/c") (Registry.new D)
    level1 ← child 0 r1.root
    level2 ← child 0 level1
    level3 ← child 0 level2
    some (
        bytes_eq (level level1) (codes "a")
        && bytes_eq (level level2) (codes "b")
        && bytes_eq (level level3) (codes "c"))

  unfoldable pub insert_leaf_node_contains_subscription : Option Bool
  insert_leaf_node_contains_subscription = do
    r1 ← inserted D (issued 0) 7 (codes "a/b") (Registry.new D)
    level1 ← child 0 r1.root
    leaf ← child 0 level1
    some (contains_key (subscription_key (issued 0) 7) leaf)

  unfoldable pub insert_wildcard_single_wildcard_sets_flag_on_parent : Option Bool
  insert_wildcard_single_wildcard_sets_flag_on_parent = do
    r1 ← inserted D (issued 0) 1 (codes "a/+/c") (Registry.new D)
    level1 ← child 0 r1.root
    some (has_wildcard_single level1)

  unfoldable pub insert_wildcard_multi_sets_flag_on_parent : Option Bool
  insert_wildcard_multi_sets_flag_on_parent = do
    r1 ← inserted D (issued 0) 1 (codes "a/#") (Registry.new D)
    level1 ← child 0 r1.root
    some (has_wildcard_multi level1)

  unfoldable pub insert_two_subscribers_same_topic : Option Bool
  insert_two_subscribers_same_topic = do
    r1 ← inserted D (issued 0) 1 (codes "a/b") (Registry.new D)
    r2 ← inserted D (issued 1) 2 (codes "a/b") r1
    level1 ← child 0 r2.root
    leaf ← child 0 level1
    some (length (subscription_map leaf) == 2)

  unfoldable pub insert_shares_common_prefix_nodes : Option Bool
  insert_shares_common_prefix_nodes = do
    r1 ← inserted D (issued 0) 1 (codes "a/b/c") (Registry.new D)
    r2 ← inserted D (issued 1) 2 (codes "a/b/d") r1
    level1 ← child 0 r2.root
    level2 ← child 0 level1
    count ← child_count r2.root
    count1 ← child_count level1
    count2 ← child_count level2
    some ((count == 1) && (count1 == 1) && (count2 == 2))
