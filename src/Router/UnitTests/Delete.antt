-- ===== src/Router/UnitTests/Delete.antt =====
-- The unit tests of crates/server/src/router.rs on `delete`.
use ocypode.Prelude.{Bool, not, ◌==◌, ◌&&◌, Option, some, bytes_eq, codes, length}
use ocypode.Identity.{issued}
use ocypode.Router.{
  children, level, subscription_map, has_wildcard_single, has_wildcard_multi, ◌>>=◌,
}
use ocypode.Router.Registry
use ocypode.Router.Registry.{DashMap}
use ocypode.Router.UnitTests.{
  child, child_count, contains_key, has_no_children, inserted, subscription_key,
}

module _ (D : DashMap) where
  unfoldable pub delete_removes_subscription_from_leaf : Option Bool
  delete_removes_subscription_from_leaf = do
    r1 ← inserted D (issued 0) 1 (codes "a/b") (Registry.new D)
    r2 ← inserted D (issued 1) 2 (codes "a/b") r1
    after ← Registry.delete D (subscription_key (issued 0) 1) r2
    level1 ← child 0 after.root
    leaf ← child 0 level1
    some (
        not (contains_key (subscription_key (issued 0) 1) leaf)
        && (length (subscription_map leaf) == 1))

  unfoldable pub delete_cleans_up_empty_leaf_node : Option Bool
  delete_cleans_up_empty_leaf_node = do
    r1 ← inserted D (issued 0) 1 (codes "a") (Registry.new D)
    after ← Registry.delete D (subscription_key (issued 0) 1) r1
    some (has_no_children (children after.root))

  unfoldable pub delete_cleans_up_empty_intermediate_nodes : Option Bool
  delete_cleans_up_empty_intermediate_nodes = do
    r1 ← inserted D (issued 0) 1 (codes "a/b/c") (Registry.new D)
    after ← Registry.delete D (subscription_key (issued 0) 1) r1
    some (has_no_children (children after.root))

  unfoldable pub delete_updates_wildcard_single_flag_on_parent : Option Bool
  delete_updates_wildcard_single_flag_on_parent = do
    r1 ← inserted D (issued 0) 1 (codes "a/+/c") (Registry.new D)
    level1 ← child 0 r1.root
    after ← Registry.delete D (subscription_key (issued 0) 1) r1
    some (has_wildcard_single level1 && has_no_children (children after.root))

  unfoldable pub delete_updates_wildcard_multi_flag_on_parent : Option Bool
  delete_updates_wildcard_multi_flag_on_parent = do
    r1 ← inserted D (issued 0) 1 (codes "a/#") (Registry.new D)
    level1 ← child 0 r1.root
    after ← Registry.delete D (subscription_key (issued 0) 1) r1
    some (has_wildcard_multi level1 && has_no_children (children after.root))

  unfoldable pub delete_of_nonexistent_key_is_noop : Option Bool
  delete_of_nonexistent_key_is_noop = do
    r1 ← inserted D (issued 0) 1 (codes "a/b") (Registry.new D)
    children_before ← child_count r1.root
    after ← Registry.delete D (subscription_key (issued 1) 99) r1
    count ← child_count after.root
    some (count == children_before)

  unfoldable pub delete_leaves_sibling_intact : Option Bool
  delete_leaves_sibling_intact = do
    r1 ← inserted D (issued 0) 1 (codes "a/b") (Registry.new D)
    r2 ← inserted D (issued 1) 2 (codes "a/c") r1
    after ← Registry.delete D (subscription_key (issued 0) 1) r2
    level1 ← child 0 after.root
    count ← child_count level1
    first ← child 0 level1
    some ((count == 1) && bytes_eq (level first) (codes "c"))
