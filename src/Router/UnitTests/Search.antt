-- ===== src/Router/UnitTests/Search.antt =====
-- The unit tests of crates/server/src/router.rs on `search`.
use ocypode.Prelude.{Bool, ◌==◌, ◌&&◌, Option, some, codes, length}
use ocypode.Identity.{issued}
use ocypode.Router.{◌>>=◌}
use ocypode.Router.Registry
use ocypode.Router.Registry.{DashMap}
use ocypode.Router.UnitTests.{first_is, inserted, searched}

module _ (D : DashMap) where
  unfoldable pub search_exact_match_returns_subscriber : Option Bool
  search_exact_match_returns_subscriber = do
    r1 ← inserted D (issued 0) 1 (codes "a/b") (Registry.new D)
    found ← searched D (codes "a/b") r1
    some ((length found == 1) && first_is (issued 0) found)

  unfoldable pub search_no_match_returns_empty : Option Bool
  search_no_match_returns_empty = do
    r1 ← inserted D (issued 0) 1 (codes "a/b") (Registry.new D)
    found ← searched D (codes "a/c") r1
    some (length found == 0)

  unfoldable pub search_single_wildcard_matches_one_segment : Option Bool
  search_single_wildcard_matches_one_segment = do
    r1 ← inserted D (issued 0) 1 (codes "a/+/c") (Registry.new D)
    found ← searched D (codes "a/b/c") r1
    some ((length found == 1) && first_is (issued 0) found)

  unfoldable pub search_single_wildcard_does_not_match_wrong_depth : Option Bool
  search_single_wildcard_does_not_match_wrong_depth = do
    r1 ← inserted D (issued 0) 1 (codes "a/+/c") (Registry.new D)
    found ← searched D (codes "a/c") r1
    some (length found == 0)

  unfoldable pub search_multi_wildcard_matches_remaining_segments : Option Bool
  search_multi_wildcard_matches_remaining_segments = do
    r1 ← inserted D (issued 0) 1 (codes "a/#") (Registry.new D)
    found ← searched D (codes "a/b/c") r1
    some ((length found == 1) && first_is (issued 0) found)

  unfoldable pub search_multi_wildcard_matches_zero_remaining_segments : Option Bool
  search_multi_wildcard_matches_zero_remaining_segments = do
    r1 ← inserted D (issued 0) 1 (codes "a/#") (Registry.new D)
    found ← searched D (codes "a") r1
    some ((length found == 1) && first_is (issued 0) found)

  unfoldable pub search_root_multi_wildcard_matches_any_topic : Option Bool
  search_root_multi_wildcard_matches_any_topic = do
    r1 ← inserted D (issued 0) 1 (codes "#") (Registry.new D)
    found ← searched D (codes "a/b/c") r1
    some ((length found == 1) && first_is (issued 0) found)

  unfoldable pub search_returns_all_matching_subscribers : Option Bool
  search_returns_all_matching_subscribers = do
    r1 ← inserted D (issued 0) 1 (codes "a/b") (Registry.new D)
    r2 ← inserted D (issued 1) 2 (codes "a/+") r1
    r3 ← inserted D (issued 2) 3 (codes "a/#") r2
    found ← searched D (codes "a/b") r3
    some (length found == 3)

  unfoldable pub search_non_matching_sibling_not_returned : Option Bool
  search_non_matching_sibling_not_returned = do
    r1 ← inserted D (issued 0) 1 (codes "x/y") (Registry.new D)
    r2 ← inserted D (issued 1) 2 (codes "a/b") r1
    found ← searched D (codes "a/b") r2
    some ((length found == 1) && first_is (issued 1) found)
