-- ===== src/Router/Fixtures.antt =====
-- An association list in the place of the `DashMap` of crates/server/src/router.rs.
use ocypode.Prelude.{List, [], refl, lookup, insert, remove, lookup-insert, lookup-remove}
use ocypode.Topic.{TopicFilter}
use ocypode.Router.{SubscriptionKey, key_eq}
use ocypode.Router.Registry.{DashMap}

unfoldable pub table : DashMap
unfolding lookup insert remove key_eq
table = record {
  Map = List (SubscriptionKey × TopicFilter);
  new = [];
  get = λ m k. lookup k m;
  insert = λ m k f. insert k f m;
  remove = λ m k. remove k m;
  get-new = λ k. refl;
  get-insert = λ m k j f. lookup-insert k j f m;
  get-remove = λ m k j. lookup-remove k j m;
}
