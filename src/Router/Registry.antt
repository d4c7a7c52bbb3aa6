-- ===== src/Router/Registry.antt =====
-- `Router` and its operations. `DashMap`, of the dashmap crate, is a parameter with the laws of a
-- map; `Arc` only shares it.
use ocypode.Prelude.{ℕ, Option, none, some, List, [], ◌∷◌, ◌≡◌, if◌then◌else◌}
use ocypode.Identity.{ClientId}
use ocypode.Topic.{Topic, TopicFilter, segments_of}
use ocypode.Router.{SubscriptionResponse, SubscriptionKey, key_beq, Node, fresh, insert_at, ◌>>=◌}
use ocypode.Router.Delivery.{search_loop, weight}
use ocypode.Router.Removal.{find_path, delete_at}

pub record DashMap : Type 1 where
  pub Map : Type 0
  pub new : Map
  pub get : Map → SubscriptionKey → Option TopicFilter
  pub insert : Map → SubscriptionKey → TopicFilter → Map
  pub remove : Map → SubscriptionKey → Map
  pub get-new : (k : SubscriptionKey) → get new k ≡ none
  pub get-insert :
      (m : Map) (k j : SubscriptionKey) (f : TopicFilter)
      → get (insert m k f) j ≡ (if key_beq k j then some f else get m j)
  pub get-remove :
      (m : Map) (k j : SubscriptionKey)
      → get (remove m k) j ≡ (if key_beq k j then none else get m j)

pub record Router (D : DashMap) (S : Type 0) : Type 0 where
  pub root : Node S
  pub subscription_kv : D.Map

module _ (D : DashMap) {S : Type 0} where
  unfoldable pub new : Router D S
  new = record { root = fresh []; subscription_kv = D.new }

  -- `Router::insert`
  unfoldable pub insert : S → ClientId → ℕ → TopicFilter → Router D S → Option (Router D S)
  unfolding insert_at segments_of
  insert tx client_id subscription_id topic r = do
    let key : SubscriptionKey = record { client_id = client_id; subscription_id = subscription_id }
    root ← insert_at (segments_of topic.bytes) key tx r.root
    some (record { root = root; subscription_kv = D.insert r.subscription_kv key topic })

  -- `Router::search`; `none` would be fuel that ran out.
  unfoldable pub search : Topic → Router D S → Option (SubscriptionResponse S)
  unfolding search_loop segments_of weight
  search topic r =
      search_loop (weight r.root) ((r.root, segments_of topic.bytes) ∷ [])
        (record { subscription_list = []; queue_group_list = [] })

  abbrev after_path : SubscriptionKey → Router D S → Option (List ℕ) → Option (Router D S)
  after_path key r none = some r
  after_path key r (some path) = do
    root ← delete_at path key r.root
    some (record { root = root; subscription_kv = D.remove r.subscription_kv key })

  abbrev after_topic : SubscriptionKey → Router D S → Option TopicFilter → Option (Router D S)
  after_topic key r none = some r
  after_topic key r (some topic) = after_path key r (find_path (segments_of topic.bytes) r.root)

  -- `Router::delete`
  unfoldable pub delete : SubscriptionKey → Router D S → Option (Router D S)
  unfolding find_path delete_at segments_of
  delete key r = after_topic key r (D.get r.subscription_kv key)
