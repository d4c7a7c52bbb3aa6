-- ===== src/Router/UnitTests.antt =====
-- The unit tests at the end of crates/server/src/router.rs, for any map in the place of `DashMap`:
-- `some true` is a test that passes, and `none` one that panics. The senders are all alike, and the
-- identifiers are those of a counter that starts anew for each test.
mod Insert
mod Search
mod Delete
mod Passes
use ocypode.Prelude.{
  ℕ, Bool, true, false, ◌==◌, Option, none, some, List, [], ◌∷◌, Bytes, unwrapped, lookup,
}
use ocypode.Identity.{ClientId, issued}
use ocypode.Topic.{Topic, TopicFilter, new_topic, new_filter}
use ocypode.Router.{
  Entry, SubscriptionKey, SubscriptionMap, SubscriptionResponse, Node, Children, absent, present,
  nth, children, subscription_map, size_nodes, ◌>>=◌, key_eq, key_beq,
}
use ocypode.Router.Removal.{unwrap_children}
use ocypode.Router.Registry
use ocypode.Router.Registry.{DashMap, Router}

unfoldable pub make_filter : Bytes → Option TopicFilter
unfolding new_filter
make_filter s = unwrapped (new_filter s)

unfoldable pub make_topic : Bytes → Option Topic
unfolding new_topic
make_topic s = unwrapped (new_topic s)

abbrev pub subscription_key : ClientId → ℕ → SubscriptionKey
subscription_key client_id id = record { client_id = client_id; subscription_id = id }

-- `dummy_tx()`
abbrev pub Sender : Type 0
Sender = Unit {0}

-- `children.as_ref().unwrap()[i]` and `children.as_ref().unwrap().len()`
abbrev pub child : ℕ → Node Sender → Option (Node Sender)
child i n = unwrap_children (children n) >>= λ ns. nth ns i

abbrev pub child_count : Node Sender → Option ℕ
child_count n = unwrap_children (children n) >>= λ ns. some (size_nodes ns)

abbrev pub has_no_children : Children Sender → Bool
has_no_children absent = true
has_no_children (present _) = false

abbrev is_some : Option Sender → Bool
is_some none = false
is_some (some _) = true

-- `subscription_map.contains_key`
unfoldable pub contains_key : SubscriptionKey → Node Sender → Bool
unfolding lookup key_eq
contains_key key n = is_some (lookup key (subscription_map n))

abbrev pub first_is : ClientId → List (Entry Sender) → Bool
first_is client_id [] = false
first_is client_id ((found, _) ∷ _) = found.value == client_id.value

module _ (D : DashMap) where
  -- `router.insert(dummy_tx(), client_id, id, make_filter(s))`
  unfoldable pub inserted : ClientId → ℕ → Bytes → Router D Sender → Option (Router D Sender)
  unfolding make_filter Registry.insert
  inserted client_id id s r = make_filter s >>= λ f. Registry.insert D tt client_id id f r

  -- `router.search(&make_topic(s)).subscription_list`
  unfoldable pub searched : Bytes → Router D Sender → Option (List (Entry Sender))
  unfolding make_topic Registry.search
  searched s r = do
    topic ← make_topic s
    response ← Registry.search D topic r
    some response.subscription_list
