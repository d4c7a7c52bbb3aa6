-- ===== src/Router.antt =====
-- crates/server/src/router.rs: the trie of subscriptions. A `Sender<Bytes>` of tokio is a value of
-- the type `S`, which the router only stores and clones. `none` in the result of an operation is a
-- panic: an index out of range, or `unwrap` of a missing list of children.
pub mod Delivery
pub mod Removal
pub mod Registry
pub mod Levels
pub mod Paths
pub mod Insert
pub mod Pruning
pub mod Shrink
pub mod Reach
pub mod Delete
pub mod Missing
pub mod Matching
pub mod Walk
pub mod Search
pub mod Refinement
pub mod Coherence
pub mod Forget
pub mod Runs
pub mod Stale
pub mod Count
pub mod Sums
pub mod Sole
pub mod Once
pub mod Answers
mod Fixtures
mod UnitTests
mod Examples
use ocypode.Prelude.{
  ℕ, zero, suc, ◌+◌, ◌-◌, Bool, true, false, ◌&&◌, ◌||◌, Option, none, some, List, [], ◌∷◌, ◌++◌,
  map, ◌==◌, ◌≡◌, ◌↔◌, refl, arith, ==_iff, if◌then◌else◌, Bytes, bytes_eq, length, take, get_elem?,
  Eq, insert, remove,
}
use ocypode.Identity.{ClientId}
use ocypode.Topic.{Topic, TopicFilter, segments_of, wildcard_single, wildcard_multi, is_empty}

infixl 5 ◌>>=◌
abbrev pub ◌>>=◌ {ℓ κ} : {A : Type ℓ} {B : Type κ} → Option A → (A → Option B) → Option B
none >>= f = none
some a >>= f = f a

pub record Subscription (S : Type 0) : Type 0 where
  pub subscription_id : ℕ
  pub tx : S

abbrev pub Entry : Type 0 → Type 0
Entry S = ClientId × Subscription S

pub record SubscriptionResponse (S : Type 0) : Type 0 where
  pub subscription_list : List (Entry S)
  pub queue_group_list : List (List (Entry S))

pub record SubscriptionKey : Type 0 where
  pub client_id : ClientId
  pub subscription_id : ℕ

pub key_beq : SubscriptionKey → SubscriptionKey → Bool
key_beq a b = (a.client_id.value == b.client_id.value) && (a.subscription_id == b.subscription_id)

pub key_beq_iff : (a b : SubscriptionKey) → (key_beq a b ≡ true) ↔ (a ≡ b)
unfolding key_beq
key_beq_iff a b = ground arith

instance unfoldable pub key_eq : Eq SubscriptionKey
unfolding key_beq
key_eq = record { beq = key_beq; beq_iff = key_beq_iff }

abbrev pub SubscriptionMap : Type 0 → Type 0
SubscriptionMap S = List (SubscriptionKey × S)

abbrev pub QueueGroupMap : Type 0 → Type 0
QueueGroupMap S = List (Bytes × SubscriptionMap S)

-- `struct Node`; its fields in the source's order. `Children` is `Option<Vec<Node>>`.
mutual
  pub data Node (S : Type 0) : Type 0 where
    node : Bytes → SubscriptionMap S → QueueGroupMap S → Children S → Bool → Bool → Node S

  pub data Children (S : Type 0) : Type 0 where
    absent : Children S
    present : Nodes S → Children S

  pub data Nodes (S : Type 0) : Type 0 where
    nil : Nodes S
    cons : Node S → Nodes S → Nodes S

abbrev pub next_index : Option ℕ → Option ℕ
next_index none = none
next_index (some i) = some (suc i)

module _ {S : Type 0} where
  abbrev pub level : Node S → Bytes
  level (node l subs groups ch single multi) = l

  abbrev pub subscription_map : Node S → SubscriptionMap S
  subscription_map (node l subs groups ch single multi) = subs

  abbrev pub children : Node S → Children S
  children (node l subs groups ch single multi) = ch

  abbrev pub has_wildcard_single : Node S → Bool
  has_wildcard_single (node l subs groups ch single multi) = single

  abbrev pub has_wildcard_multi : Node S → Bool
  has_wildcard_multi (node l subs groups ch single multi) = multi

  abbrev pub with_subscriptions : SubscriptionMap S → Node S → Node S
  with_subscriptions subs (node l _ groups ch single multi) = node l subs groups ch single multi

  abbrev pub with_children : Children S → Node S → Node S
  with_children ch (node l subs groups _ single multi) = node l subs groups ch single multi

  -- `Node::default()` with its level.
  abbrev pub fresh : Bytes → Node S
  fresh l = node l [] [] absent false false

  -- Vectors of nodes.
  abbrev pub size_nodes : Nodes S → ℕ
  size_nodes nil = 0
  size_nodes (cons n ns) = suc (size_nodes ns)

  unfoldable pub nth : Nodes S → ℕ → Option (Node S)
  nth nil i = none
  nth (cons n ns) zero = some n
  nth (cons n ns) (suc i) = nth ns i

  unfoldable pub set_nth : Nodes S → ℕ → Node S → Nodes S
  set_nth nil i c = nil
  set_nth (cons n ns) zero c = cons c ns
  set_nth (cons n ns) (suc i) c = cons n (set_nth ns i c)

  unfoldable pub remove_nth : Nodes S → ℕ → Nodes S
  remove_nth nil i = nil
  remove_nth (cons n ns) zero = ns
  remove_nth (cons n ns) (suc i) = cons n (remove_nth ns i)

  unfoldable pub push : Nodes S → Node S → Nodes S
  push nil c = cons c nil
  push (cons n ns) c = cons n (push ns c)

  -- `iter().position`, `iter().find` and `iter().any`, on the level.
  unfoldable pub position : Bytes → Nodes S → Option ℕ
  position s nil = none
  position s (cons n ns) =
      let later = position s ns in if bytes_eq (level n) s then some 0 else next_index later

  unfoldable pub find : Bytes → Nodes S → Option (Node S)
  find s nil = none
  find s (cons n ns) = if bytes_eq (level n) s then some n else find s ns

  unfoldable pub any_level : Bytes → Nodes S → Bool
  any_level s nil = false
  any_level s (cons n ns) = bytes_eq (level n) s || any_level s ns

  abbrev pub nodes_of : Children S → Nodes S
  nodes_of absent = nil
  nodes_of (present ns) = ns

  -- Sets the wildcard flag of the parent for a segment below it.
  unfoldable pub set_flag : Bytes → Node S → Node S
  set_flag s (node l subs groups ch single multi) =
      if bytes_eq s wildcard_single
      then node l subs groups ch true multi
      else if bytes_eq s wildcard_multi
      then node l subs groups ch single true
      else node l subs groups ch single multi

  abbrev found_or_pushed : Bytes → Nodes S → Option ℕ → Nodes S × ℕ
  found_or_pushed s ns (some pos) = (ns, pos)
  found_or_pushed s ns none = let ns' = push ns (fresh s) in (ns', size_nodes ns' - 1)

  -- The index of the child for a segment, which is pushed if it is missing.
  unfoldable pub child_index : Bytes → Nodes S → Nodes S × ℕ
  unfolding position push
  child_index s ns = found_or_pushed s ns (position s ns)

  -- The loop of `Router::insert` over the segments, and the write at its end.
  unfoldable pub insert_at : List Bytes → SubscriptionKey → S → Node S → Option (Node S)
  unfolding set_flag child_index nth set_nth insert key_eq
  insert_at [] key tx n = some (with_subscriptions (insert key tx (subscription_map n)) n)
  insert_at (s ∷ segments) key tx n = do
    let (ns, i) = child_index s (nodes_of (children n))
    child ← nth ns i
    child' ← insert_at segments key tx child
    some (with_children (present (set_nth ns i child')) (set_flag s n))
