-- ===== src/Router/Delivery.antt =====
-- `Router::search` below the router: `collect_node` and the loop over the stack of nodes. The order
-- in which a `HashMap` is walked is that of its association list.
use ocypode.Prelude.{
  ℕ, zero, suc, ◌+◌, Bool, true, false, ◌||◌, Option, none, some, List, [], ◌∷◌, ◌++◌, map,
  if◌then◌else◌, Bytes, bytes_eq,
}
use ocypode.Topic.{wildcard_single, wildcard_multi}
use ocypode.Router.{
  Entry, SubscriptionResponse, SubscriptionKey, SubscriptionMap, Node, Children, Nodes, node,
  absent, present, nil, cons, level, children, find,
}

-- A stack, its top first.
abbrev pub Stack : Type 0 → Type 0
Stack S = List (Node S × List Bytes)

module _ {S : Type 0} where
  abbrev pub entry : SubscriptionKey × S → Entry S
  entry (key, tx) = (key.client_id, record { subscription_id = key.subscription_id; tx = tx })

  abbrev pub group_entries : Bytes × SubscriptionMap S → List (Entry S)
  group_entries (name, group) = map entry group

  -- Appends what the node holds to the two lists.
  unfoldable pub collect_node : Node S → SubscriptionResponse S → SubscriptionResponse S
  collect_node (node l subs groups ch single multi) acc = record {
    subscription_list = acc.subscription_list ++ map entry subs;
    queue_group_list = acc.queue_group_list ++ map group_entries groups;
  }

  -- The `#` child, if the flag of its parent is set and it is there.
  unfoldable pub collect_multi : Node S → SubscriptionResponse S → SubscriptionResponse S
  unfolding collect_node find
  collect_multi (node l subs groups (present ns) single true) acc = elim (find wildcard_multi ns) [
    | none ↦ acc
    | some child ↦ collect_node child acc
  ]
  collect_multi (node l subs groups absent single true) acc = acc
  collect_multi (node l subs groups ch single false) acc = acc

  abbrev pub is_match : Bytes → Node S → Bool
  is_match segment child = bytes_eq (level child) segment || bytes_eq (level child) wildcard_single

  unfoldable pub push_matching : Bytes → List Bytes → Nodes S → Stack S → Stack S
  push_matching segment rest nil stack = stack
  push_matching segment rest (cons child ns) stack =
      push_matching segment rest ns
        (if is_match segment child then (child, rest) ∷ stack else stack)

  unfoldable pub push_children : Bytes → List Bytes → Children S → Stack S → Stack S
  unfolding push_matching
  push_children segment rest absent stack = stack
  push_children segment rest (present ns) stack = push_matching segment rest ns stack

  -- One round of the loop, behind the pop: the lists, and the stack.
  unfoldable pub visit :
      Node S → List Bytes → Stack S → SubscriptionResponse S → SubscriptionResponse S × Stack S
  unfolding collect_multi collect_node push_children
  visit n [] stack acc = (collect_node n (collect_multi n acc), stack)
  visit n (segment ∷ rest) stack acc =
      (collect_multi n acc, push_children segment rest (children n) stack)

  -- `while let Some(…) = stack.pop()`, with fuel for its rounds; `none` means that it ran out.
  unfoldable pub search_loop :
      ℕ → Stack S → SubscriptionResponse S → Option (SubscriptionResponse S)
  unfolding visit
  search_loop fuel [] acc = some acc
  search_loop zero (top ∷ stack) acc = none
  search_loop (suc fuel) ((n, remaining) ∷ stack) acc =
      let (acc', stack') = visit n remaining stack acc in search_loop fuel stack' acc'

-- The number of nodes of a subtree, which bounds the rounds.
unfoldable mutual
  pub weight : {S : Type 0} → Node S → ℕ
  weight (node l subs groups ch single multi) = suc (weight_children ch)

  pub weight_children : {S : Type 0} → Children S → ℕ
  weight_children absent = 0
  weight_children (present ns) = weight_nodes ns

  pub weight_nodes : {S : Type 0} → Nodes S → ℕ
  weight_nodes nil = 0
  weight_nodes (cons n ns) = weight n + weight_nodes ns
