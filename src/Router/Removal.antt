-- ===== src/Router/Removal.antt =====
-- `Router::delete` below the router: the path of a filter, the removal at its end, and the pruning
-- of the nodes that it leaves empty, from the leaf up.
use ocypode.Prelude.{
  ℕ, zero, suc, Bool, true, false, ◌&&◌, Option, none, some, List, [], ◌∷◌, if◌then◌else◌, Bytes,
  bytes_eq, take, get_elem?, length, remove,
}
use ocypode.Topic.{wildcard_single, wildcard_multi, is_empty}
use ocypode.Router.{
  SubscriptionKey, key_eq, Node, Children, Nodes, node, absent, present, nil, cons, level, children,
  subscription_map, with_subscriptions, with_children, nth, set_nth, remove_nth, position,
  any_level, ◌>>=◌,
}

module _ {S : Type 0} where
  -- The indices of the children along the segments; `none` is the early return.
  unfoldable pub find_path : List Bytes → Node S → Option (List ℕ)
  unfolding position nth
  find_path [] n = some []
  find_path (s ∷ segments) (node l subs groups absent single multi) = none
  find_path (s ∷ segments) (node l subs groups (present ns) single multi) = do
    i ← position s ns
    child ← nth ns i
    path ← find_path segments child
    some (i ∷ path)

  abbrev pub unwrap_children : Children S → Option (Nodes S)
  unwrap_children absent = none
  unwrap_children (present ns) = some ns

  -- Follows the indices with `children.as_mut().unwrap()[idx]`, and works on the node at the end.
  unfoldable pub modify_at :
      {A : Type 0} → List ℕ → (Node S → Option (Node S × A)) → Node S → Option (Node S × A)
  unfolding nth set_nth
  modify_at [] work n = work n
  modify_at (i ∷ path) work n = do
    ns ← unwrap_children (children n)
    child ← nth ns i
    (child', result) ← modify_at path work child
    some (with_children (present (set_nth ns i child')) n, result)

  unfoldable pub remove_key : SubscriptionKey → Node S → Option (Node S × Unit {0})
  unfolding remove key_eq
  remove_key key n = some (with_subscriptions (remove key (subscription_map n)) n, tt)

  -- No subscription, no queue group, no list of children.
  unfoldable pub is_unused : Node S → Bool
  is_unused (node l subs groups absent single multi) = is_empty subs && is_empty groups
  is_unused (node l subs groups (present ns) single multi) = false

  abbrev pub or_absent : Nodes S → Children S
  or_absent nil = absent
  or_absent (cons n ns) = present (cons n ns)

  -- The parent without the child that had the level `removed`.
  unfoldable pub without_child : Bytes → Nodes S → Node S → Node S
  unfolding any_level
  without_child removed ns (node l subs groups ch single multi) =
      if bytes_eq removed wildcard_single
      then node l subs groups (or_absent ns) (any_level wildcard_single ns) multi
      else if bytes_eq removed wildcard_multi
      then node l subs groups (or_absent ns) single (any_level wildcard_multi ns)
      else node l subs groups (or_absent ns) single multi

  -- One round of the pruning loop at the parent, and whether it removed the child.
  unfoldable pub prune_child : ℕ → Node S → Option (Node S × Bool)
  unfolding nth remove_nth is_unused without_child
  prune_child i n = do
    ns ← unwrap_children (children n)
    child ← nth ns i
    if is_unused child
        then some (without_child (level child) (remove_nth ns i) n, true)
        else some (n, false)

  -- `for depth in (0..path.len()).rev()`, and whether it came to its end without `break`.
  unfoldable pub prune_loop : ℕ → List ℕ → Node S → Option (Node S × Bool)
  unfolding modify_at prune_child
  prune_loop zero path root = some (root, true)
  prune_loop (suc depth) path root = do
    i ← get_elem? path depth
    (root', removed) ← modify_at (take depth path) (prune_child i) root
    let rest = prune_loop depth path root'
    if removed then rest else some (root', false)

  -- The trie without the key at the end of a path that `find_path` has found.
  unfoldable pub delete_at : List ℕ → SubscriptionKey → Node S → Option (Node S)
  unfolding modify_at remove_key prune_loop
  delete_at path key root = do
    (root', done) ← modify_at path (remove_key key) root
    (root'', ended) ← prune_loop (length path) path root'
    some root''
