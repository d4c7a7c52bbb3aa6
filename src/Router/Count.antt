-- ===== src/Router/Count.antt =====
-- How often `Router::search` of crates/server/src/router.rs delivers under a key.
use ocypode.Prelude.{
  ℕ, zero, suc, ◌+◌, ◌≡◌, sym, ap, ap₂, ◌∙◌, some, List, [], ◌∷◌, ◌++◌, map, arith, Bytes,
  if◌then◌else◌,
}
use ocypode.Topic.{wildcard_multi}
use ocypode.Router.{
  SubscriptionKey, key_beq, Entry, SubscriptionResponse, Node, Nodes, nil, cons, children, nodes_of,
  subscription_map,
}
use ocypode.Router.Delivery.{
  entry, Stack, collect_node, is_match, push_matching, visit, search_loop,
}
use ocypode.Router.Paths.{at, WellFormed, WellFormed-IsSound}
use ocypode.Router.Matching.{key_of}
use ocypode.Router.Walk.{more, collect_node_lem, collect_multi_lem, AllWellFormed}
use ocypode.Router.Search.{push_children_lem, visit_lem}

module _ {S : Type 0} where
  -- How many entries have the key.
  abbrev pub occurs : SubscriptionKey → List (Entry S) → ℕ
  occurs k [] = 0
  occurs k (e ∷ es) = (if key_beq (key_of e) k then 1 else 0) + occurs k es

  pub occurs-append :
      (k : SubscriptionKey) (xs ys : List (Entry S))
      → occurs k (xs ++ ys) ≡ occurs k xs + occurs k ys
  occurs-append k [] ys = omega arith
  occurs-append k (e ∷ xs) ys = omega (arith, occurs-append k xs ys)

  -- The occurrences at the end of a path.
  abbrev pub held : SubscriptionKey → List Bytes → Node S → ℕ
  held k path n = occurs k (map entry (at path n))

  -- The sum over the children that match a segment.
  abbrev pub sum_matching : Bytes → (Node S → ℕ) → Nodes S → ℕ
  sum_matching t f nil = 0
  sum_matching t f (cons c ns) = (if is_match t c then f c else 0) + sum_matching t f ns

  -- What a walk from a node delivers under a key.
  abbrev pub deliveries : SubscriptionKey → List Bytes → Node S → ℕ
  deliveries k [] n = held k (wildcard_multi ∷ []) n + occurs k (map entry (subscription_map n))
  deliveries k (t ∷ rest) n =
      held k (wildcard_multi ∷ []) n
      + sum_matching t (λ c. deliveries k rest c) (nodes_of (children n))

  abbrev pending : SubscriptionKey → Stack S → ℕ
  pending k [] = 0
  pending k ((n, topic) ∷ stack) = deliveries k topic n + pending k stack

  pending-push_matching :
      (k : SubscriptionKey) (t : Bytes) (rest : List Bytes) (ns : Nodes S) (stack : Stack S)
      → pending k (push_matching t rest ns stack)
        ≡ sum_matching t (λ c. deliveries k rest c) ns + pending k stack
  unfolding push_matching
  pending-push_matching k t rest nil stack = omega arith
  pending-push_matching k t rest (cons c ns) stack =
      ground (
        arith,
        pending-push_matching k t rest ns (if is_match t c then (c, rest) ∷ stack else stack),
      )

  -- The entries and the pending deliveries, together.
  abbrev total : SubscriptionKey → SubscriptionResponse S × Stack S → ℕ
  total k (acc, stack) = occurs k acc.subscription_list + pending k stack

  total-visit :
      (k : SubscriptionKey) (n : Node S) (topic : List Bytes) (stack : Stack S)
      (acc : SubscriptionResponse S)
      → WellFormed n
      → total k (visit n topic stack acc) ≡ total k (acc, (n, topic) ∷ stack)
  unfolding visit
  total-visit k n [] stack acc w =
      ap (λ a. total k (a, stack))
        (ap (collect_node n) (collect_multi_lem n acc w)
          ∙ collect_node_lem n (more (map entry (at (wildcard_multi ∷ []) n)) acc)
              (WellFormed-IsSound w))
      ∙ omega (
        arith,
        occurs-append k (acc.subscription_list ++ map entry (at (wildcard_multi ∷ []) n))
            (map entry (subscription_map n)),
        occurs-append k acc.subscription_list (map entry (at (wildcard_multi ∷ []) n)),
      )
  total-visit k n (t ∷ rest) stack acc w =
      ap (total k) (
        ap₂ (λ a b. (a, b)) (collect_multi_lem n acc w)
          (push_children_lem t rest (children n) stack))
      ∙ omega (
        arith,
        occurs-append k acc.subscription_list (map entry (at (wildcard_multi ∷ []) n)),
        pending-push_matching k t rest (nodes_of (children n)) stack,
      )

  at_end :
      (k : SubscriptionKey) (acc found : SubscriptionResponse S)
      → some acc ≡ some found
      → occurs k found.subscription_list ≡ occurs k acc.subscription_list + 0
  at_end k acc found e =
      let p : acc ≡ found = cc e in ap (λ x. occurs k x.subscription_list) (sym p) ∙ omega arith

  -- Whatever the loop delivers was in the response before, or is a delivery of the stack.
  pub search_loop-total :
      (k : SubscriptionKey) (fuel : ℕ) (stack : Stack S) (acc found : SubscriptionResponse S)
      → AllWellFormed stack
      → search_loop fuel stack acc ≡ some found
      → occurs k found.subscription_list ≡ total k (acc, stack)
  unfolding search_loop
  search_loop-total k zero [] acc found w e = at_end k acc found e
  search_loop-total k (suc fuel) [] acc found w e = at_end k acc found e
  search_loop-total k zero (top ∷ stack) acc found w e = absurd cc
  search_loop-total k (suc fuel) ((n, topic) ∷ stack) acc found w e =
      let (acc', stack') = visit n topic stack acc in
      search_loop-total k fuel stack' acc' found (visit_lem n topic stack acc w.0 w.1).formed e
      ∙ total-visit k n topic stack acc w.0
