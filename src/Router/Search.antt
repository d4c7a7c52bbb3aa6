-- ===== src/Router/Search.antt =====
-- The loop of `Router::search`, its fuel, and `Delivers`.
use ocypode.Prelude.{
  ℕ, zero, suc, ◌+◌, ◌≤◌, ◌<◌, ◌≡◌, refl, sym, ap, ap₂, ◌∙◌, subst, ◌⊎◌, inl, inr, ◌↔◌, some, List,
  [], ◌∷◌, ◌++◌, map, arith, Bytes, In, In-append,
}
use ocypode.Router.{
  Entry, SubscriptionResponse, Node, Children, node, absent, present, level, children, nodes_of,
  subscription_map,
}
use ocypode.Router.Delivery.{
  entry, Stack, collect_node, push_matching, push_children, visit, search_loop, weight,
  weight_nodes,
}
use ocypode.Topic.{wildcard_multi}
use ocypode.Router.Levels.{Distinct}
use ocypode.Router.Paths.{at, WellFormed, WellFormed-IsSound, WellFormed-child}
use ocypode.Router.Matching.{Delivers, AtMulti, Delivers-nil, Delivers-cons, InNodes, InNodes-find}
use ocypode.Router.Walk.{
  more, collect_node_lem, collect_multi_lem, Pending, AllWellFormed, stack_weight,
  push_matching_out, push_matching_in, push_matching-AllWellFormed, push_matching_weight,
  Pushes-DeliversBelow,
}

module _ {S : Type 0} where
  -- Delivered already, or still to be delivered.
  abbrev pub Found : Entry S → SubscriptionResponse S × Stack S → Type 0
  Found e (acc, stack) = In e acc.subscription_list ⊎ Pending e stack

  -- What a round keeps: the entries to deliver, the groups, and the form of the nodes.
  pub record Kept (n : Node S) (topic : List Bytes) (stack : Stack S) (acc : SubscriptionResponse S)
      (after : SubscriptionResponse S × Stack S) : Type 0 where
    pub out : (e : Entry S) → Found e after → Found e (acc, (n, topic) ∷ stack)
    pub back : (e : Entry S) → Found e (acc, (n, topic) ∷ stack) → Found e after
    pub groups : after.0.queue_group_list ≡ acc.queue_group_list
    pub formed : AllWellFormed after.1
    pub lighter : stack_weight after.1 < weight n + stack_weight stack

  weight_lem : (n : Node S) → weight n ≡ suc (weight_nodes (nodes_of (children n)))
  weight_lem (node l subs groups absent single multi) = unfold weight weight_nodes in refl
  weight_lem (node l subs groups (present ns) single multi) = unfold weight weight_nodes in refl

  pub push_children_lem :
      (t : Bytes) (rest : List Bytes) (ch : Children S) (stack : Stack S)
      → push_children t rest ch stack ≡ push_matching t rest (nodes_of ch) stack
  push_children_lem t rest absent stack = unfold push_children in refl
  push_children_lem t rest (present ns) stack = unfold push_children in refl

  Kept-nil :
      (n : Node S) (stack : Stack S) (acc : SubscriptionResponse S)
      → AllWellFormed stack
      → Kept n [] stack acc (
        more (map entry (subscription_map n)) (more (map entry (at (wildcard_multi ∷ []) n)) acc),
        stack,
      )
  Kept-nil n stack acc ws = record {
    out = λ e. out e;
    back = λ e. back e;
    groups = refl;
    formed = ws;
    lighter = omega (arith, weight_lem n);
  }
    where
      starred : List (Entry S)
      starred = map entry (at (wildcard_multi ∷ []) n)

      own : List (Entry S)
      own = map entry (subscription_map n)

      out :
          (e : Entry S)
          → In e ((acc.subscription_list ++ starred) ++ own) ⊎ Pending e stack
          → In e acc.subscription_list ⊎ (Delivers n [] e ⊎ Pending e stack)
      out e (inr p) = inr (inr p)
      out e (inl i) = elim ((In-append e (acc.subscription_list ++ starred) own).0 i) [
        | inr j ↦ inr (inl ((Delivers-nil n e).1 (inr j)))
        | inl k ↦ elim ((In-append e acc.subscription_list starred).0 k) [
          | inl j ↦ inl j
          | inr j ↦ inr (inl ((Delivers-nil n e).1 (inl j)))
        ]
      ]

      added :
          (e : Entry S)
          → In e acc.subscription_list ⊎ (AtMulti n e ⊎ In e own)
          → In e ((acc.subscription_list ++ starred) ++ own)
      added e (inl i) =
          (In-append e (acc.subscription_list ++ starred) own).1
            (inl ((In-append e acc.subscription_list starred).1 (inl i)))
      added e (inr (inl i)) =
          (In-append e (acc.subscription_list ++ starred) own).1
            (inl ((In-append e acc.subscription_list starred).1 (inr i)))
      added e (inr (inr i)) = (In-append e (acc.subscription_list ++ starred) own).1 (inr i)

      back :
          (e : Entry S)
          → In e acc.subscription_list ⊎ (Delivers n [] e ⊎ Pending e stack)
          → In e ((acc.subscription_list ++ starred) ++ own) ⊎ Pending e stack
      back e (inl i) = inl (added e (inl i))
      back e (inr (inl d)) = inl (added e (inr ((Delivers-nil n e).0 d)))
      back e (inr (inr p)) = inr p

  visit_nil :
      (n : Node S) (stack : Stack S) (acc : SubscriptionResponse S)
      → WellFormed n
      → AllWellFormed stack
      → Kept n [] stack acc (visit n [] stack acc)
  unfolding visit
  visit_nil n stack acc w ws =
      let starred = collect_multi_lem n acc w in
      let own =
        collect_node_lem n (more (map entry (at (wildcard_multi ∷ []) n)) acc)
          (WellFormed-IsSound w) in
      subst (λ r. Kept n [] stack acc (r, stack)) (sym (ap (collect_node n) starred ∙ own))
        (Kept-nil n stack acc ws)

  Kept-cons :
      (n : Node S) (t : Bytes) (rest : List Bytes) (stack : Stack S) (acc : SubscriptionResponse S)
      → WellFormed n
      → AllWellFormed stack
      → Kept n (t ∷ rest) stack acc (
        more (map entry (at (wildcard_multi ∷ []) n)) acc,
        push_matching t rest (nodes_of (children n)) stack,
      )
  Kept-cons n t rest stack acc w ws = record {
    out = λ e. out e;
    back = λ e. back e;
    groups = refl;
    formed = push_matching-AllWellFormed t rest (nodes_of (children n)) stack child ws;
    lighter =
        omega (arith, weight_lem n, push_matching_weight t rest (nodes_of (children n)) stack);
  }
    where
      distinct : Distinct (nodes_of (children n))
      distinct = (WellFormed-IsSound w).distinct

      child : (c : Node S) → InNodes c (nodes_of (children n)) → WellFormed c
      child c i = WellFormed-child w (level c) c (InNodes-find (nodes_of (children n)) c distinct i)

      starred : List (Entry S)
      starred = map entry (at (wildcard_multi ∷ []) n)

      out :
          (e : Entry S)
          → In e (acc.subscription_list ++ starred)
            ⊎ Pending e (push_matching t rest (nodes_of (children n)) stack)
          → In e acc.subscription_list ⊎ (Delivers n (t ∷ rest) e ⊎ Pending e stack)
      out e (inl i) = elim ((In-append e acc.subscription_list starred).0 i) [
        | inl j ↦ inl j
        | inr j ↦ inr (inl ((Delivers-cons n t rest e).1 (inl j)))
      ]
      out e (inr p) = elim (push_matching_out t rest (nodes_of (children n)) stack e p) [
        | inl q ↦ inr (inr q)
        | inr q ↦ inr (
            inl
              ((Delivers-cons n t rest e).1 (inr ((Pushes-DeliversBelow n t rest e distinct).0 q))))
      ]

      back :
          (e : Entry S)
          → In e acc.subscription_list ⊎ (Delivers n (t ∷ rest) e ⊎ Pending e stack)
          → In e (acc.subscription_list ++ starred)
            ⊎ Pending e (push_matching t rest (nodes_of (children n)) stack)
      back e (inl i) = inl ((In-append e acc.subscription_list starred).1 (inl i))
      back e (inr (inr p)) = inr (push_matching_in t rest (nodes_of (children n)) stack e (inl p))
      back e (inr (inl d)) = elim ((Delivers-cons n t rest e).0 d) [
        | inl j ↦ inl ((In-append e acc.subscription_list starred).1 (inr j))
        | inr q ↦ inr (
            push_matching_in t rest (nodes_of (children n)) stack e
              (inr ((Pushes-DeliversBelow n t rest e distinct).1 q)))
      ]

  visit_cons :
      (n : Node S) (t : Bytes) (rest : List Bytes) (stack : Stack S) (acc : SubscriptionResponse S)
      → WellFormed n
      → AllWellFormed stack
      → Kept n (t ∷ rest) stack acc (visit n (t ∷ rest) stack acc)
  unfolding visit
  visit_cons n t rest stack acc w ws =
      subst (Kept n (t ∷ rest) stack acc)
        (sym (
          ap₂ (λ a b. (a, b)) (collect_multi_lem n acc w)
            (push_children_lem t rest (children n) stack)))
        (Kept-cons n t rest stack acc w ws)

  pub visit_lem :
      (n : Node S) (topic : List Bytes) (stack : Stack S) (acc : SubscriptionResponse S)
      → WellFormed n
      → AllWellFormed stack
      → Kept n topic stack acc (visit n topic stack acc)
  visit_lem n [] stack acc w ws = visit_nil n stack acc w ws
  visit_lem n (t ∷ rest) stack acc w ws = visit_cons n t rest stack acc w ws

  -- With as much fuel as there are nodes below the stack, the loop ends with the entries that were
  -- there and those that the stack delivers, and with no further queue group.
  pub search_loop_lem :
      (fuel : ℕ) (stack : Stack S) (acc : SubscriptionResponse S)
      → AllWellFormed stack
      → stack_weight stack ≤ fuel
      → (found : SubscriptionResponse S) × (search_loop fuel stack acc ≡ some found)
        × (found.queue_group_list ≡ acc.queue_group_list)
        × ((e : Entry S) → In e found.subscription_list ↔ Found e (acc, stack))
  unfolding search_loop
  search_loop_lem fuel [] acc w h =
      (acc, loop_nil fuel, refl, λ e. (λ i. inl i, λ f. elim f [ inl i ↦ i | inr p ↦ absurd p ]))
    where
      loop_nil : (fuel : ℕ) → search_loop fuel [] acc ≡ some acc
      loop_nil zero = refl
      loop_nil (suc fuel) = refl
  search_loop_lem zero ((n, topic) ∷ stack) acc w h = absurd (omega (arith, weight_lem n))
  search_loop_lem (suc fuel) ((n, topic) ∷ stack) acc w h =
      let kept = visit_lem n topic stack acc w.0 w.1 in
      let (acc', stack') = visit n topic stack acc in
      let (found, e, groups, exact) =
        search_loop_lem fuel stack' acc' kept.formed (omega (arith, kept.lighter)) in
      (
        found,
        e,
        groups ∙ kept.groups,
        λ x. (λ i. kept.out x ((exact x).0 i), λ f. (exact x).1 (kept.back x f)),
      )
