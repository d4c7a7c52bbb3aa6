-- ===== src/Router/Walk.antt =====
-- What one round of the loop of `search` adds to the response and to the stack.
use ocypode.Prelude.{
  ℕ, ◌+◌, ◌≤◌, ◌≡◌, refl, sym, ap, ◌∙◌, subst, ◌⊎◌, inl, inr, ◌↔◌, Bool, true, false, Option, none,
  some, List, [], ◌∷◌, ◌++◌, map, arith, append-nil, Bytes, bytes_eq, bytes_eq_iff, Bool-cases,
  if◌then◌else◌,
}
use ocypode.Topic.{wildcard_single, wildcard_multi}
use ocypode.Router.{
  Entry, SubscriptionResponse, Node, Children, Nodes, node, absent, present, nil, cons, level,
  children, nodes_of, find, subscription_map,
}
use ocypode.Router.Delivery.{
  entry, Stack, collect_node, collect_multi, is_match, push_matching, weight, weight_nodes,
}
use ocypode.Router.Levels.{Distinct, level-find, is_present}
use ocypode.Router.Paths.{
  at, below, at-cons, at-nil, IsSound, WellFormed, WellFormed-IsSound, WellFormed-child,
}
use ocypode.Router.Matching.{Delivers, DeliversBelow, InNodes, find-InNodes, InNodes-find}

module _ {S : Type 0} where
  -- The response with more single subscriptions.
  abbrev pub more : List (Entry S) → SubscriptionResponse S → SubscriptionResponse S
  more es acc = record acc { subscription_list = acc.subscription_list ++ es }

  pub collect_node_lem :
      (n : Node S) (acc : SubscriptionResponse S)
      → IsSound n
      → collect_node n acc ≡ more (map entry (subscription_map n)) acc
  unfolding collect_node
  collect_node_lem (node l subs groups ch single multi) acc v = rw (v.no_groups, append-nil) refl

  nothing_more :
      (acc : SubscriptionResponse S) (n : Node S)
      → collect_multi n acc ≡ acc
      → find wildcard_multi (nodes_of (children n)) ≡ none
      → collect_multi n acc ≡ more (map entry (at (wildcard_multi ∷ []) n)) acc
  nothing_more acc n same gone =
      same
      ∙ ap (λ l. record acc { subscription_list = l }) (sym (append-nil acc.subscription_list))
      ∙ ap (λ m. more (map entry m) acc)
          (sym (at-cons wildcard_multi [] n ∙ ap (λ o. below o []) gone))

  pub collect_multi_lem :
      (n : Node S) (acc : SubscriptionResponse S)
      → WellFormed n
      → collect_multi n acc ≡ more (map entry (at (wildcard_multi ∷ []) n)) acc
  collect_multi_lem (node l subs groups (present ns) single true) acc w =
      unfold collect_multi in by_find (find wildcard_multi ns) refl
    where
      by_find :
          (o : Option (Node S))
          → find wildcard_multi ns ≡ o
          → ◌≡◌ {A = SubscriptionResponse S}
              (elim o [ none ↦ acc | some child ↦ collect_node child acc ])
              (more
                (map entry (at (wildcard_multi ∷ []) (node l subs groups (present ns) single true)))
                acc)
      by_find none e = absurd (flag_set (WellFormed-IsSound w).multi_flag e)
        where
          flag_set : {o : Option (Node S)} → true ≡ is_present o → o ≡ none → ⊥
          flag_set p q = ground arith
      by_find (some c) e =
          collect_node_lem c acc (WellFormed-IsSound (WellFormed-child w wildcard_multi c e))
          ∙ ap (λ m. more (map entry m) acc)
              (sym (
                at-cons wildcard_multi [] (node l subs groups (present ns) single true)
                ∙ ap (λ o. below o []) e
                ∙ at-nil c))
  collect_multi_lem (node l subs groups absent single true) acc w =
      nothing_more acc (node l subs groups absent single true) (unfold collect_multi in refl)
        (unfold find in refl)
  collect_multi_lem (node l subs groups ch single false) acc w =
      nothing_more acc (node l subs groups ch single false) (no_flag ch)
        (not_there (find wildcard_multi (nodes_of ch)) (WellFormed-IsSound w).multi_flag)
    where
      no_flag : (ch : Children S) → collect_multi (node l subs groups ch single false) acc ≡ acc
      no_flag absent = unfold collect_multi in refl
      no_flag (present ns) = unfold collect_multi in refl

      not_there : (o : Option (Node S)) → false ≡ is_present o → o ≡ none
      not_there none p = refl
      not_there (some c) p = absurd (cc)

  -- What the loop still has to deliver from its stack.
  abbrev pub Pending : Entry S → Stack S → Type 0
  Pending e [] = ⊥
  Pending e ((n, topic) ∷ stack) = Delivers n topic e ⊎ Pending e stack

  abbrev pub AllWellFormed : Stack S → Type 0
  AllWellFormed [] = Unit
  AllWellFormed ((n, topic) ∷ stack) = WellFormed n × AllWellFormed stack

  abbrev pub stack_weight : Stack S → ℕ
  stack_weight [] = 0
  stack_weight ((n, topic) ∷ stack) = weight n + stack_weight stack

  -- A child that matches the segment and delivers the rest.
  abbrev pub Pushes : Bytes → List Bytes → Nodes S → Entry S → Type 0
  Pushes t rest ns e = (c : Node S) × InNodes c ns × (is_match t c ≡ true) × Delivers c rest e

  pub push_matching_out :
      (t : Bytes) (rest : List Bytes) (ns : Nodes S) (stack : Stack S) (e : Entry S)
      → Pending e (push_matching t rest ns stack)
      → Pending e stack ⊎ Pushes t rest ns e
  unfolding push_matching
  push_matching_out t rest nil stack e p = inl p
  push_matching_out t rest (cons c ns) stack e p =
      by_match (is_match t c) refl
        (push_matching_out t rest ns (if is_match t c then (c, rest) ∷ stack else stack) e p)
    where
      later : Pushes t rest ns e → Pushes t rest (cons c ns) e
      later (d, i, k, h) = (d, inr i, k, h)

      by_match :
          (b : Bool)
          → is_match t c ≡ b
          → Pending e (if b then (c, rest) ∷ stack else stack) ⊎ Pushes t rest ns e
          → Pending e stack ⊎ Pushes t rest (cons c ns) e
      by_match b m (inr q) = inr (later q)
      by_match true m (inl (inl d)) = inr (c, inl refl, m, d)
      by_match true m (inl (inr q)) = inl q
      by_match false m (inl q) = inl q

  pub push_matching_in :
      (t : Bytes) (rest : List Bytes) (ns : Nodes S) (stack : Stack S) (e : Entry S)
      → Pending e stack ⊎ Pushes t rest ns e
      → Pending e (push_matching t rest ns stack)
  unfolding push_matching
  push_matching_in t rest nil stack e (inl p) = p
  push_matching_in t rest nil stack e (inr (c, i, k, d)) = absurd i
  push_matching_in t rest (cons c ns) stack e p =
      push_matching_in t rest ns (if is_match t c then (c, rest) ∷ stack else stack) e
        (by_match (is_match t c) refl p)
    where
      keep : (b : Bool) → Pending e stack → Pending e (if b then (c, rest) ∷ stack else stack)
      keep true q = inr q
      keep false q = q

      this :
          (b : Bool)
          → b ≡ true
          → Delivers c rest e
          → Pending e (if b then (c, rest) ∷ stack else stack)
      this true _ d = inl d
      this false h d = absurd (cc)

      by_match :
          (b : Bool)
          → is_match t c ≡ b
          → Pending e stack ⊎ Pushes t rest (cons c ns) e
          → Pending e (if b then (c, rest) ∷ stack else stack) ⊎ Pushes t rest ns e
      by_match b m (inl q) = inl (keep b q)
      by_match b m (inr (d, inr i, k, h)) = inr (d, i, k, h)
      by_match b m (inr (d, inl p, k, h)) =
          inl (this b (sym m ∙ ap (is_match t) (sym p) ∙ k) (subst (λ x. Delivers x rest e) p h))

  pub push_matching-AllWellFormed :
      (t : Bytes) (rest : List Bytes) (ns : Nodes S) (stack : Stack S)
      → ((c : Node S) → InNodes c ns → WellFormed c)
      → AllWellFormed stack
      → AllWellFormed (push_matching t rest ns stack)
  unfolding push_matching
  push_matching-AllWellFormed t rest nil stack h w = w
  push_matching-AllWellFormed t rest (cons c ns) stack h w =
      push_matching-AllWellFormed t rest ns (if is_match t c then (c, rest) ∷ stack else stack)
        (λ d i. h d (inr i)) (by_match (is_match t c))
    where
      by_match : (b : Bool) → AllWellFormed (if b then (c, rest) ∷ stack else stack)
      by_match true = (h c (inl refl), w)
      by_match false = w

  pub push_matching_weight :
      (t : Bytes) (rest : List Bytes) (ns : Nodes S) (stack : Stack S)
      → stack_weight (push_matching t rest ns stack) ≤ weight_nodes ns + stack_weight stack
  unfolding push_matching weight_nodes
  push_matching_weight t rest nil stack = omega arith
  push_matching_weight t rest (cons c ns) stack =
      ground
        (arith, push_matching_weight t rest ns (if is_match t c then (c, rest) ∷ stack else stack))

  -- The children that a round pushes deliver what is below their parent.
  pub Pushes-DeliversBelow :
      (n : Node S) (t : Bytes) (rest : List Bytes) (e : Entry S)
      → Distinct (nodes_of (children n))
      → Pushes t rest (nodes_of (children n)) e ↔ DeliversBelow n t rest e
  Pushes-DeliversBelow n t rest e distinct = (down, up)
    where
      kind : (c : Node S) → is_match t c ≡ true → (level c ≡ t) ⊎ (level c ≡ wildcard_single)
      kind c k = elim (Bool-cases (bytes_eq (level c) t)) [
        | inl same ↦ inl ((bytes_eq_iff (level c) t).0 same)
        | inr differs ↦ inr ((bytes_eq_iff (level c) wildcard_single).0 (rw differs at k))
      ]

      test : (c : Node S) → (level c ≡ t) ⊎ (level c ≡ wildcard_single) → is_match t c ≡ true
      test c (inl p) = rw ((bytes_eq_iff (level c) t).1 p) refl
      test c (inr p) = ground (arith, bytes_eq_iff (level c) wildcard_single)

      down : Pushes t rest (nodes_of (children n)) e → DeliversBelow n t rest e
      down (c, i, k, d) =
          (level c, c, kind c k, InNodes-find (nodes_of (children n)) c distinct i, d)

      at_level :
          (s : Bytes) (c : Node S)
          → level c ≡ s
          → (s ≡ t) ⊎ (s ≡ wildcard_single)
          → (level c ≡ t) ⊎ (level c ≡ wildcard_single)
      at_level s c h (inl p) = inl (h ∙ p)
      at_level s c h (inr p) = inr (h ∙ p)

      up : DeliversBelow n t rest e → Pushes t rest (nodes_of (children n)) e
      up (s, c, k, found, d) = (
        c,
        find-InNodes s (nodes_of (children n)) c found,
        test c (at_level s c (level-find s (nodes_of (children n)) c found) k),
        d,
      )
