-- ===== src/Router/Paths.antt =====
-- The trie as a function from paths to subscriptions, and when it is well formed.
use ocypode.Prelude.{
  ◌≡◌, refl, Bool, true, false, ◌&&◌, Option, none, some, List, [], ◌∷◌, arith, Bytes, bytes_eq,
  bytes_eq_iff, UniqueKeys, if◌then◌else◌,
}
use ocypode.Topic.{wildcard_single, wildcard_multi}
use ocypode.Router.{
  SubscriptionMap, QueueGroupMap, Node, Children, node, absent, present, nil, cons, level, children,
  subscription_map, with_subscriptions, fresh, find, nodes_of, key_eq,
}
use ocypode.Router.Levels.{Distinct, is_present, or_fresh}

abbrev pub path_eq : List Bytes → List Bytes → Bool
path_eq [] [] = true
path_eq (s ∷ p) (t ∷ q) = bytes_eq s t && path_eq p q
path_eq _ _ = false

pub path_eq→eq : (p q : List Bytes) → path_eq p q ≡ true → p ≡ q
path_eq→eq [] [] h = refl
path_eq→eq [] (t ∷ q) h = cc
path_eq→eq (s ∷ p) [] h = cc
path_eq→eq (s ∷ p) (t ∷ q) h = ground (arith, bytes_eq_iff s t, path_eq→eq p q)

pub path_eq_refl : (p : List Bytes) → path_eq p p ≡ true
path_eq_refl [] = refl
path_eq_refl (s ∷ p) = ground (arith, bytes_eq_iff s s, path_eq_refl p)

module _ {S : Type 0} where
  -- The subscriptions at the end of a path of levels; none where the path leaves the trie.
  unfoldable pub at : List Bytes → Node S → SubscriptionMap S
  unfolding find
  at [] n = subscription_map n
  at (s ∷ path) n = elim (find s (nodes_of (children n))) [ none ↦ [] | some c ↦ at path c ]

  abbrev pub below : Option (Node S) → List Bytes → SubscriptionMap S
  below none path = []
  below (some c) path = at path c

  pub at-cons :
      (s : Bytes) (path : List Bytes) (n : Node S)
      → at (s ∷ path) n ≡ below (find s (nodes_of (children n))) path
  at-cons s path n = unfold at in below_elim (find s (nodes_of (children n)))
    where
      below_elim :
          (o : Option (Node S))
          → ◌≡◌ {A = SubscriptionMap S} (elim o [ none ↦ [] | some c ↦ at path c ]) (below o path)
      below_elim none = refl
      below_elim (some c) = refl

  pub at-fresh : (s : Bytes) (path : List Bytes) → at path (fresh s) ≡ []
  unfolding at
  at-fresh s [] = refl
  at-fresh s (t ∷ path) = refl

  pub below-or_fresh :
      (s : Bytes) (o : Option (Node S)) (path : List Bytes) → at path (or_fresh s o) ≡ below o path
  below-or_fresh s none path = at-fresh s path
  below-or_fresh s (some c) path = refl

  abbrev pub queue_group_map : Node S → QueueGroupMap S
  queue_group_map (node l subs groups ch single multi) = groups

  abbrev pub has_wildcard_single : Node S → Bool
  has_wildcard_single (node l subs groups ch single multi) = single

  abbrev pub has_wildcard_multi : Node S → Bool
  has_wildcard_multi (node l subs groups ch single multi) = multi

  abbrev pub IsNotNil : Children S → Type 0
  IsNotNil absent = Unit
  IsNotNil (present nil) = ⊥
  IsNotNil (present (cons n ns)) = Unit

  -- What holds at each node: the flags tell whether the wildcard children are there, no two
  -- children share a level, a list of children is not empty, no key stands twice, no queue group.
  pub record IsSound (n : Node S) : Type 0 where
    pub no_groups : queue_group_map n ≡ []
    pub single_flag :
        has_wildcard_single n ≡ is_present (find wildcard_single (nodes_of (children n)))
    pub multi_flag : has_wildcard_multi n ≡ is_present (find wildcard_multi (nodes_of (children n)))
    pub distinct : Distinct (nodes_of (children n))
    pub unique : UniqueKeys (subscription_map n)
    pub not_nil : IsNotNil (children n)

-- A node that is sound, and so is all that is below it.
pub data WellFormed {S : Type 0} : Node S → Type 0 where
  well_formed :
      {n : Node S}
      → IsSound n
      → ((s : Bytes) (c : Node S) → find s (nodes_of (children n)) ≡ some c → WellFormed c)
      → WellFormed n

module _ {S : Type 0} where
  pub WellFormed-IsSound : {n : Node S} → WellFormed n → IsSound n
  WellFormed-IsSound (well_formed s _) = s

  pub WellFormed-child :
      {n : Node S}
      → WellFormed n
      → (s : Bytes) (c : Node S) → find s (nodes_of (children n)) ≡ some c
      → WellFormed c
  WellFormed-child (well_formed _ w) = w

  pub fresh-WellFormed : (s : Bytes) → WellFormed (fresh {S = S} s)
  fresh-WellFormed s =
      unfold find in
      well_formed {n = fresh s}
        (record {
          no_groups = refl;
          single_flag = refl;
          multi_flag = refl;
          distinct = tt;
          unique = tt;
          not_nil = tt;
        })
        (λ t c h. absurd (cc))

  pub or_fresh-WellFormed :
      (s : Bytes) {n : Node S}
      → WellFormed n
      → WellFormed (or_fresh s (find s (nodes_of (children n))))
  or_fresh-WellFormed s {n} w = child (find s (nodes_of (children n))) (WellFormed-child w s)
    where
      child :
          (o : Option (Node S))
          → ((c : Node S) → o ≡ some c → WellFormed c)
          → WellFormed (or_fresh s o)
      child none h = fresh-WellFormed s
      child (some c) h = h c refl

  pub with_subscriptions-WellFormed :
      (m : SubscriptionMap S) (n : Node S)
      → UniqueKeys m
      → WellFormed n
      → WellFormed (with_subscriptions m n)
  with_subscriptions-WellFormed m (node l subs groups ch single multi) u (well_formed v w) =
      well_formed
        (record {
          no_groups = v.no_groups;
          single_flag = v.single_flag;
          multi_flag = v.multi_flag;
          distinct = v.distinct;
          unique = u;
          not_nil = v.not_nil;
        })
        w

  -- New subscriptions at a node change nothing below it.
  pub at-with_subscriptions :
      (m : SubscriptionMap S) (n : Node S) (q : List Bytes)
      → at q (with_subscriptions m n) ≡ (if path_eq [] q then m else at q n)
  unfolding at
  at-with_subscriptions m (node l subs groups ch single multi) [] = refl
  at-with_subscriptions m (node l subs groups ch single multi) (t ∷ q) = refl

  pub level-with_subscriptions :
      (m : SubscriptionMap S) (n : Node S) → level (with_subscriptions m n) ≡ level n
  level-with_subscriptions m (node l subs groups ch single multi) = refl

  -- The root of a path, with its subscriptions at the empty path.
  pub at-nil : (n : Node S) → at [] n ≡ subscription_map n
  at-nil n = unfold at in refl

  pub at-WellFormed : (path : List Bytes) {n : Node S} → WellFormed n → UniqueKeys (at path n)
  at-WellFormed [] {n} w = rw (at-nil n) (WellFormed-IsSound w).unique
  at-WellFormed (s ∷ path) {n} w = rw (at-cons s path n) (
      by_child (find s (nodes_of (children n)))
        (λ c e. at-WellFormed path (WellFormed-child w s c e)))
    where
      by_child :
          (o : Option (Node S))
          → ((c : Node S) → o ≡ some c → UniqueKeys (at path c))
          → UniqueKeys (below o path)
      by_child none h = tt
      by_child (some c) h = h c refl
