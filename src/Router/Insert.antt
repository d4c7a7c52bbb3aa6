-- ===== src/Router/Insert.antt =====
-- The loop of `Router::insert` on a well-formed trie.
use ocypode.Prelude.{
  ◌≡◌, refl, sym, ap, inl, inr, ◌∙◌, subst, true, false, Option, none, some, List, [], ◌∷◌, arith,
  Bytes, bytes_eq, bytes_eq_iff, Bool-cases, insert, insert-UniqueKeys, if◌then◌else◌,
}
use ocypode.Topic.{wildcard_single, wildcard_multi}
use ocypode.Router.{
  SubscriptionKey, Node, Nodes, node, present, nil, cons, level, children, subscription_map,
  with_subscriptions, with_children, find, nodes_of, key_eq, set_flag, insert_at,
}
use ocypode.Router.Levels.{
  or_fresh, put_child, find-put_child, put_child-Distinct, level-find, child_index_lem,
}
use ocypode.Router.Paths.{
  path_eq, at, below, at-cons, below-or_fresh, IsNotNil, IsSound, WellFormed, well_formed,
  WellFormed-IsSound, WellFormed-child, with_subscriptions-WellFormed, at-with_subscriptions,
  level-with_subscriptions, at-nil, or_fresh-WellFormed, queue_group_map,
}

pub both_flags : (s : Bytes) → bytes_eq s wildcard_single ≡ true → bytes_eq s wildcard_multi ≡ false
both_flags s h = rw ((bytes_eq_iff s wildcard_single).0 h) (unfold bytes_eq in refl)

module _ {S : Type 0} where
  -- The node with the flag for `s` set and its child at `s` replaced.
  abbrev pub grow : Bytes → Node S → Node S → Node S
  grow s c n = with_children (present (put_child s c (nodes_of (children n)))) (set_flag s n)

  insert_at_step :
      (s : Bytes) (path : List Bytes) (key : SubscriptionKey) (tx : S) (n c : Node S)
      → insert_at path key tx (or_fresh s (find s (nodes_of (children n)))) ≡ some c
      → insert_at (s ∷ path) key tx n ≡ some (grow s c n)
  unfolding insert_at
  insert_at_step s path key tx n c h =
      let (seen, set) = child_index_lem s (nodes_of (children n)) c in rw (seen, h, set)

  pub grow_parts :
      (s : Bytes) (c n : Node S)
      → (level (grow s c n) ≡ level n)
        × (subscription_map (grow s c n) ≡ subscription_map n)
        × (queue_group_map (grow s c n) ≡ queue_group_map n)
        × (nodes_of (children (grow s c n)) ≡ put_child s c (nodes_of (children n)))
  unfolding set_flag
  grow_parts s c (node l subs groups ch single multi) = ground arith

  put_child-IsNotNil :
      (s : Bytes) (c : Node S) (ns : Nodes S) → IsNotNil (present (put_child s c ns))
  unfolding put_child
  put_child-IsNotNil s c nil = tt
  put_child-IsNotNil s c (cons n ns) = ground arith

  grow-IsSound : (s : Bytes) (c n : Node S) → level c ≡ s → IsSound n → IsSound (grow s c n)
  unfolding set_flag
  grow-IsSound s c (node l subs groups ch single multi) h v = record {
    no_groups = ground (arith, v.no_groups);
    single_flag =
        ground
          (arith, v.single_flag, find-put_child s wildcard_single c (nodes_of ch) h, both_flags s);
    multi_flag =
        ground
          (arith, v.multi_flag, find-put_child s wildcard_multi c (nodes_of ch) h, both_flags s);
    distinct = ground (arith, put_child-Distinct s c (nodes_of ch) h v.distinct);
    unique = ground (arith, v.unique);
    not_nil = ground (arith, put_child-IsNotNil s c (nodes_of ch));
  }

  level-or_fresh : (s : Bytes) (ns : Nodes S) → level (or_fresh s (find s ns)) ≡ s
  level-or_fresh s ns = by_child (find s ns) (level-find s ns)
    where
      by_child :
          (o : Option (Node S))
          → ((c : Node S) → o ≡ some c → level c ≡ s)
          → level (or_fresh s o) ≡ s
      by_child none h = refl
      by_child (some c) h = h c refl

  pub grow-WellFormed :
      (s : Bytes) (c n : Node S)
      → level c ≡ s
      → WellFormed c
      → WellFormed n
      → WellFormed (grow s c n)
  grow-WellFormed s c n h wc wn =
      let ns = nodes_of (children n) in
      let (_, _, _, kids) = grow_parts s c n in
      well_formed (grow-IsSound s c n h (WellFormed-IsSound wn))
        λ t d found. by_level t d (sym (ap (find t) kids ∙ find-put_child s t c ns h) ∙ found)
    where
      by_level :
          (t : Bytes) (d : Node S)
          → (if bytes_eq s t then some c else find t (nodes_of (children n))) ≡ some d
          → WellFormed d
      by_level t d e = elim (Bool-cases (bytes_eq s t)) [
        | inl same ↦ let p : some c ≡ some d = rw same at e in subst WellFormed (cc p) wc
        | inr differs ↦ WellFormed-child wn t d (rw differs at e)
      ]

  pub at-grow :
      (s t : Bytes) (q : List Bytes) (c n : Node S)
      → level c ≡ s
      → at (t ∷ q) (grow s c n) ≡ (if bytes_eq s t then at q c else at (t ∷ q) n)
  at-grow s t q c n h =
      let ns = nodes_of (children n) in
      let (_, _, _, kids) = grow_parts s c n in
      at-cons t q (grow s c n)
      ∙ ap (λ k. below (find t k) q) kids
      ∙ ap (λ o. below o q) (find-put_child s t c ns h)
      ∙ by_level
    where
      by_level :
          below (if bytes_eq s t then some c else find t (nodes_of (children n))) q
          ≡ (if bytes_eq s t then at q c else at (t ∷ q) n)
      by_level = elim (Bool-cases (bytes_eq s t)) [
        | inl same ↦ rw same
        | inr differs ↦ rw differs (sym (at-cons t q n))
      ]

  -- What an insertion at a path does to the subscriptions at every path.
  abbrev pub Inserted : List Bytes → SubscriptionKey → S → Node S → Node S → Type 0
  Inserted path key tx n n' =
      (q : List Bytes) → at q n' ≡ (if path_eq path q then insert key tx (at q n) else at q n)

  Inserted-nil :
      (key : SubscriptionKey) (tx : S) (n : Node S)
      → Inserted [] key tx n (with_subscriptions (insert key tx (subscription_map n)) n)
  Inserted-nil key tx n [] =
      at-with_subscriptions (insert key tx (subscription_map n)) n []
      ∙ ap (insert key tx) (sym (at-nil n))
  Inserted-nil key tx n (t ∷ q) =
      at-with_subscriptions (insert key tx (subscription_map n)) n (t ∷ q)

  Inserted-grow :
      (s : Bytes) (path : List Bytes) (key : SubscriptionKey) (tx : S) (n c : Node S)
      → level c ≡ s
      → Inserted path key tx (or_fresh s (find s (nodes_of (children n)))) c
      → Inserted (s ∷ path) key tx n (grow s c n)
  Inserted-grow s path key tx n c h changed [] =
      at-nil (grow s c n) ∙ (grow_parts s c n).1 ∙ sym (at-nil n)
  Inserted-grow s path key tx n c h changed (t ∷ q) = elim (Bool-cases (bytes_eq s t)) [
    | inl same ↦
        let before : at q (or_fresh s (find s (nodes_of (children n)))) ≡ at (t ∷ q) n =
          below-or_fresh s (find s (nodes_of (children n))) q
          ∙ sym (at-cons s q n)
          ∙ ap (λ x. at (x ∷ q) n) ((bytes_eq_iff s t).0 same) in
        at-grow s t q c n h ∙ rw same (changed q ∙ rw before)
    | inr differs ↦ at-grow s t q c n h ∙ rw differs
  ]

  -- `insert_at` ends, with a well-formed trie in which only the path has changed.
  pub insert_at_lem :
      (path : List Bytes) (key : SubscriptionKey) (tx : S) (n : Node S)
      → WellFormed n
      → (n' : Node S) × (insert_at path key tx n ≡ some n')
        × (level n' ≡ level n)
        × WellFormed n'
        × Inserted path key tx n n'
  insert_at_lem [] key tx n w =
      let subs = insert key tx (subscription_map n) in
      (
        with_subscriptions subs n,
        unfold insert_at in refl,
        level-with_subscriptions subs n,
        with_subscriptions-WellFormed subs n
            (insert-UniqueKeys key tx (subscription_map n) (WellFormed-IsSound w).unique) w,
        Inserted-nil key tx n,
      )
  insert_at_lem (s ∷ path) key tx n w =
      let start = or_fresh s (find s (nodes_of (children n))) in
      let (c, e, same_level, wc, changed) =
        insert_at_lem path key tx start (or_fresh-WellFormed s w) in
      let h = same_level ∙ level-or_fresh s (nodes_of (children n)) in
      (
        grow s c n,
        insert_at_step s path key tx n c e,
        (grow_parts s c n).0,
        grow-WellFormed s c n h wc w,
        Inserted-grow s path key tx n c h changed,
      )
