-- ===== src/Router/Delete.antt =====
-- The removal and the pruning of `Router::delete` along a path that was found.
use ocypode.Prelude.{
  ℕ, ◌≡◌, refl, sym, ap, ◌∙◌, Bool, true, false, Option, some, List, [], ◌∷◌, Bytes, bytes_eq_refl,
  length, remove, remove-UniqueKeys, if◌then◌else◌,
}
use ocypode.Router.{
  SubscriptionKey, SubscriptionMap, QueueGroupMap, Node, Nodes, node, absent, present, level,
  children, subscription_map, with_subscriptions, with_children, find, nth, set_nth, remove_nth,
  nodes_of, key_eq, position, ◌>>=◌,
}
use ocypode.Router.Removal.{
  find_path, modify_at, remove_key, is_unused, without_child, prune_child, prune_loop, delete_at,
}
use ocypode.Router.Levels.{drop_child-put_child, put_child, drop_child, level-find, position_lem}
use ocypode.Router.Paths.{
  below, at-cons, WellFormed, WellFormed-IsSound, WellFormed-child, with_subscriptions-WellFormed,
  level-with_subscriptions,
}
use ocypode.Router.Insert.{grow, grow_parts, grow-WellFormed, at-grow}
use ocypode.Router.Pruning.{
  parent, finish, finish-set_nth, modify_at-parent, prune_loop-parent, nth-set_nth,
  remove_nth-set_nth,
}
use ocypode.Router.Shrink.{
  at-is_unused, set_flag-IsSound, shrink, shrink_parts, shrink-WellFormed, at-shrink,
}
use ocypode.Router.Reach.{Deleted, Deleted-nil, Deleted-grow, find_path_inv}

module _ {S : Type 0} where
  -- The removal and the pruning along a path end, and what they leave.
  abbrev Removed : List ℕ → List Bytes → SubscriptionKey → Node S → Type 0
  Removed path segments key n =
      (n1 : Node S) × (n2 : Node S) × (ended : Bool) × (modify_at path (remove_key key) n
        ≡ some (n1, tt))
      × (prune_loop (length path) path n1 ≡ some (n2, ended))
      × (level n2 ≡ level n)
      × WellFormed n2
      × Deleted segments key n n2

  abbrev Finished : Bytes → List Bytes → SubscriptionKey → Node S → Option (Node S × Bool) → Type 0
  Finished s segments key n r =
      (n2 : Node S) × (ended : Bool) × (r ≡ some (n2, ended))
      × (level n2 ≡ level n)
      × WellFormed n2
      × Deleted (s ∷ segments) key n n2

  -- At the parent the child is put back, and dropped if it is unused.
  put_back :
      (s : Bytes) (segments : List Bytes) (key : SubscriptionKey) (n c c' : Node S) (ended : Bool)
      → WellFormed n
      → find s (nodes_of (children n)) ≡ some c
      → level c' ≡ s
      → WellFormed c'
      → Deleted segments key c c'
      → Finished s segments key n (some (grow s c' n, ended))
  put_back s segments key n c c' ended w found h wc changed = (
    grow s c' n,
    ended,
    refl,
    (grow_parts s c' n).0,
    grow-WellFormed s c' n h wc w,
    Deleted-grow s segments key n c c' found h changed,
  )

  dropped :
      (s : Bytes) (segments : List Bytes) (key : SubscriptionKey) (n c c' : Node S) (ended : Bool)
      → WellFormed n
      → find s (nodes_of (children n)) ≡ some c
      → level c' ≡ s
      → WellFormed c'
      → Deleted segments key c c'
      → is_unused c' ≡ true
      → Finished s segments key n (some (shrink s (grow s c' n), ended))
  dropped s segments key n c c' ended w found h wc changed unused =
      let wg = grow-WellFormed s c' n h wc w in
      (
        shrink s (grow s c' n),
        ended,
        refl,
        (shrink_parts s (grow s c' n)).0 ∙ (grow_parts s c' n).0,
        shrink-WellFormed s (grow s c' n) wg,
        λ q.
            at-shrink s (grow s c' n) q wg holds_nothing
            ∙ Deleted-grow s segments key n c c' found h changed q,
      )
    where
      holds_nothing :
          (path : List Bytes) → below (find s (nodes_of (children (grow s c' n)))) path ≡ []
      holds_nothing path =
          sym (at-cons s path (grow s c' n))
          ∙ at-grow s s path c' n h
          ∙ rw (bytes_eq_refl s) (at-is_unused c' path unused)

  -- The same of the code's indices.
  module _ (s : Bytes) (segments : List Bytes) (key : SubscriptionKey) (l : Bytes)
      (subs : SubscriptionMap S) (groups : QueueGroupMap S) (ns : Nodes S) (single multi : Bool)
      (w : WellFormed (node l subs groups (present ns) single multi)) (i : ℕ) (c c' : Node S)
      (pos : position s ns ≡ some i) (seen : nth ns i ≡ some c) (h : level c' ≡ s)
      (wc : WellFormed c') (changed : Deleted segments key c c') where
    abbrev owner : Node S
    owner = node l subs groups (present ns) single multi

    found : find s ns ≡ some c
    found = sym (position_lem s ns i c' pos).0 ∙ seen

    parent-grow : parent l subs groups single multi (set_nth ns i c') ≡ grow s c' owner
    parent-grow =
        ap (parent l subs groups single multi) (position_lem s ns i c' pos).1
        ∙ sym (
            ap (with_children (present (put_child s c' ns)))
              (set_flag-IsSound s owner (WellFormed-IsSound w) (position_lem s ns i c' pos).3))

    shrunk :
        without_child
          (level c')
          (remove_nth (set_nth ns i c') i)
          (parent l subs groups single multi (set_nth ns i c'))
        ≡ shrink s (grow s c' owner)
    shrunk =
        let p = parent l subs groups single multi (set_nth ns i c') in
        ap (λ x. without_child x (remove_nth (set_nth ns i c') i) p) h
        ∙ ap (λ rest. without_child s rest p)
            (remove_nth-set_nth ns i c'
              ∙ (position_lem s ns i c' pos).2
              ∙ sym (ap (drop_child s) (grow_parts s c' owner).3 ∙ drop_child-put_child s c' ns h))
        ∙ ap (λ m. without_child s (drop_child s (nodes_of (children (grow s c' owner)))) m)
            parent-grow

    finish_lem :
        (ended : Bool)
        → Finished s segments key owner (finish l subs groups single multi ns i (c', ended))
    finish_lem false =
        rw parent-grow (put_back s segments key owner c c' false w found h wc changed)
    finish_lem true =
        unfold prune_child in rw (nth-set_nth ns i c c' seen) (by_use (is_unused c') refl)
      where
        by_use :
            (u : Bool)
            → is_unused c' ≡ u
            → Finished s segments key owner (
                if u
                then some (
                  without_child
                      (level c')
                      (remove_nth (set_nth ns i c') i)
                      (parent l subs groups single multi (set_nth ns i c')),
                  true,
                )
                else some (parent l subs groups single multi (set_nth ns i c'), false))
        by_use true u = rw shrunk (dropped s segments key owner c c' true w found h wc changed u)
        by_use false u =
            rw parent-grow (put_back s segments key owner c c' false w found h wc changed)

  -- One level further up, from the removal at a child.
  Removed-parent :
      (s : Bytes) (segments : List Bytes) (key : SubscriptionKey) (l : Bytes)
      (subs : SubscriptionMap S) (groups : QueueGroupMap S) (ns : Nodes S) (single multi : Bool)
      (i : ℕ) (rest : List ℕ) (c : Node S)
      → WellFormed (node l subs groups (present ns) single multi)
      → position s ns ≡ some i
      → nth ns i ≡ some c
      → Removed rest segments key c
      → Removed (i ∷ rest) (s ∷ segments) key (node l subs groups (present ns) single multi)
  Removed-parent s segments key l subs groups ns single multi i rest c w pos seen
        (c1, c2, ended, modified, pruned, same, wc, changed) =
      let located = sym (position_lem s ns i c pos).0 ∙ seen in
      let h = same ∙ level-find s ns c located in
      let (n2, end, fin, lv, wn, deleted) =
        finish_lem s segments key l subs groups ns single multi w i c c2 pos seen h wc changed
          ended in
      (
        parent l subs groups single multi (set_nth ns i c1),
        n2,
        end,
        modify_at-parent l subs groups single multi ns i rest (remove_key key) c seen
            ∙ ap
                (λ m.
                  m >>= λ (c', a). some (parent l subs groups single multi (set_nth ns i c'), a))
                modified,
        prune_loop-parent l subs groups single multi (length rest) rest (set_nth ns i c1) i c1
              (nth-set_nth ns i c c1 seen)
            ∙ ap (λ m. m >>= finish l subs groups single multi (set_nth ns i c1) i) pruned
            ∙ finish-set_nth l subs groups single multi ns i c1 (c2, ended)
            ∙ fin,
        lv,
        wn,
        deleted,
      )

  removed_lem :
      (segments : List Bytes) (path : List ℕ) (key : SubscriptionKey) (n : Node S)
      → WellFormed n
      → find_path segments n ≡ some path
      → Removed path segments key n
  removed_lem [] path key n w e =
      let here : path ≡ [] = unfold find_path in cc in
      let subs = remove key (subscription_map n) in
      rw here (
        with_subscriptions subs n,
        with_subscriptions subs n,
        true,
        unfold modify_at remove_key in refl,
        unfold prune_loop in refl,
        level-with_subscriptions subs n,
        with_subscriptions-WellFormed subs n
            (remove-UniqueKeys key (subscription_map n) (WellFormed-IsSound w).unique) w,
        Deleted-nil key n,
      )
  removed_lem (s ∷ segments) path key (node l subs groups absent single multi) w e =
      absurd (unfold find_path in cc)
  removed_lem (s ∷ segments) path key (node l subs groups (present ns) single multi) w e =
      let (i, c, rest, pos, seen, on, whole) =
        find_path_inv s segments path ns (unfold find_path in e) in
      let located = sym (position_lem s ns i c pos).0 ∙ seen in
      rw whole (
        Removed-parent s segments key l subs groups ns single multi i rest c w pos seen
          (removed_lem segments rest key c (WellFormed-child w s c located) on))

  -- `delete_at` along a found path ends, with a well-formed trie that has lost the key at the path.
  pub delete_at_lem :
      (segments : List Bytes) (path : List ℕ) (key : SubscriptionKey) (n : Node S)
      → WellFormed n
      → find_path segments n ≡ some path
      → (n' : Node S) × (delete_at path key n ≡ some n') × WellFormed n' × Deleted segments key n n'
  delete_at_lem segments path key n w e =
      let (n1, n2, ended, modified, pruned, _, wn, deleted) = removed_lem segments path key n w e in
      (n2, unfold delete_at in rw (modified, pruned) refl, wn, deleted)
