-- ===== src/Router/Pruning.antt =====
-- The pruning loop of `delete` walks from the root in every round. Here the rounds are followed
-- by recursion on the path.
use ocypode.Prelude.{
  ℕ, zero, suc, ◌≡◌, refl, sym, ap, fun_ext, ◌∙◌, inl, inr, Bool, true, false, Option, none, some,
  List, ◌∷◌, Bytes, get_elem?, take, Option-cases, if◌then◌else◌,
}
use ocypode.Router.{
  SubscriptionMap, QueueGroupMap, Node, Nodes, node, present, nil, cons, nth, set_nth, remove_nth,
  ◌>>=◌,
}
use ocypode.Router.Removal.{modify_at, prune_child, prune_loop}

module _ {S : Type 0} where
  pub nth-set_nth :
      (ns : Nodes S) (i : ℕ) (a c : Node S) → nth ns i ≡ some a → nth (set_nth ns i c) i ≡ some c
  unfolding nth set_nth
  nth-set_nth nil i a c h = cc
  nth-set_nth (cons n ns) zero a c h = refl
  nth-set_nth (cons n ns) (suc i) a c h = nth-set_nth ns i a c h

  pub set_nth_twice :
      (ns : Nodes S) (i : ℕ) (a c : Node S) → set_nth (set_nth ns i a) i c ≡ set_nth ns i c
  unfolding set_nth
  set_nth_twice nil i a c = refl
  set_nth_twice (cons n ns) zero a c = refl
  set_nth_twice (cons n ns) (suc i) a c = ap (cons n) (set_nth_twice ns i a c)

  set_nth_self : (ns : Nodes S) (i : ℕ) (a : Node S) → nth ns i ≡ some a → set_nth ns i a ≡ ns
  unfolding nth set_nth
  set_nth_self nil i a h = refl
  set_nth_self (cons n ns) zero a h = ap (λ x. cons x ns) (sym (cc h))
  set_nth_self (cons n ns) (suc i) a h = ap (cons n) (set_nth_self ns i a h)

  pub remove_nth-set_nth :
      (ns : Nodes S) (i : ℕ) (c : Node S) → remove_nth (set_nth ns i c) i ≡ remove_nth ns i
  unfolding remove_nth set_nth
  remove_nth-set_nth nil i c = refl
  remove_nth-set_nth (cons n ns) zero c = refl
  remove_nth-set_nth (cons n ns) (suc i) c = ap (cons n) (remove_nth-set_nth ns i c)

-- The parent, but for its list of children.
module _ {S : Type 0} (l : Bytes) (subs : SubscriptionMap S) (groups : QueueGroupMap S)
    (single multi : Bool) where
  abbrev pub parent : Nodes S → Node S
  parent ns = node l subs groups (present ns) single multi

  pub modify_at-parent :
      {A : Type 0} (ns : Nodes S) (i : ℕ) (path : List ℕ) (work : Node S → Option (Node S × A))
      (c : Node S)
      → nth ns i ≡ some c
      → modify_at (i ∷ path) work (parent ns)
        ≡ (modify_at path work c >>= λ (c', a). some (parent (set_nth ns i c'), a))
  unfolding modify_at
  modify_at-parent ns i path work c h = rw h refl

  -- The last round, at the parent, if the rounds below it came to their end.
  abbrev pub finish : Nodes S → ℕ → Node S × Bool → Option (Node S × Bool)
  finish ns i (c, true) = prune_child i (parent (set_nth ns i c))
  finish ns i (c, false) = some (parent (set_nth ns i c), false)

  pub finish-set_nth :
      (ns : Nodes S) (i : ℕ) (a : Node S) (r : Node S × Bool)
      → finish (set_nth ns i a) i r ≡ finish ns i r
  finish-set_nth ns i a (c, true) = ap (λ x. prune_child i (parent x)) (set_nth_twice ns i a c)
  finish-set_nth ns i a (c, false) = ap (λ x. some (parent x, false)) (set_nth_twice ns i a c)

  -- Ends the loop after a round that removed nothing, and marks the end of the loop.
  last_round :
      (m : Option (Node S × Bool))
      → (m >>= λ (root, removed). if removed then some (root, true) else some (root, false)) ≡ m
  last_round none = refl
  last_round (some (root, true)) = refl
  last_round (some (root, false)) = refl

  -- What a round hands to the rest of the loop.
  abbrev onward : ℕ → List ℕ → Node S × Bool → Option (Node S × Bool)
  onward d path (root, true) = prune_loop d path root
  onward d path (root, false) = some (root, false)

  round :
      (d : ℕ) (path : List ℕ) (root : Node S)
      → prune_loop (suc d) path root
        ≡ (get_elem? path d >>= λ j. modify_at (take d path) (prune_child j) root >>= onward d path)
  unfolding prune_loop
  round d path root = elim (Option-cases (get_elem? path d)) [
    | inl e ↦ rw e
    | inr (j, e) ↦ rw e (split (modify_at (take d path) (prune_child j) root))
  ]
    where
      split :
          (m : Option (Node S × Bool))
          → (m >>= λ (r, removed).
              let rest = prune_loop d path r in if removed then rest else some (r, false))
            ≡ (m >>= onward d path)
      split none = refl
      split (some (r, true)) = refl
      split (some (r, false)) = refl

  -- One round at the parent is that round at the child.
  round_parent :
      (d : ℕ) (path : List ℕ) (ns : Nodes S) (i : ℕ) (c : Node S)
      → nth ns i ≡ some c
      → ((ns' : Nodes S) (c' : Node S)
          → nth ns' i ≡ some c'
          → prune_loop (suc d) (i ∷ path) (parent ns') ≡ (prune_loop d path c' >>= finish ns' i))
      → (g : Option ℕ)
      → (g >>= λ j.
          modify_at (i ∷ take d path) (prune_child j) (parent ns) >>= onward (suc d) (i ∷ path))
        ≡ (g >>= (λ j. modify_at (take d path) (prune_child j) c >>= onward d path) >>= finish ns i)
  round_parent d path ns i c h ih none = refl
  round_parent d path ns i c h ih (some j) =
      ap (λ m. m >>= onward (suc d) (i ∷ path))
        (modify_at-parent ns i (take d path) (prune_child j) c h)
      ∙ after (modify_at (take d path) (prune_child j) c)
    where
      after :
          (m : Option (Node S × Bool))
          → (m >>= (λ (c', a). some (parent (set_nth ns i c'), a)) >>= onward (suc d) (i ∷ path))
            ≡ (m >>= onward d path >>= finish ns i)
      after none = refl
      after (some (c', true)) =
          ih (set_nth ns i c') c' (nth-set_nth ns i c c' h)
          ∙ ap (λ f. prune_loop d path c' >>= f) (fun_ext (finish-set_nth ns i c'))
      after (some (c', false)) = refl

  pub prune_loop-parent :
      (d : ℕ) (path : List ℕ) (ns : Nodes S) (i : ℕ) (c : Node S)
      → nth ns i ≡ some c
      → prune_loop (suc d) (i ∷ path) (parent ns) ≡ (prune_loop d path c >>= finish ns i)
  prune_loop-parent zero path ns i c h =
      unfold prune_loop in
      last_round (prune_child i (parent ns))
      ∙ ap (λ x. prune_child i (parent x)) (sym (set_nth_self ns i c h))
  prune_loop-parent (suc d) path ns i c h =
      round (suc d) (i ∷ path) (parent ns)
      ∙ round_parent d path ns i c h (λ ns' c' h'. prune_loop-parent d path ns' i c' h')
          (get_elem? path d)
      ∙ ap (λ m. m >>= finish ns i) (sym (round d path c))
