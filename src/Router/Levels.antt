-- ===== src/Router/Levels.antt =====
-- Lists of nodes told apart by their levels: what the vector operations of the code do to `find`.
use ocypode.Prelude.{
  ℕ, zero, suc, ◌-◌, ◌≡◌, refl, ap, ◌∙◌, Bool, true, false, Option, none, some, inl, inr, arith,
  Bytes, bytes_eq, bytes_eq_iff, bytes_eq_refl, Option-cases, if◌then◌else◌,
}
use ocypode.Router.{
  Node, Nodes, nil, cons, level, fresh, nth, set_nth, remove_nth, push, position, find, any_level,
  child_index, size_nodes,
}

module _ {S : Type 0} where
  -- The child at a level, a fresh one if there is none.
  abbrev pub or_fresh : Bytes → Option (Node S) → Node S
  or_fresh s none = fresh s
  or_fresh s (some c) = c

  unfoldable pub put_child : Bytes → Node S → Nodes S → Nodes S
  put_child s c nil = cons c nil
  put_child s c (cons n ns) = if bytes_eq (level n) s then cons c ns else cons n (put_child s c ns)

  unfoldable pub drop_child : Bytes → Nodes S → Nodes S
  drop_child s nil = nil
  drop_child s (cons n ns) = if bytes_eq (level n) s then ns else cons n (drop_child s ns)

  -- No two nodes of the list have one level.
  abbrev pub Distinct : Nodes S → Type 0
  Distinct nil = Unit
  Distinct (cons n ns) = (find (level n) ns ≡ none) × Distinct ns

  abbrev pub is_present : Option (Node S) → Bool
  is_present none = false
  is_present (some c) = true

  pub level-find : (s : Bytes) (ns : Nodes S) (c : Node S) → find s ns ≡ some c → level c ≡ s
  unfolding find
  level-find s nil c h = cc
  level-find s (cons n ns) c h = ground (arith, bytes_eq_iff (level n) s, level-find s ns c)

  pub any_level_lem : (s : Bytes) (ns : Nodes S) → any_level s ns ≡ is_present (find s ns)
  unfolding any_level find
  any_level_lem s nil = refl
  any_level_lem s (cons n ns) = ground (arith, any_level_lem s ns)

  pub find-put_child :
      (s t : Bytes) (c : Node S) (ns : Nodes S)
      → level c ≡ s
      → find t (put_child s c ns) ≡ (if bytes_eq s t then some c else find t ns)
  unfolding find put_child
  find-put_child s t c nil h = rw h
  find-put_child s t c (cons n ns) h = ground (
    arith,
    bytes_eq_iff (level n) s,
    bytes_eq_iff (level n) t,
    bytes_eq_iff s t,
    find-put_child s t c ns,
  )

  pub put_child-Distinct :
      (s : Bytes) (c : Node S) (ns : Nodes S)
      → level c ≡ s
      → Distinct ns
      → Distinct (put_child s c ns)
  unfolding find put_child
  put_child-Distinct s c nil h d = (refl, tt)
  put_child-Distinct s c (cons n ns) h d = ground (
    arith,
    bytes_eq_iff (level n) s,
    bytes_eq_iff s (level n),
    find-put_child s (level n) c ns,
    put_child-Distinct s c ns,
  )

  pub find-drop_child :
      (s t : Bytes) (ns : Nodes S)
      → Distinct ns
      → find t (drop_child s ns) ≡ (if bytes_eq s t then none else find t ns)
  unfolding find drop_child
  find-drop_child s t nil d = ground arith
  find-drop_child s t (cons n ns) d = ground (
    arith,
    bytes_eq_iff (level n) s,
    bytes_eq_iff (level n) t,
    bytes_eq_iff s t,
    find-drop_child s t ns,
  )

  pub drop_child-Distinct : (s : Bytes) (ns : Nodes S) → Distinct ns → Distinct (drop_child s ns)
  unfolding find drop_child
  drop_child-Distinct s nil d = tt
  drop_child-Distinct s (cons n ns) d =
      ground (arith, find-drop_child s (level n) ns, drop_child-Distinct s ns)

  nth-push : (ns : Nodes S) (c : Node S) → nth (push ns c) (size_nodes ns) ≡ some c
  unfolding nth push
  nth-push nil c = refl
  nth-push (cons n ns) c = nth-push ns c

  size_nodes-push : (ns : Nodes S) (c : Node S) → size_nodes (push ns c) ≡ suc (size_nodes ns)
  unfolding push
  size_nodes-push nil c = refl
  size_nodes-push (cons n ns) c = ap suc (size_nodes-push ns c)

  set_nth-push :
      (s : Bytes) (ns : Nodes S) (a c : Node S)
      → position s ns ≡ none
      → set_nth (push ns a) (size_nodes ns) c ≡ put_child s c ns
  unfolding set_nth push position put_child
  set_nth-push s nil a c h = refl
  set_nth-push s (cons n ns) a c h = ground (arith, set_nth-push s ns a c)

  pub find-position : (s : Bytes) (ns : Nodes S) → position s ns ≡ none → find s ns ≡ none
  unfolding find position
  find-position s nil h = refl
  find-position s (cons n ns) h = ground (arith, find-position s ns)

  -- A position that was found is that of the child at the level.
  pub position_lem :
      (s : Bytes) (ns : Nodes S) (i : ℕ) (c : Node S)
      → position s ns ≡ some i
      → (nth ns i ≡ find s ns)
        × (set_nth ns i c ≡ put_child s c ns)
        × (remove_nth ns i ≡ drop_child s ns)
        × (is_present (find s ns) ≡ true)
  unfolding find position nth set_nth remove_nth put_child drop_child
  position_lem s nil i c h = absurd (cc)
  position_lem s (cons n ns) zero c h = ground arith
  position_lem s (cons n ns) (suc i) c h = ground (arith, position_lem s ns i c)

  -- The child that `insert` goes on with, and where it is put back.
  pub child_index_lem :
      (s : Bytes) (ns : Nodes S) (c : Node S)
      → let (ns', i) = child_index s ns in
        (nth ns' i ≡ some (or_fresh s (find s ns))) × (set_nth ns' i c ≡ put_child s c ns)
  unfolding child_index
  child_index_lem s ns c = elim (Option-cases (position s ns)) [
    | inl e ↦
        let at_end : size_nodes (push ns (fresh s)) - 1 ≡ size_nodes ns =
          omega (arith, size_nodes-push ns (fresh s)) in
        rw (e, find-position s ns e, at_end)
          (nth-push ns (fresh s), set_nth-push s ns (fresh s) c e)
    | inr (i, e) ↦
        let (seen, set, _, there) = position_lem s ns i c e in
        rw e (seen ∙ was_there (find s ns) there, set)
  ]
    where
      was_there : (o : Option (Node S)) → is_present o ≡ true → o ≡ some (or_fresh s o)
      was_there none h = cc
      was_there (some c) h = refl

  pub drop_child-put_child :
      (s : Bytes) (c : Node S) (ns : Nodes S)
      → level c ≡ s
      → drop_child s (put_child s c ns) ≡ drop_child s ns
  unfolding drop_child put_child
  drop_child-put_child s c nil h = rw (h, bytes_eq_refl s)
  drop_child-put_child s c (cons n ns) h =
      ground (arith, bytes_eq_refl s, drop_child-put_child s c ns h)
