-- ===== src/Router/Shrink.antt =====
-- A node without one of its children, as the pruning of `delete` leaves it.
use ocypode.Prelude.{
  ◌≡◌, refl, sym, ap, ◌∙◌, inl, inr, true, none, some, List, [], ◌∷◌, arith, Bytes, bytes_eq,
  bytes_eq_iff, Bool-cases, if◌then◌else◌,
}
use ocypode.Topic.{wildcard_single, wildcard_multi}
use ocypode.Router.{
  Node, Nodes, node, absent, present, nil, cons, level, children, subscription_map, find, nodes_of,
  key_eq, set_flag,
}
use ocypode.Router.Removal.{is_unused, or_absent, without_child}
use ocypode.Router.Levels.{
  is_present, drop_child, find-drop_child, drop_child-Distinct, any_level_lem,
}
use ocypode.Router.Paths.{
  at, below, at-cons, at-nil, IsNotNil, IsSound, WellFormed, well_formed, WellFormed-IsSound,
  WellFormed-child,
}
use ocypode.Router.Insert.{both_flags}

module _ {S : Type 0} where
  -- An unused node holds nothing at any path.
  pub at-is_unused : (c : Node S) (q : List Bytes) → is_unused c ≡ true → at q c ≡ []
  unfolding at is_unused find
  at-is_unused (node l subs groups absent single multi) [] h = ground arith
  at-is_unused (node l subs groups absent single multi) (t ∷ q) h = refl
  at-is_unused (node l subs groups (present ns) single multi) q h = absurd (cc)

  -- Where the child is there, its flag is set already.
  pub set_flag-IsSound :
      (s : Bytes) (n : Node S)
      → IsSound n
      → is_present (find s (nodes_of (children n))) ≡ true
      → set_flag s n ≡ n
  unfolding set_flag
  set_flag-IsSound s (node l subs groups ch single multi) v h = ground (
    arith,
    v.single_flag,
    v.multi_flag,
    bytes_eq_iff s wildcard_single,
    bytes_eq_iff s wildcard_multi,
  )

  nodes_of-or_absent : (ns : Nodes S) → nodes_of (or_absent ns) ≡ ns
  nodes_of-or_absent nil = refl
  nodes_of-or_absent (cons n ns) = refl

  or_absent-IsNotNil : (ns : Nodes S) → IsNotNil (or_absent ns)
  or_absent-IsNotNil nil = tt
  or_absent-IsNotNil (cons n ns) = tt

  -- The node without its child at `s`.
  abbrev pub shrink : Bytes → Node S → Node S
  shrink s n = without_child s (drop_child s (nodes_of (children n))) n

  pub shrink_parts :
      (s : Bytes) (n : Node S)
      → (level (shrink s n) ≡ level n)
        × (subscription_map (shrink s n) ≡ subscription_map n)
        × (nodes_of (children (shrink s n)) ≡ drop_child s (nodes_of (children n)))
  unfolding without_child
  shrink_parts s (node l subs groups ch single multi) =
      ground (arith, nodes_of-or_absent (drop_child s (nodes_of ch)))

  shrink-IsSound : (s : Bytes) (n : Node S) → IsSound n → IsSound (shrink s n)
  unfolding without_child
  shrink-IsSound s (node l subs groups ch single multi) v =
      let rest = drop_child s (nodes_of ch) in
      record {
        no_groups = ground (arith, v.no_groups);
        single_flag = ground (
          arith,
          v.single_flag,
          nodes_of-or_absent rest,
          any_level_lem wildcard_single rest,
          find-drop_child s wildcard_single (nodes_of ch) v.distinct,
        );
        multi_flag = ground (
          arith,
          v.multi_flag,
          both_flags s,
          nodes_of-or_absent rest,
          any_level_lem wildcard_multi rest,
          find-drop_child s wildcard_multi (nodes_of ch) v.distinct,
        );
        distinct =
            ground (arith, nodes_of-or_absent rest, drop_child-Distinct s (nodes_of ch) v.distinct);
        unique = ground (arith, v.unique);
        not_nil = ground (arith, or_absent-IsNotNil rest);
      }

  pub shrink-WellFormed : (s : Bytes) (n : Node S) → WellFormed n → WellFormed (shrink s n)
  shrink-WellFormed s n w =
      let v = WellFormed-IsSound w in
      let (_, _, kids) = shrink_parts s n in
      well_formed (shrink-IsSound s n v) λ t d found.
        by_level t d
          (sym (ap (find t) kids ∙ find-drop_child s t (nodes_of (children n)) v.distinct) ∙ found)
    where
      by_level :
          (t : Bytes) (d : Node S)
          → (if bytes_eq s t then none else find t (nodes_of (children n))) ≡ some d
          → WellFormed d
      by_level t d e = elim (Bool-cases (bytes_eq s t)) [
        | inl same ↦ let p : none ≡ some d = rw same at e in absurd (cc)
        | inr differs ↦ WellFormed-child w t d (rw differs at e)
      ]

  -- Dropping a child that holds nothing changes no path.
  pub at-shrink :
      (s : Bytes) (n : Node S) (q : List Bytes)
      → WellFormed n
      → ((path : List Bytes) → below (find s (nodes_of (children n))) path ≡ [])
      → at q (shrink s n) ≡ at q n
  at-shrink s n [] w h = at-nil (shrink s n) ∙ (shrink_parts s n).1 ∙ sym (at-nil n)
  at-shrink s n (t ∷ q) w h =
      let (_, _, kids) = shrink_parts s n in
      at-cons t q (shrink s n)
      ∙ ap (λ k. below (find t k) q) kids
      ∙ ap (λ o. below o q)
          (find-drop_child s t (nodes_of (children n)) (WellFormed-IsSound w).distinct)
      ∙ by_level
      ∙ sym (at-cons t q n)
    where
      by_level :
          below (if bytes_eq s t then none else find t (nodes_of (children n))) q
          ≡ below (find t (nodes_of (children n))) q
      by_level = elim (Bool-cases (bytes_eq s t)) [
        | inl same ↦ rw same (
            sym (h q)
            ∙ ap (λ x. below (find x (nodes_of (children n))) q) ((bytes_eq_iff s t).0 same))
        | inr differs ↦ rw differs
      ]
