-- ===== src/Router/Reach.antt =====
-- A key removed at a path of the trie, and the path that `Router::delete` finds.
use ocypode.Prelude.{
  ℕ, ◌≡◌, sym, ap, ◌∙◌, inl, inr, some, List, [], ◌∷◌, arith, Bytes, bytes_eq, bytes_eq_iff,
  Bool-cases, Option-cases, remove, if◌then◌else◌,
}
use ocypode.Router.{
  SubscriptionKey, Node, Nodes, level, children, subscription_map, with_subscriptions, find, nth,
  nodes_of, key_eq, position, ◌>>=◌,
}
use ocypode.Router.Removal.{find_path}
use ocypode.Router.Paths.{path_eq, at, below, at-cons, at-nil, at-with_subscriptions}
use ocypode.Router.Insert.{grow, grow_parts, at-grow}

module _ {S : Type 0} where
  -- What a removal at a path does to the subscriptions at every path.
  abbrev pub Deleted : List Bytes → SubscriptionKey → Node S → Node S → Type 0
  Deleted path key n n' =
      (q : List Bytes) → at q n' ≡ (if path_eq path q then remove key (at q n) else at q n)

  pub Deleted-nil :
      (key : SubscriptionKey) (n : Node S)
      → Deleted [] key n (with_subscriptions (remove key (subscription_map n)) n)
  Deleted-nil key n [] =
      at-with_subscriptions (remove key (subscription_map n)) n []
      ∙ ap (remove key) (sym (at-nil n))
  Deleted-nil key n (t ∷ q) = at-with_subscriptions (remove key (subscription_map n)) n (t ∷ q)

  pub Deleted-grow :
      (s : Bytes) (path : List Bytes) (key : SubscriptionKey) (n c c' : Node S)
      → find s (nodes_of (children n)) ≡ some c
      → level c' ≡ s
      → Deleted path key c c'
      → Deleted (s ∷ path) key n (grow s c' n)
  Deleted-grow s path key n c c' found h changed [] =
      at-nil (grow s c' n) ∙ (grow_parts s c' n).1 ∙ sym (at-nil n)
  Deleted-grow s path key n c c' found h changed (t ∷ q) = elim (Bool-cases (bytes_eq s t)) [
    | inl same ↦
        let before : at q c ≡ at (t ∷ q) n =
          sym (at-cons s q n ∙ ap (λ o. below o q) found)
          ∙ ap (λ x. at (x ∷ q) n) ((bytes_eq_iff s t).0 same) in
        at-grow s t q c' n h ∙ rw same (changed q ∙ rw before)
    | inr differs ↦ at-grow s t q c' n h ∙ rw differs
  ]

  pub find_path_inv :
      (s : Bytes) (segments : List Bytes) (path : List ℕ) (ns : Nodes S)
      → (position s ns >>= λ i.
          nth ns i >>= λ child. find_path segments child >>= λ rest. some (i ∷ rest))
        ≡ some path
      → (i : ℕ) × (c : Node S) × (rest : List ℕ) × (position s ns ≡ some i)
        × (nth ns i ≡ some c)
        × (find_path segments c ≡ some rest)
        × (path ≡ i ∷ rest)
  find_path_inv s segments path ns h = elim (Option-cases (position s ns)) [
    | inl e ↦ absurd (cc)
    | inr (i, e) ↦ elim (Option-cases (nth ns i)) [
      | inl f ↦ absurd (ground arith)
      | inr (c, f) ↦ elim (Option-cases (find_path segments c)) [
        | inl g ↦ absurd (ground arith)
        | inr (rest, g) ↦ (i, c, rest, e, f, g, ground arith)
      ]
    ]
  ]
