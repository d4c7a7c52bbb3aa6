-- ===== src/Router/Matching.antt =====
-- Which filters match a topic, and what a walk from a node has to deliver.
use ocypode.Prelude.{
  ◌≡◌, refl, sym, ap, ◌∙◌, subst, ◌⊎◌, inl, inr, ◌↔◌, Option, none, some, List, [], ◌∷◌, map, Bytes,
  In, In-lookup, lookup-In, lookup, UniqueKeys, bytes_eq, bytes_eq_iff, bytes_eq_refl, Bool-cases,
}
use ocypode.Topic.{wildcard_single, wildcard_multi}
use ocypode.Router.{
  key_eq, SubscriptionKey, SubscriptionMap, Entry, Node, Nodes, nil, cons, level, children,
  nodes_of, find, subscription_map,
}
use ocypode.Router.Delivery.{entry}
use ocypode.Router.Levels.{Distinct}
use ocypode.Router.Paths.{at, below, at-cons, at-nil}

-- The segments of a filter against those of a topic: `+` stands for any one segment, a final `#`
-- for any number of them, zero included, and any other segment for itself.
abbrev pub Matches : List Bytes → List Bytes → Type 0
Matches [] [] = Unit
Matches [] (t ∷ topic) = ⊥
Matches (s ∷ filter) [] = (s ≡ wildcard_multi) × (filter ≡ [])
Matches (s ∷ filter) (t ∷ topic) =
    ((s ≡ wildcard_multi) × (filter ≡ []))
    ⊎ (((s ≡ t) ⊎ (s ≡ wildcard_single)) × Matches filter topic)

pub Matches-multi : (topic : List Bytes) → Matches (wildcard_multi ∷ []) topic
Matches-multi [] = (refl, refl)
Matches-multi (t ∷ topic) = inl (refl, refl)

module _ {S : Type 0} where
  -- The node has the entry at the end of a path that matches the topic.
  abbrev pub Delivers : Node S → List Bytes → Entry S → Type 0
  Delivers n topic e = (filter : List Bytes) × Matches filter topic × In e (map entry (at filter n))

  abbrev pub AtMulti : Node S → Entry S → Type 0
  AtMulti n e = In e (map entry (at (wildcard_multi ∷ []) n))

  pub Delivers-nil :
      (n : Node S) (e : Entry S)
      → Delivers n [] e ↔ (AtMulti n e ⊎ In e (map entry (subscription_map n)))
  Delivers-nil n e = (apart, together)
    where
      apart : Delivers n [] e → AtMulti n e ⊎ In e (map entry (subscription_map n))
      apart ([], _, i) = inr (subst (λ m. In e (map entry m)) (at-nil n) i)
      apart (s ∷ filter, (p, q), i) = inl (
          subst (λ f. In e (map entry (at f n)))
            (ap (λ x. x ∷ filter) p ∙ ap (λ f. wildcard_multi ∷ f) q) i)

      together : AtMulti n e ⊎ In e (map entry (subscription_map n)) → Delivers n [] e
      together (inl i) = (wildcard_multi ∷ [], (refl, refl), i)
      together (inr i) = ([], tt, subst (λ m. In e (map entry m)) (sym (at-nil n)) i)

  -- A child on the way to a match, and what it delivers of the rest.
  abbrev pub DeliversBelow : Node S → Bytes → List Bytes → Entry S → Type 0
  DeliversBelow n t rest e =
      (s : Bytes) × (c : Node S) × ((s ≡ t) ⊎ (s ≡ wildcard_single))
      × (find s (nodes_of (children n)) ≡ some c)
      × Delivers c rest e

  pub Delivers-cons :
      (n : Node S) (t : Bytes) (rest : List Bytes) (e : Entry S)
      → Delivers n (t ∷ rest) e ↔ (AtMulti n e ⊎ DeliversBelow n t rest e)
  Delivers-cons n t rest e = (apart, together)
    where
      into :
          (s : Bytes) (filter : List Bytes) (o : Option (Node S))
          → find s (nodes_of (children n)) ≡ o
          → (s ≡ t) ⊎ (s ≡ wildcard_single)
          → Matches filter rest
          → In e (map entry (below o filter))
          → DeliversBelow n t rest e
      into s filter none found k m i = absurd i
      into s filter (some c) found k m i = (s, c, k, found, (filter, m, i))

      apart : Delivers n (t ∷ rest) e → AtMulti n e ⊎ DeliversBelow n t rest e
      apart ([], m, i) = absurd m
      apart (s ∷ filter, inl (p, q), i) = inl (
          subst (λ f. In e (map entry (at f n)))
            (ap (λ x. x ∷ filter) p ∙ ap (λ f. wildcard_multi ∷ f) q) i)
      apart (s ∷ filter, inr (k, m), i) = inr (
          into s filter (find s (nodes_of (children n))) refl k m
            (subst (λ l. In e (map entry l)) (at-cons s filter n) i))

      together : AtMulti n e ⊎ DeliversBelow n t rest e → Delivers n (t ∷ rest) e
      together (inl i) = (wildcard_multi ∷ [], inl (refl, refl), i)
      together (inr (s, c, k, found, (filter, m, i))) = (
        s ∷ filter,
        inr (k, m),
        subst (λ l. In e (map entry l)) (sym (at-cons s filter n ∙ ap (λ o. below o filter) found))
            i,
      )

  -- The nodes of a list.
  abbrev pub InNodes : Node S → Nodes S → Type 0
  InNodes c nil = ⊥
  InNodes c (cons n ns) = (c ≡ n) ⊎ InNodes c ns

  pub find-InNodes : (s : Bytes) (ns : Nodes S) (c : Node S) → find s ns ≡ some c → InNodes c ns
  unfolding find
  find-InNodes s nil c h = absurd (cc)
  find-InNodes s (cons n ns) c h = elim (Bool-cases (bytes_eq (level n) s)) [
    | inl same ↦ inl (let p : some n ≡ some c = rw same at h in sym (cc p))
    | inr differs ↦ inr (find-InNodes s ns c (rw differs at h))
  ]

  pub InNodes-find :
      (ns : Nodes S) (c : Node S) → Distinct ns → InNodes c ns → find (level c) ns ≡ some c
  unfolding find
  InNodes-find nil c d i = absurd i
  InNodes-find (cons n ns) c d (inl p) = rw (p, bytes_eq_refl (level n)) refl
  InNodes-find (cons n ns) c d (inr i) = elim (Bool-cases (bytes_eq (level n) (level c))) [
    | inl same ↦
        let twice : find (level c) ns ≡ none =
          ap (λ l. find l ns) (sym ((bytes_eq_iff (level n) (level c)).0 same)) ∙ d.0 in
        absurd (never twice (InNodes-find ns c d.1 i))
    | inr differs ↦ rw differs (InNodes-find ns c d.1 i)
  ]
    where
      never : {o : Option (Node S)} {x : Node S} → o ≡ none → o ≡ some x → ⊥
      never p q = cc

  -- The key of an entry that is delivered.
  abbrev pub key_of : Entry S → SubscriptionKey
  key_of e = record { client_id = e.0; subscription_id = e.1.subscription_id }

  In-entry : (e : Entry S) (m : SubscriptionMap S) → In e (map entry m) → In (key_of e, e.1.tx) m
  In-entry e [] i = i
  In-entry e ((k, tx) ∷ m) (inl p) = inl (ap (λ x. (key_of x, x.1.tx)) p)
  In-entry e ((k, tx) ∷ m) (inr i) = inr (In-entry e m i)

  entry-In : (e : Entry S) (m : SubscriptionMap S) → In (key_of e, e.1.tx) m → In e (map entry m)
  entry-In e [] i = i
  entry-In e ((k, tx) ∷ m) (inl p) = inl (ap entry p)
  entry-In e ((k, tx) ∷ m) (inr i) = inr (entry-In e m i)

  pub entry-lookup :
      (e : Entry S) (m : SubscriptionMap S)
      → UniqueKeys m
      → In e (map entry m) ↔ (lookup (key_of e) m ≡ some e.1.tx)
  entry-lookup e m u = (
    λ i. lookup-In (key_of e) e.1.tx m u (In-entry e m i),
    λ h. entry-In e m (In-lookup (key_of e) e.1.tx m h),
  )
