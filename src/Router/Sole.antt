-- ===== src/Router/Sole.antt =====
-- A key that stands at one path of the trie of crates/server/src/router.rs is delivered at most once.
use ocypode.Prelude.{
  ℕ, ◌≤◌, ◌<◌, ◌≡◌, sym, ap, ◌∙◌, inl, inr, true, some, List, [], ◌∷◌, map, arith, All, Bytes,
  bytes_eq, bytes_eq_iff, Bool-cases,
}
use ocypode.Topic.{wildcard_single, wildcard_multi}
use ocypode.Router.{
  SubscriptionKey, key_eq, Node, level, children, nodes_of, find, subscription_map,
}
use ocypode.Router.Delivery.{entry, is_match}
use ocypode.Router.Paths.{
  at, below, at-cons, at-nil, WellFormed, WellFormed-IsSound, WellFormed-child, at-WellFormed,
}
use ocypode.Router.Matching.{InNodes, InNodes-find}
use ocypode.Router.Count.{occurs, held, sum_matching, deliveries}
use ocypode.Router.Sums.{zero_or_more, occurs_one, sum_matching_positive, sum_matching_one}

-- No segment of a topic is `#`.
abbrev pub IsPlain : List Bytes → Type 0
IsPlain topic = All (λ t. ¬ (t ≡ wildcard_multi)) topic

module _ {S : Type 0} where
  held-cons :
      (k : SubscriptionKey) (c : Node S) (path : List Bytes) (n : Node S)
      → find (level c) (nodes_of (children n)) ≡ some c
      → held k (level c ∷ path) n ≡ held k path c
  held-cons k c path n f =
      ap (λ m. occurs k (map entry m)) (at-cons (level c) path n ∙ ap (λ o. below o path) f)

  -- The key stands at one path at most.
  abbrev pub IsSole : SubscriptionKey → Node S → Type 0
  IsSole k n = (p q : List Bytes) → 0 < held k p n → 0 < held k q n → p ≡ q

  IsSole-child :
      (k : SubscriptionKey) (n c : Node S)
      → find (level c) (nodes_of (children n)) ≡ some c
      → IsSole k n
      → IsSole k c
  IsSole-child k n c f sole p q h i =
      let e : level c ∷ p ≡ level c ∷ q =
        sole (level c ∷ p) (level c ∷ q) (omega (arith, h, held-cons k c p n f))
          (omega (arith, i, held-cons k c q n f)) in
      cc e

  child_found :
      (n c : Node S)
      → WellFormed n
      → InNodes c (nodes_of (children n))
      → find (level c) (nodes_of (children n)) ≡ some c
  child_found n c w i = InNodes-find (nodes_of (children n)) c (WellFormed-IsSound w).distinct i

  held-child :
      (k : SubscriptionKey) (n c : Node S) (p : List Bytes)
      → WellFormed n
      → InNodes c (nodes_of (children n))
      → 0 < held k p c
      → 0 < held k (level c ∷ p) n
  held-child k n c p w i h = omega (arith, h, held-cons k c p n (child_found n c w i))

  child-WellFormed :
      (n c : Node S) → WellFormed n → InNodes c (nodes_of (children n)) → WellFormed c
  child-WellFormed n c w i = WellFormed-child w (level c) c (child_found n c w i)

  held-nil :
      (k : SubscriptionKey) (n : Node S) → held k [] n ≡ occurs k (map entry (subscription_map n))
  held-nil k n = ap (λ m. occurs k (map entry m)) (at-nil n)

  -- What is delivered under a key stands at a path of the trie.
  deliveries_path :
      (k : SubscriptionKey) (topic : List Bytes) (n : Node S)
      → WellFormed n
      → 0 < deliveries k topic n
      → (p : List Bytes) × (0 < held k p n)
  deliveries_path k [] n w h = elim (zero_or_more (held k (wildcard_multi ∷ []) n)) [
    | inl nothing ↦ ([], omega (arith, h, nothing, held-nil k n))
    | inr p ↦ (wildcard_multi ∷ [], p)
  ]
  deliveries_path k (t ∷ rest) n w h = elim (zero_or_more (held k (wildcard_multi ∷ []) n)) [
    | inl nothing ↦
        let (c, i, _, q) =
          sum_matching_positive t (λ c. deliveries k rest c) (nodes_of (children n))
            (omega (arith, h, nothing)) in
        let (p, found) = deliveries_path k rest c (child-WellFormed n c w i) q in
        (level c ∷ p, held-child k n c p w i found)
    | inr p ↦ (wildcard_multi ∷ [], p)
  ]

  not_multi :
      (t : Bytes) (c : Node S)
      → ¬ (t ≡ wildcard_multi)
      → is_match t c ≡ true
      → ¬ (level c ≡ wildcard_multi)
  not_multi t c plain m e = elim (Bool-cases (bytes_eq (level c) t)) [
    | inl same ↦ plain (sym ((bytes_eq_iff (level c) t).0 same) ∙ e)
    | inr differs ↦
        let plus : level c ≡ wildcard_single =
          (bytes_eq_iff (level c) wildcard_single).0 (rw differs at m) in
        absurd (let q : wildcard_single ≡ wildcard_multi = sym plus ∙ e in cc)
  ]

  -- A key that stands at one path is delivered once at most, to a topic without `#`.
  pub deliveries_one :
      (k : SubscriptionKey) (topic : List Bytes) (n : Node S)
      → WellFormed n
      → IsPlain topic
      → IsSole k n
      → deliveries k topic n ≤ 1
  deliveries_one k [] n w plain sole =
      let starred =
        occurs_one k (at (wildcard_multi ∷ []) n) (at-WellFormed (wildcard_multi ∷ []) w) in
      let own = occurs_one k (subscription_map n) (WellFormed-IsSound w).unique in
      elim (zero_or_more (held k (wildcard_multi ∷ []) n)) [
        | inl nothing ↦ omega (arith, nothing, own)
        | inr p ↦ elim (zero_or_more (occurs k (map entry (subscription_map n)))) [
          | inl nothing ↦ omega (arith, nothing, starred)
          | inr q ↦ absurd (
              let e : wildcard_multi ∷ [] ≡ [] =
                sole (wildcard_multi ∷ []) [] p (omega (arith, q, held-nil k n)) in
              cc)
        ]
      ]
  deliveries_one k (t ∷ rest) n w (plain, plains) sole =
      elim (zero_or_more (held k (wildcard_multi ∷ []) n)) [
        | inl nothing ↦ omega (
          arith,
          nothing,
          one_below (λ c i.
              deliveries_one k rest c (child-WellFormed n c w i) plains
                (IsSole-child k n c (child_found n c w i) sole)),
        )
        | inr p ↦ elim (zero_or_more (sum_matching t below_child (nodes_of (children n)))) [
          | inl nothing ↦ omega (
            arith,
            nothing,
            occurs_one k (at (wildcard_multi ∷ []) n) (at-WellFormed (wildcard_multi ∷ []) w),
          )
          | inr q ↦
              let (c, i, m, d) = sum_matching_positive t below_child (nodes_of (children n)) q in
              let (path, found) = path_of c i d in
              let e : wildcard_multi ∷ [] ≡ level c ∷ path =
                sole (wildcard_multi ∷ []) (level c ∷ path) p found in
              absurd (not_multi t c plain m (cc e))
        ]
      ]
    where
      below_child : Node S → ℕ
      below_child c = deliveries k rest c

      path_of :
          (c : Node S)
          → InNodes c (nodes_of (children n))
          → 0 < below_child c
          → (p : List Bytes) × (0 < held k (level c ∷ p) n)
      path_of c i d =
          let (p, found) = deliveries_path k rest c (child-WellFormed n c w i) d in
          (p, held-child k n c p w i found)

      one_below :
          ((c : Node S) → InNodes c (nodes_of (children n)) → below_child c ≤ 1)
          → sum_matching t below_child (nodes_of (children n)) ≤ 1
      one_below small =
          sum_matching_one t below_child (nodes_of (children n)) (WellFormed-IsSound w).distinct
            (λ c i m. small c i)
            (λ c d i j m l pc pd.
              let (p, fp) = path_of c i pc in
              let (q, fq) = path_of d j pd in
              let e : level c ∷ p ≡ level d ∷ q = sole (level c ∷ p) (level d ∷ q) fp fq in cc e)
