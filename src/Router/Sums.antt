-- ===== src/Router/Sums.antt =====
-- Counting a key in the maps and the matching children of the trie of crates/server/src/router.rs.
use ocypode.Prelude.{
  ℕ, zero, suc, ◌≤◌, ◌<◌, ◌≡◌, refl, sym, ap, ◌∙◌, ◌⊎◌, inl, inr, Bool, true, false, Option, none,
  some, [], ◌∷◌, map, arith, Bytes, Bool-cases, if◌then◌else◌, lookup, UniqueKeys, Option-cases,
}
use ocypode.Router.{
  SubscriptionKey, SubscriptionMap, key_beq_iff, key_eq, Node, Nodes, nil, cons, level, find,
}
use ocypode.Router.Delivery.{entry, is_match}
use ocypode.Router.Levels.{Distinct}
use ocypode.Router.Matching.{InNodes, InNodes-find}
use ocypode.Router.Count.{occurs, sum_matching}

pub zero_or_more : (n : ℕ) → (n ≡ 0) ⊎ (0 < n)
zero_or_more zero = inl refl
zero_or_more (suc n) = inr (omega arith)

never {ℓ} : {A : Type ℓ} {o : Option A} {a : A} → o ≡ none → o ≡ some a → ⊥
never p q = cc

module _ {S : Type 0} where
  occurs-absent :
      (k : SubscriptionKey) (m : SubscriptionMap S) → lookup k m ≡ none → occurs k (map entry m) ≡ 0
  unfolding lookup key_eq
  occurs-absent k [] h = refl
  occurs-absent k ((j, tx) ∷ m) h = ground (arith, occurs-absent k m)

  -- A key that occurs in a map is found there, and a map without repetition has it once.
  pub occurs-lookup :
      (k : SubscriptionKey) (m : SubscriptionMap S)
      → 0 < occurs k (map entry m)
      → (tx : S) × (lookup k m ≡ some tx)
  occurs-lookup k m h = elim (Option-cases (lookup k m)) [
    | inl e ↦ absurd (omega (arith, h, occurs-absent k m e))
    | inr found ↦ found
  ]

  pub occurs_one :
      (k : SubscriptionKey) (m : SubscriptionMap S) → UniqueKeys m → occurs k (map entry m) ≤ 1
  unfolding lookup key_eq
  occurs_one k [] u = omega arith
  occurs_one k ((j, tx) ∷ m) u =
      ground (arith, key_beq_iff j k, occurs-absent k m, occurs-absent j m, occurs_one k m)

  -- A positive sum has a positive term.
  pub sum_matching_positive :
      (t : Bytes) (f : Node S → ℕ) (ns : Nodes S)
      → 0 < sum_matching t f ns
      → (c : Node S) × InNodes c ns × (is_match t c ≡ true) × (0 < f c)
  sum_matching_positive t f nil h = absurd (omega (arith, h))
  sum_matching_positive t f (cons c ns) h = elim (zero_or_more (if is_match t c then f c else 0)) [
    | inl nothing ↦
        let (d, i, m, p) = sum_matching_positive t f ns (omega (arith, h, nothing)) in
        (d, inr i, m, p)
    | inr some_more ↦ elim (Bool-cases (is_match t c)) [
      | inl m ↦ (c, inl refl, m, rw m at some_more)
      | inr m ↦ absurd (let i : 0 < 0 = rw m at some_more in omega (arith, i))
    ]
  ]

  -- Terms of at most 1, of which no two with different levels are positive, sum up to at most 1.
  pub sum_matching_one :
      (t : Bytes) (f : Node S → ℕ) (ns : Nodes S)
      → Distinct ns
      → ((c : Node S) → InNodes c ns → is_match t c ≡ true → f c ≤ 1)
      → ((c d : Node S)
          → InNodes c ns
          → InNodes d ns
          → is_match t c ≡ true
          → is_match t d ≡ true
          → 0 < f c
          → 0 < f d
          → level c ≡ level d)
      → sum_matching t f ns ≤ 1
  sum_matching_one t f nil distinct small alike = omega arith
  sum_matching_one t f (cons c ns) distinct small alike =
      elim (zero_or_more (sum_matching t f ns)) [
        | inl nothing ↦ omega (arith, nothing, first (is_match t c) refl)
        | inr some_more ↦
            let (d, i, m, p) = sum_matching_positive t f ns some_more in
            let rest =
              sum_matching_one t f ns distinct.1 (λ x j. small x (inr j))
                (λ x y j l. alike x y (inr j) (inr l)) in
            omega (arith, rest, none_first d i m p (is_match t c) refl)
      ]
    where
      first : (b : Bool) → is_match t c ≡ b → (if b then f c else 0) ≤ 1
      first true m = small c (inl refl) m
      first false m = omega arith

      twice : (d : Node S) → InNodes d ns → ¬ (level c ≡ level d)
      twice d i e =
          never (ap (λ l. find l ns) (sym e) ∙ distinct.0) (InNodes-find ns d distinct.1 i)

      none_first :
          (d : Node S)
          → InNodes d ns
          → is_match t d ≡ true
          → 0 < f d
          → (b : Bool) → is_match t c ≡ b
          → (if b then f c else 0) ≡ 0
      none_first d i m p true k = elim (zero_or_more (f c)) [
        | inl nothing ↦ nothing
        | inr q ↦ absurd (twice d i (alike c d (inl refl) (inr i) k m q p))
      ]
      none_first d i m p false k = refl
