-- ===== src/Router/Answers.antt =====
-- What a client of the router in crates/server/src/router.rs can observe: the answers of `search`,
-- up to the order in which a `HashMap` is walked, whatever the maps and the order of the calls.
mod Examples
use mathlib.Core.Quot
use mathlib.Core.Quot.{Quot}
use ocypode.Prelude.{
  ℕ, zero, suc, ◌+◌, ◌≤◌, ◌<◌, ◌≡◌, refl, sym, ap, ◌∙◌, subst, ◌⊎◌, inl, inr, ◌↔◌, true, false,
  Option, none, some, List, [], ◌∷◌, arith, In, Bool-cases, if◌then◌else◌, Result, ok, fun_ext,
  Bytes,
}
use ocypode.Topic.{Topic, new_topic}
use ocypode.Router.{SubscriptionKey, key_beq, key_beq_iff, SubscriptionResponse, Entry, ◌>>=◌}
use ocypode.Router.Matching.{key_of}
use ocypode.Router.Registry
use ocypode.Router.Registry.{DashMap, Router}
use ocypode.Router.Refinement.{IsCoherent, Wanted}
use ocypode.Router.Runs.{
  Op, IsFresh, Subscriptions, Chosen, run, replay, view, run-new, Wanted-view,
}
use ocypode.Router.Count.{occurs}
use ocypode.Router.Once.{search_once}

module _ {S : Type 0} where
  -- The same entries, and each key as often.
  abbrev pub SameDelivery : List (Entry S) → List (Entry S) → Type 0
  SameDelivery xs ys =
      ((e : Entry S) → In e xs ↔ In e ys) × ((k : SubscriptionKey) → occurs k xs ≡ occurs k ys)

  occurs-In :
      (k : SubscriptionKey) (xs : List (Entry S))
      → 0 < occurs k xs
      → (e : Entry S) × In e xs × (key_of e ≡ k)
  occurs-In k [] h = absurd (omega (arith, h))
  occurs-In k (e ∷ xs) h = elim (Bool-cases (key_beq (key_of e) k)) [
    | inl same ↦ (e, inl refl, (key_beq_iff (key_of e) k).0 same)
    | inr differs ↦
        let rest : 0 < 0 + occurs k xs = rw differs at h in
        let (x, i, p) = occurs-In k xs (omega (arith, rest)) in (x, inr i, p)
  ]

  In-occurs : (e : Entry S) (xs : List (Entry S)) → In e xs → 0 < occurs (key_of e) xs
  In-occurs e [] i = absurd i
  In-occurs e (x ∷ xs) (inl p) =
      rw (sym p, (key_beq_iff (key_of e) (key_of e)).1 refl) (omega arith)
  In-occurs e (x ∷ xs) (inr i) = omega (arith, In-occurs e xs i)

  occurs_before :
      (k : SubscriptionKey) (xs ys : List (Entry S))
      → ((e : Entry S) → In e xs → In e ys)
      → occurs k xs ≤ 1
      → occurs k xs ≤ occurs k ys
  occurs_before k xs ys into small = by_count (occurs k xs) refl
    where
      by_count : (n : ℕ) → occurs k xs ≡ n → occurs k xs ≤ occurs k ys
      by_count zero e = omega (arith, e)
      by_count (suc n) e =
          let (x, i, p) = occurs-In k xs (omega (arith, e)) in
          let there : 0 < occurs k ys =
            subst (λ j. 0 < occurs j ys) p (In-occurs x ys (into x i)) in
          omega (arith, small, there)

  -- Where no key stands twice, the same entries are the same delivery.
  unique-SameDelivery :
      (xs ys : List (Entry S))
      → ((k : SubscriptionKey) → occurs k xs ≤ 1)
      → ((k : SubscriptionKey) → occurs k ys ≤ 1)
      → ((e : Entry S) → In e xs ↔ In e ys)
      → SameDelivery xs ys
  unique-SameDelivery xs ys ux uy alike = (
    alike,
    λ k. omega (
      arith,
      occurs_before k xs ys (λ e. (alike e).0) (ux k),
      occurs_before k ys xs (λ e. (alike e).1) (uy k),
    ),
  )

-- An answer of `search` without the order of its list.
abbrev pub Answer : Type 0 → Type 0
Answer S = Quot (SameDelivery {S = S})

abbrev pub answer : {S : Type 0} → Option (SubscriptionResponse S) → Option (Answer S)
answer none = none
answer (some found) = some (Quot.mk found.subscription_list)

module _ (D E : DashMap) {S : Type 0} where
  -- The answer is a function of the view.
  search-view :
      (raw : Bytes) (topic : Topic) (r : Router D S) (r' : Router E S)
      → new_topic raw ≡ ok topic
      → IsCoherent r
      → IsCoherent r'
      → view r ≡ view r'
      → (a : Answer S) × (answer (Registry.search D topic r) ≡ some a)
        × (answer (Registry.search E topic r') ≡ some a)
  search-view raw topic r r' accepted v v' same =
      let (found, ran, exact, once) = search_once raw topic r accepted v in
      let (found', ran', exact', once') = search_once raw topic r' accepted v' in
      let alike : (e : Entry S) → Wanted r topic e ↔ Wanted r' topic e = λ e.
        let (to, from) = Wanted-view r topic e v in
        let (to', from') = Wanted-view r' topic e v' in
        (
          λ w. from' (subst (λ m. Chosen m topic e) same (to w)),
          λ w. from (subst (λ m. Chosen m topic e) (sym same) (to' w)),
        ) in
      let delivery : SameDelivery found.subscription_list found'.subscription_list =
        unique-SameDelivery found.subscription_list found'.subscription_list once once' (λ e. (
          λ i. (exact' e).1 ((alike e).0 ((exact e).0 i)),
          λ i. (exact e).1 ((alike e).1 ((exact' e).0 i)),
        )) in
      (
        Quot.mk found.subscription_list,
        ap answer ran,
        ap answer ran' ∙ ap some (sym (Quot.sound delivery)),
      )

  -- Two runs on new routers, over two maps in the place of `DashMap`, whose calls leave the same
  -- subscriptions on replay, however they are ordered, give the same answer for each topic that
  -- `Topic::new` accepts, the order of its list aside. In both, no identifier in use is taken again.
  pub run_answers :
      (raw : Bytes) (topic : Topic) (ops ops' : List (Op S))
      → new_topic raw ≡ ok topic
      → IsFresh ops (λ _. none)
      → IsFresh ops' (λ _. none)
      → replay ops (λ _. none) ≡ replay ops' (λ _. none)
      → (a : Answer S) × (answer (run ops (Registry.new D) >>= λ r. Registry.search D topic r)
          ≡ some a)
        × (answer (run ops' (Registry.new E) >>= λ r. Registry.search E topic r) ≡ some a)
  run_answers raw topic ops ops' accepted h h' same =
      let (r, e, v, s) = run-new ops h in
      let (r', e', v', s') = run-new ops' h' in
      let (a, p, p') = search-view raw topic r r' accepted v v' (s ∙ same ∙ sym s') in
      (
        a,
        ap (λ o. answer (o >>= λ x. Registry.search D topic x)) e ∙ p,
        ap (λ o. answer (o >>= λ x. Registry.search E topic x)) e' ∙ p',
      )
