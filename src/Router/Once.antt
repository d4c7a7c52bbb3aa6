-- ===== src/Router/Once.antt =====
-- `Router::search` of crates/server/src/router.rs delivers to each subscription once.
use ocypode.Prelude.{
  ◌≤◌, ◌≡◌, refl, sym, ap, ◌∙◌, subst, inl, inr, ◌↔◌, some, List, [], ◌∷◌, arith, All, In, Bytes,
  bytes_eq, bytes_eq→eq, Bool-cases, ok,
}
use ocypode.Topic.{
  Topic, TopicFilter, new_topic, segments_of, remove_empty, wildcard_multi, global_prefix,
}
use ocypode.Topic.Shape.{matchable, HasWildcard, split-IsName}
use ocypode.Topic.Names.{TopicOutcome, new_topic_outcome, remove_empty_lem}
use ocypode.Router.{SubscriptionKey, SubscriptionResponse, Entry}
use ocypode.Router.Delivery.{weight}
use ocypode.Router.Registry
use ocypode.Router.Registry.{DashMap, Router}
use ocypode.Router.Paths.{at}
use ocypode.Router.Refinement.{IsCoherent, search_lem, Wanted}
use ocypode.Router.Count.{occurs, search_loop-total}
use ocypode.Router.Sums.{occurs-lookup}
use ocypode.Router.Sole.{IsPlain, IsSole, deliveries_one}

not_wild-IsPlain : (l : List Bytes) → All (λ seg. ¬ HasWildcard seg) l → IsPlain l
not_wild-IsPlain [] h = tt
not_wild-IsPlain (t ∷ l) h = (λ e. h.0 (rw e (inr (inl refl))), not_wild-IsPlain l h.1)

matchable-IsPlain : (l : List Bytes) → All (λ seg. ¬ HasWildcard seg) (matchable l) → IsPlain l
matchable-IsPlain [] h = tt
matchable-IsPlain (t ∷ l) h = elim (Bool-cases (bytes_eq t global_prefix)) [
  | inl same ↦ (
    λ e. let q : global_prefix ≡ wildcard_multi = sym (bytes_eq→eq t global_prefix same) ∙ e in cc,
    not_wild-IsPlain l (rw same at h),
  )
  | inr differs ↦ not_wild-IsPlain (t ∷ l) (rw differs at h)
]

-- The segments of an accepted topic.
new_topic-IsPlain :
    (raw : Bytes) (topic : Topic) → new_topic raw ≡ ok topic → IsPlain (segments_of topic.bytes)
unfolding segments_of
new_topic-IsPlain raw topic h =
    let (same, (segs, n, plain)) = subst (TopicOutcome raw) h (new_topic_outcome raw) in
    let e : segments_of topic.bytes ≡ segs =
      ap segments_of same ∙ ap remove_empty (split-IsName n) ∙ remove_empty_lem segs n.filled in
    subst IsPlain (sym e) (matchable-IsPlain segs plain)

module _ {D : DashMap} {S : Type 0} where
  IsCoherent-IsSole : (r : Router D S) (k : SubscriptionKey) → IsCoherent r → IsSole k r.root
  IsCoherent-IsSole r k v p q hp hq =
      let (t, tp) = occurs-lookup k (at p r.root) hp in
      let (u, uq) = occurs-lookup k (at q r.root) hq in
      let (f, found, sp) = v.indexed p k t tp in
      let (g, found', sq) = v.indexed q k u uq in
      let same : some f ≡ some g = sym found ∙ found' in
      sym sp ∙ ap {A = TopicFilter} (λ f. segments_of f.bytes) (cc same) ∙ sq

  -- In a coherent router, `search` for a topic that `Topic::new` accepted ends, and its list has one
  -- entry for each subscription whose filter matches, and no other: no key stands in it twice.
  pub search_once :
      (raw : Bytes) (topic : Topic) (r : Router D S)
      → new_topic raw ≡ ok topic
      → IsCoherent r
      → (found : SubscriptionResponse S) × (Registry.search D topic r ≡ some found)
        × ((e : Entry S) → In e found.subscription_list ↔ Wanted r topic e)
        × ((k : SubscriptionKey) → occurs k found.subscription_list ≤ 1)
  search_once raw topic r accepted v =
      let (found, ran, _, exact) = search_lem topic r v.formed in
      let start : SubscriptionResponse S = record {
        subscription_list = [];
        queue_group_list = [];
      } in
      (
        found,
        ran,
        exact,
        λ k. omega (
          arith,
          search_loop-total k (weight r.root) ((r.root, segments_of topic.bytes) ∷ []) start found
              (v.formed, tt) (unfold Registry.search in ran),
          deliveries_one k (segments_of topic.bytes) r.root v.formed
              (new_topic-IsPlain raw topic accepted) (IsCoherent-IsSole r k v),
        ),
      )
