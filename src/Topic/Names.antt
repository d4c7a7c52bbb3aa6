-- ===== src/Topic/Names.antt =====
-- `Topic::new` and `TopicFilter::new` against `IsTopic` and `IsFilter`.
use ocypode.Prelude.{
  ◌≡◌, refl, sym, ap, subst, ◌∙◌, inl, inr, List, [], ◌∷◌, arith, Bytes, All, All-at, In, length,
  bytes_eq, Bool-cases, Result, ok, err, panic, ◌>>=◌, ◌>>◌, try_for_each, enumerate,
}
use ocypode.Topic.{
  TopicError, wildcard_in_publish_topic, multi_wildcard_not_terminal, invalid_wildcard_usage, Topic,
  TopicFilter, global_prefix, split, segments_of, remove_empty, validate_segments,
  matchable_segments, reject_wildcard, check_placement, validate_no_wildcards,
  validate_wildcard_placement, new_topic, new_filter,
}
use ocypode.Topic.Split.{NonEmpty}
use ocypode.Topic.Shape.{
  IsName, matchable, HasWildcard, IsPlaced, IsTopic, IsFilter, Explains, ExplainsName, split-IsName,
}
use ocypode.Topic.Checks.{NameOutcome, validate_segments_outcome}
use ocypode.Topic.Placed.{same_body, not_explained_filter, reject_not-IsPlaced}
use ocypode.Topic.Wildcards.{RejectOutcome, reject_outcome, PlaceOutcome, place_outcome}

matchable_segments_lem :
    (seg : Bytes) (segs : List Bytes)
    → matchable_segments (seg ∷ segs) ≡ ok (matchable (seg ∷ segs))
unfolding matchable_segments
matchable_segments_lem seg segs = elim (Bool-cases (bytes_eq seg global_prefix)) [
  | inl e ↦ rw e
  | inr e ↦ rw e
]

-- Every outcome of `Topic::new`: no panic, a topic exactly of its bytes where they are one, and
-- else an error that holds of them.
abbrev pub TopicOutcome : Bytes → Result TopicError Topic → Type 0
TopicOutcome raw (ok t) = (t.bytes ≡ raw) × IsTopic raw
TopicOutcome raw (err e) = Explains e raw × (¬ IsTopic raw)
TopicOutcome raw panic = ⊥

abbrev pub FilterOutcome : Bytes → Result TopicError TopicFilter → Type 0
FilterOutcome raw (ok f) = (f.bytes ≡ raw) × IsFilter raw
FilterOutcome raw (err e) = Explains e raw × (¬ IsFilter raw)
FilterOutcome raw panic = ⊥

not-IsTopic : (raw : Bytes) (e : TopicError) → Explains e raw → ¬ IsTopic raw
not-IsTopic raw wildcard_in_publish_topic (seg, m, w) (segs, n, h) =
    All-at (λ s. ¬ HasWildcard s) (matchable segs) seg h (subst (λ l. In seg l) (same_body n) m) w
not-IsTopic raw e x (segs, n, h) =
    not_explained_filter n e (λ q. cc) (reject_not-IsPlaced (matchable segs) h) x

not-IsFilter :
    (raw : Bytes) (e : TopicError)
    → ¬ (e ≡ wildcard_in_publish_topic)
    → Explains e raw
    → ¬ IsFilter raw
not-IsFilter raw e k x (segs, n, p) = not_explained_filter n e k p x

of_name :
    (raw : Bytes) (e : TopicError)
    → ExplainsName e raw
    → Explains e raw × (¬ (e ≡ wildcard_in_publish_topic))
of_name raw wildcard_in_publish_topic x = absurd x
of_name raw multi_wildcard_not_terminal x = absurd x
of_name raw invalid_wildcard_usage x = absurd x
of_name raw e x = (x, λ q. cc)

module _ (raw : Bytes) (segs : List Bytes) (n : IsName raw segs) where
  after_reject :
      (r : Result TopicError (Unit {0}))
      → RejectOutcome (matchable segs) r
      → TopicOutcome raw (r >> ok (record { bytes = raw }))
  after_reject (ok _) h = (refl, (segs, n, h))
  after_reject (err wildcard_in_publish_topic) (seg, m, w) =
      let x : Explains wildcard_in_publish_topic raw =
        (seg, subst (λ l. In seg l) (sym (same_body n)) m, w) in
      (x, not-IsTopic raw wildcard_in_publish_topic x)
  after_reject (err _) h = absurd h
  after_reject panic h = absurd h

  after_place :
      (r : Result TopicError (Unit {0}))
      → PlaceOutcome (matchable segs) r
      → FilterOutcome raw (r >> ok (record { bytes = raw }))
  after_place (ok _) h = (refl, (segs, n, h))
  after_place (err multi_wildcard_not_terminal) (before, next, after, e) =
      let x : Explains multi_wildcard_not_terminal raw = (before, next, after, same_body n ∙ e) in
      (x, not-IsFilter raw multi_wildcard_not_terminal (λ q. cc) x)
  after_place (err invalid_wildcard_usage) (seg, m, w, single, multi) =
      let x : Explains invalid_wildcard_usage raw =
        (seg, subst (λ l. In seg l) (sym (same_body n)) m, w, single, multi) in
      (x, not-IsFilter raw invalid_wildcard_usage (λ q. cc) x)
  after_place (err _) h = absurd h
  after_place panic h = absurd h

after_name_topic :
    (raw : Bytes) (r : Result TopicError (List Bytes))
    → NameOutcome raw r
    → TopicOutcome raw (r >>= λ segs. validate_no_wildcards segs >> ok (record { bytes = raw }))
after_name_topic raw (ok []) (_, n) = absurd (n.some_layer refl)
after_name_topic raw (ok (seg ∷ segs)) (_, n) =
    unfold validate_no_wildcards in
    rw (matchable_segments_lem seg segs) (
      after_reject raw (seg ∷ segs) n (try_for_each reject_wildcard (matchable (seg ∷ segs)))
        (reject_outcome (matchable (seg ∷ segs))))
after_name_topic raw (err e) h = let x = of_name raw e h in (x.0, not-IsTopic raw e x.0)
after_name_topic raw panic h = h

after_name_filter :
    (raw : Bytes) (r : Result TopicError (List Bytes))
    → NameOutcome raw r
    → FilterOutcome raw
        (r >>= λ segs. validate_wildcard_placement segs >> ok (record { bytes = raw }))
after_name_filter raw (ok []) (_, n) = absurd (n.some_layer refl)
after_name_filter raw (ok (seg ∷ segs)) (_, n) =
    unfold validate_wildcard_placement in
    let body = matchable (seg ∷ segs) in
    rw (matchable_segments_lem seg segs) (
      after_place raw (seg ∷ segs) n
        (try_for_each (check_placement (length body)) (enumerate 0 body))
        (place_outcome (length body) 0 body (omega arith)))
after_name_filter raw (err e) h = let x = of_name raw e h in (x.0, not-IsFilter raw e x.1 x.0)
after_name_filter raw panic h = h

-- `Topic::new` never panics. It returns the topic of exactly its bytes if they are a topic, and
-- otherwise, and only then, an error that holds of them.
pub new_topic_outcome : (raw : Bytes) → TopicOutcome raw (new_topic raw)
unfolding new_topic
new_topic_outcome raw = after_name_topic raw (validate_segments raw) (validate_segments_outcome raw)

-- `TopicFilter::new` never panics. It returns the filter of exactly its bytes if they are a filter,
-- and otherwise, and only then, an error that holds of them.
pub new_filter_outcome : (raw : Bytes) → FilterOutcome raw (new_filter raw)
unfolding new_filter
new_filter_outcome raw =
    after_name_filter raw (validate_segments raw) (validate_segments_outcome raw)

-- What is accepted for publishing is accepted as a filter too, with the same bytes.
new_filter-new_topic :
    (raw : Bytes) (t : Topic)
    → new_topic raw ≡ ok t
    → new_filter raw ≡ ok (record { bytes = t.bytes })
new_filter-new_topic raw t h =
    let (same, (segs, n, plain)) = subst (TopicOutcome raw) h (new_topic_outcome raw) in
    settle (new_filter raw) (new_filter_outcome raw)
      (segs, n, reject_not-IsPlaced (matchable segs) plain) same
  where
    settle :
        (r : Result TopicError TopicFilter)
        → FilterOutcome raw r
        → IsFilter raw
        → t.bytes ≡ raw
        → r ≡ ok (record { bytes = t.bytes })
    settle (ok f) (e, _) h same = ap (λ b. ok (record { bytes = b })) (e ∙ sym same)
    settle (err e) (_, n) h same = absurd (n h)
    settle panic h _ same = absurd h

pub remove_empty_lem : (segs : List Bytes) → All NonEmpty segs → remove_empty segs ≡ segs
unfolding remove_empty
remove_empty_lem [] h = refl
remove_empty_lem (seg ∷ segs) h = rw h.0 (ap (λ l. seg ∷ l) (remove_empty_lem segs h.1))

-- The segments that the router walks for an accepted filter are what `split` gives, between one and
-- eight, none of them empty or with a separator in it, and joined they are the bytes again.
pub segments-new_filter :
    (raw : Bytes) (f : TopicFilter)
    → new_filter raw ≡ ok f
    → (segments_of f.bytes ≡ split raw)
      × IsName raw (segments_of f.bytes)
      × IsPlaced (matchable (segments_of f.bytes))
unfolding segments_of
segments-new_filter raw f h =
    let (same, (segs, n, placed)) = subst (FilterOutcome raw) h (new_filter_outcome raw) in
    let whole : remove_empty (split raw) ≡ segs =
      ap remove_empty (split-IsName n) ∙ remove_empty_lem segs n.filled in
    let e : segments_of f.bytes ≡ segs = ap segments_of same ∙ whole in
    (
      e ∙ sym (split-IsName n),
      subst (IsName raw) (sym e) n,
      subst (λ l. IsPlaced (matchable l)) (sym e) placed,
    )
