-- ===== src/Topic/Shape.antt =====
-- What a publish topic and a subscription filter are, with no order of checks in it, and what each
-- `TopicError` says of the bytes that it is returned for.
use ocypode.Prelude.{
  ◌≤◌, ◌<◌, ◌≡◌, refl, sym, ap, subst, ◌∙◌, ◌⊎◌, inl, inr, List, [], ◌∷◌, ◌++◌, Bytes, All, In,
  length, bytes_eq, if◌then◌else◌, In-append, All-at,
}
use ocypode.Topic.{
  TopicError, empty, too_long, leading_slash, trailing_slash, empty_layer, too_many_layers,
  reserved_sys_prefix, global_prefix_without_topic, wildcard_in_publish_topic,
  multi_wildcard_not_terminal, invalid_wildcard_usage, max_layers, max_topic_length, sep_byte,
  wildcard_single, wildcard_multi, wildcard_single_byte, wildcard_multi_byte, sys_prefix,
  global_prefix, split,
}
use ocypode.Topic.Split.{
  join, IsSolid, NonEmpty, EndsInSlash, HasDoubleSlash, split-join, split-append_sep,
}

-- The bytes are these segments, joined by separators.
pub record IsName (raw : Bytes) (segs : List Bytes) : Type 0 where
  pub joined : join segs ≡ raw
  pub some_layer : ¬ (segs ≡ [])
  pub solid : All IsSolid segs
  pub filled : All NonEmpty segs
  pub short : length raw ≤ max_topic_length
  pub shallow : length segs ≤ max_layers
  pub not_sys : (rest : List Bytes) → ¬ (segs ≡ sys_prefix ∷ rest)
  pub not_bare : ¬ (segs ≡ global_prefix ∷ [])

-- The segments to which the rules on wildcards apply: those behind a leading `$G`.
abbrev pub matchable : List Bytes → List Bytes
matchable [] = []
matchable (seg ∷ segs) = if bytes_eq seg global_prefix then segs else seg ∷ segs

abbrev pub HasWildcard : Bytes → Type 0
HasWildcard seg = In wildcard_single_byte seg ⊎ In wildcard_multi_byte seg

-- A segment of a filter, up to the last: `+`, or literal.
abbrev pub IsLayer : Bytes → Type 0
IsLayer seg = (seg ≡ wildcard_single) ⊎ (¬ HasWildcard seg)

-- `#` may stand at the end only.
abbrev pub IsPlaced : List Bytes → Type 0
IsPlaced [] = Unit
IsPlaced (seg ∷ []) = (seg ≡ wildcard_multi) ⊎ IsLayer seg
IsPlaced (seg ∷ next ∷ segs) = IsLayer seg × IsPlaced (next ∷ segs)

abbrev pub IsTopic : Bytes → Type 0
IsTopic raw =
    (segs : List Bytes) × IsName raw segs × All (λ seg. ¬ HasWildcard seg) (matchable segs)

abbrev pub IsFilter : Bytes → Type 0
IsFilter raw = (segs : List Bytes) × IsName raw segs × IsPlaced (matchable segs)

abbrev pub Explains : TopicError → Bytes → Type 0
Explains empty raw = raw ≡ []
Explains (too_long n) raw = (n ≡ length raw) × (max_topic_length < n)
Explains leading_slash raw = (s : Bytes) × (raw ≡ sep_byte ∷ s)
Explains trailing_slash raw = EndsInSlash raw
Explains empty_layer raw = HasDoubleSlash raw
Explains (too_many_layers n) raw = (n ≡ length (split raw)) × (max_layers < n)
Explains reserved_sys_prefix raw = (rest : List Bytes) × (split raw ≡ sys_prefix ∷ rest)
Explains global_prefix_without_topic raw = split raw ≡ global_prefix ∷ []
Explains wildcard_in_publish_topic raw =
    (seg : Bytes) × In seg (matchable (split raw)) × HasWildcard seg
Explains multi_wildcard_not_terminal raw =
    (before : List Bytes) × (next : Bytes) × (after : List Bytes) × (matchable (split raw)
      ≡ before ++ wildcard_multi ∷ next ∷ after)
Explains invalid_wildcard_usage raw =
    (seg : Bytes) × In seg (matchable (split raw))
    × HasWildcard seg
    × (¬ (seg ≡ wildcard_single))
    × (¬ (seg ≡ wildcard_multi))

-- The errors of `validate_segments` are those that say nothing of wildcards.
abbrev pub ExplainsName : TopicError → Bytes → Type 0
ExplainsName wildcard_in_publish_topic raw = ⊥
ExplainsName multi_wildcard_not_terminal raw = ⊥
ExplainsName invalid_wildcard_usage raw = ⊥
ExplainsName e raw = Explains e raw

module _ {raw : Bytes} {segs : List Bytes} (n : IsName raw segs) where
  -- A name has no segments but those of `split`.
  pub split-IsName : split raw ≡ segs
  split-IsName = ap split (sym n.joined) ∙ unjoin segs n.some_layer n.solid
    where
      unjoin : (l : List Bytes) → ¬ (l ≡ []) → All IsSolid l → split (join l) ≡ l
      unjoin [] h solid = absurd (h refl)
      unjoin (seg ∷ l) h solid = split-join seg l solid

  no_empty_piece : ¬ In [] (split raw)
  no_empty_piece m =
      false_if_empty (All-at NonEmpty segs [] n.filled (subst (λ l. In [] l) split-IsName m))
    where
      false_if_empty : NonEmpty [] → ⊥
      false_if_empty e = cc

  pub not-leading : (s : Bytes) → ¬ (raw ≡ sep_byte ∷ s)
  not-leading s e =
      no_empty_piece (rw (ap split e ∙ split-append_sep [] s) (unfold split in inl refl))

  pub not-trailing : ¬ EndsInSlash raw
  not-trailing (init, e) = no_empty_piece (
      rw (ap split e ∙ split-append_sep init [])
        ((In-append [] (split init) (split [])).1 (inr (unfold split in inl refl))))

  pub not-double : ¬ HasDoubleSlash raw
  not-double (a, b, e) = no_empty_piece (
      rw (ap split e ∙ split-append_sep a (sep_byte ∷ b))
        ((In-append [] (split a) (split (sep_byte ∷ b))).1 (inr (unfold split in inl refl))))

  pub not-nil : ¬ (raw ≡ [])
  not-nil e = no_empty_piece (rw e (unfold split in inl refl))
