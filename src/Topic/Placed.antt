-- ===== src/Topic/Placed.antt =====
-- Segments with wildcards that are not in place, for crates/server/src/topic.rs.
use ocypode.Prelude.{
  ◌≡◌, refl, sym, ap, subst, ◌∙◌, inl, inr, List, [], ◌∷◌, ◌++◌, arith, Bytes, All, In, length,
  bytes_eq, bytes_eq-ne,
}
use ocypode.Topic.{
  TopicError, empty, too_long, leading_slash, trailing_slash, empty_layer, too_many_layers,
  reserved_sys_prefix, global_prefix_without_topic, wildcard_in_publish_topic,
  multi_wildcard_not_terminal, invalid_wildcard_usage, wildcard_multi, wildcard_single, split,
}
use ocypode.Topic.Shape.{
  IsName, matchable, HasWildcard, IsLayer, IsPlaced, Explains, split-IsName, not-nil, not-leading,
  not-trailing, not-double,
}

-- A multi-level wildcard before the end is no placement, and neither is a partial one.
pub not_first : ¬ IsLayer wildcard_multi
not_first = elim [
  | inl e ↦ bytes_eq-ne wildcard_multi wildcard_single (unfold bytes_eq in refl) e
  | inr n ↦ n (inr (inl refl))
]

pub not-multi_inside :
    (before : List Bytes) (next : Bytes) (after : List Bytes)
    → ¬ IsPlaced (before ++ wildcard_multi ∷ next ∷ after)
not-multi_inside [] next after p = not_first p.0
not-multi_inside (seg ∷ before) next after p =
    not-multi_inside before next after (from_tail seg before p)
  where
    from_tail :
        (seg : Bytes) (before : List Bytes)
        → IsPlaced (seg ∷ (before ++ wildcard_multi ∷ next ∷ after))
        → IsPlaced (before ++ wildcard_multi ∷ next ∷ after)
    from_tail seg [] p = p.1
    from_tail seg (other ∷ before) p = p.1

pub placed_layers :
    (l : List Bytes) (seg : Bytes)
    → IsPlaced l
    → In seg l
    → HasWildcard seg
    → ¬ (seg ≡ wildcard_single)
    → ¬ (seg ≡ wildcard_multi)
    → ⊥
placed_layers [] seg h m w single multi = m
placed_layers (x ∷ []) seg h (inr m) w single multi = m
placed_layers (x ∷ []) seg (inl e) (inl p) w single multi = multi (p ∙ e)
placed_layers (x ∷ []) seg (inr (inl e)) (inl p) w single multi = single (p ∙ e)
placed_layers (x ∷ []) seg (inr (inr n)) (inl p) w single multi = n (subst HasWildcard p w)
placed_layers (x ∷ y ∷ l) seg (inl e, h) (inl p) w single multi = single (p ∙ e)
placed_layers (x ∷ y ∷ l) seg (inr n, h) (inl p) w single multi = n (subst HasWildcard p w)
placed_layers (x ∷ y ∷ l) seg (_, h) (inr m) w single multi =
    placed_layers (y ∷ l) seg h m w single multi

module _ {raw : Bytes} {segs : List Bytes} (n : IsName raw segs) where
  pub same_body : matchable (split raw) ≡ matchable segs
  same_body = ap matchable (split-IsName n)

  -- No error holds of a name with well-placed wildcards.
  pub not_explained_filter :
      (e : TopicError)
      → ¬ (e ≡ wildcard_in_publish_topic)
      → IsPlaced (matchable segs)
      → ¬ Explains e raw
  not_explained_filter empty k p x = not-nil n x
  not_explained_filter (too_long len) k p x = let s = n.short in omega arith
  not_explained_filter leading_slash k p (s, x) = not-leading n s x
  not_explained_filter trailing_slash k p x = not-trailing n x
  not_explained_filter empty_layer k p x = not-double n x
  not_explained_filter (too_many_layers len) k p x =
      let s = n.shallow in let d = ap length (split-IsName n) in omega arith
  not_explained_filter reserved_sys_prefix k p (rest, x) = n.not_sys rest (sym (split-IsName n) ∙ x)
  not_explained_filter global_prefix_without_topic k p x = n.not_bare (sym (split-IsName n) ∙ x)
  not_explained_filter wildcard_in_publish_topic k p x = k refl
  not_explained_filter multi_wildcard_not_terminal k p (before, next, after, x) =
      not-multi_inside before next after (subst IsPlaced (sym same_body ∙ x) p)
  not_explained_filter invalid_wildcard_usage k p (seg, m, w, single, multi) =
      placed_layers (matchable segs) seg p (subst (λ l. In seg l) same_body m) w single multi

pub reject_not-IsPlaced : (l : List Bytes) → All (λ seg. ¬ HasWildcard seg) l → IsPlaced l
reject_not-IsPlaced [] h = tt
reject_not-IsPlaced (x ∷ []) h = inr (inr h.0)
reject_not-IsPlaced (x ∷ y ∷ l) h = (inr h.0, reject_not-IsPlaced (y ∷ l) h.1)
