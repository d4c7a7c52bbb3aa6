-- ===== src/Router/Missing.antt =====
-- `Router::delete` of crates/server/src/router.rs on a path that is not there.
use ocypode.Prelude.{
  ℕ, ◌≡◌, refl, sym, ap, ◌∙◌, inl, inr, true, Option, none, some, List, [], ◌∷◌, arith, Bytes,
  Option-cases,
}
use ocypode.Router.{Node, node, absent, present, find, nth, key_eq, position, fresh, ◌>>=◌}
use ocypode.Router.Removal.{find_path}
use ocypode.Router.Levels.{is_present, find-position, position_lem}
use ocypode.Router.Paths.{at, below, at-cons}

module _ {S : Type 0} where
  -- Where `find_path` gives up, the trie holds nothing at the path.
  pub find_path-none :
      (segments : List Bytes) (n : Node S) → find_path segments n ≡ none → at segments n ≡ []
  find_path-none [] n e = absurd (unfold find_path in cc)
  find_path-none (s ∷ segments) (node l subs groups absent single multi) e = unfold at find in refl
  find_path-none (s ∷ segments) (node l subs groups (present ns) single multi) e =
      at-cons s segments (node l subs groups (present ns) single multi)
      ∙ by_position (λ c. find_path-none segments c) (position s ns) refl (unfold find_path in e)
    where
      by_child :
          (i : ℕ) (c : Node S)
          → position s ns ≡ some i
          → nth ns i ≡ some c
          → (at segments c ≡ [])
          → below (find s ns) segments ≡ []
      by_child i c pos seen empty =
          ap (λ o. below o segments) (sym (position_lem s ns i c pos).0 ∙ seen) ∙ empty

      by_position :
          ((c : Node S) → find_path segments c ≡ none → at segments c ≡ [])
          → (o : Option ℕ) → position s ns ≡ o
          → (o >>= λ i. nth ns i >>= λ child. find_path segments child >>= λ rest. some (i ∷ rest))
            ≡ none
          → below (find s ns) segments ≡ []
      by_position ih none pos h = ap (λ o. below o segments) (find-position s ns pos)
      by_position ih (some i) pos h = elim (Option-cases (nth ns i)) [
        | inl f ↦ absurd (
            never (sym (position_lem s ns i (fresh []) pos).0 ∙ f)
              (position_lem s ns i (fresh []) pos).3)
        | inr (c, f) ↦ elim (Option-cases (find_path segments c)) [
          | inl g ↦ by_child i c pos f (ih c g)
          | inr (rest, g) ↦ absurd (ground arith)
        ]
      ]
        where
          never : {o : Option (Node S)} → o ≡ none → is_present o ≡ true → ⊥
          never e h = ground arith
