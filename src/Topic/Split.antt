-- ===== src/Topic/Split.antt =====
-- `split` against its inverse, and what its pieces look like.
use ocypode.Prelude.{
  ℕ, ◌≡◌, refl, sym, ap, ap₂, subst, ◌∙◌, ◌⊎◌, inl, inr, true, false, List, [], ◌∷◌, ◌++◌, arith,
  Bytes, ◌==◌, ==_iff, Bool-cases, All, In,
}
use ocypode.Topic.{sep_byte, is_empty, split, any_empty}

-- The segments with a separator between any two.
abbrev pub join : List Bytes → Bytes
join [] = []
join (seg ∷ []) = seg
join (seg ∷ next ∷ segs) = seg ++ sep_byte ∷ join (next ∷ segs)

-- No byte of the segment is the separator.
abbrev pub IsSolid : Bytes → Type 0
IsSolid seg = All (λ c. ¬ (c ≡ sep_byte)) seg

pub split-cons : (s : Bytes) → (seg : Bytes) × (segs : List Bytes) × (split s ≡ seg ∷ segs)
unfolding split
split-cons [] = ([], [], refl)
split-cons (c ∷ s) = elim (Bool-cases (c == sep_byte)) [
  | inl e ↦ ([], split s, rw e)
  | inr e ↦ let (seg, segs, p) = split-cons s in (c ∷ seg, segs, rw (e, p))
]

-- How `split` treats the first byte.
pub split_cases :
    (c : ℕ) (s : Bytes)
    → ((c ≡ sep_byte) × (split (c ∷ s) ≡ [] ∷ split s))
      ⊎ ((seg : Bytes) × (segs : List Bytes) × (¬ (c ≡ sep_byte))
          × (split s ≡ seg ∷ segs)
          × (split (c ∷ s) ≡ (c ∷ seg) ∷ segs))
unfolding split
split_cases c s = elim (Bool-cases (c == sep_byte)) [
  | inl e ↦ inl ((==_iff c sep_byte).0 e, rw e)
  | inr e ↦ let (seg, segs, p) = split-cons s in inr (seg, segs, (λ q. ground arith), p, rw (e, p))
]

join_byte :
    (c : ℕ) (seg : Bytes) (segs : List Bytes) → join ((c ∷ seg) ∷ segs) ≡ c ∷ join (seg ∷ segs)
join_byte c seg [] = refl
join_byte c seg (next ∷ segs) = refl

join_empty : (s : Bytes) → join ([] ∷ split s) ≡ sep_byte ∷ join (split s)
join_empty s = let (seg, segs, p) = split-cons s in rw p

pub join-split : (s : Bytes) → join (split s) ≡ s
join-split [] = unfold split in refl
join-split (c ∷ s) = elim (split_cases c s) [
  | inl (e, p) ↦ rw (p, join_empty s, join-split s, e)
  | inr (seg, segs, n, q, p) ↦
      ap join p
      ∙ join_byte c seg segs
      ∙ ap (λ l. c ∷ join l) (sym q)
      ∙ ap (λ l. c ∷ l) (join-split s)
]

pub IsSolid-split : (s : Bytes) → All IsSolid (split s)
IsSolid-split [] = unfold split in (tt, tt)
IsSolid-split (c ∷ s) = elim (split_cases c s) [
  | inl (e, p) ↦ rw p (tt, IsSolid-split s)
  | inr (seg, segs, n, q, p) ↦ let h = rw q at (IsSolid-split s) in rw p ((n, h.0), h.1)
]

split-solid : (seg : Bytes) → IsSolid seg → split seg ≡ seg ∷ []
split-solid [] h = unfold split in refl
split-solid (c ∷ seg) h = elim (split_cases c seg) [
  | inl (e, p) ↦ absurd (h.0 e)
  | inr (head, segs, n, q, p) ↦ cc (split-solid seg h.1)
]

split-append : (seg s : Bytes) → IsSolid seg → split (seg ++ sep_byte ∷ s) ≡ seg ∷ split s
split-append [] s h = unfold split in refl
split-append (c ∷ seg) s h = elim (split_cases c (seg ++ sep_byte ∷ s)) [
  | inl (e, p) ↦ absurd (h.0 e)
  | inr (head, segs, n, q, p) ↦ cc (split-append seg s h.1)
]

pub split-join :
    (seg : Bytes) (segs : List Bytes)
    → All IsSolid (seg ∷ segs)
    → split (join (seg ∷ segs)) ≡ seg ∷ segs
split-join seg [] h = split-solid seg h.0
split-join seg (next ∷ segs) h =
    split-append seg (join (next ∷ segs)) h.0 ∙ ap (λ l. seg ∷ l) (split-join next segs h.1)

abbrev pub NonEmpty : Bytes → Type 0
NonEmpty seg = is_empty seg ≡ false

pub any_empty→All : (segs : List Bytes) → any_empty segs ≡ false → All NonEmpty segs
unfolding any_empty
any_empty→All [] h = tt
any_empty→All (seg ∷ segs) h = ground (arith, any_empty→All segs)

pub All→any_empty : (segs : List Bytes) → All NonEmpty segs → any_empty segs ≡ false
unfolding any_empty
All→any_empty [] h = refl
All→any_empty (seg ∷ segs) h = ground (arith, All→any_empty segs)

pub In-any_empty : (segs : List Bytes) → any_empty segs ≡ true → In [] segs
unfolding any_empty
In-any_empty [] h = cc
In-any_empty ([] ∷ segs) h = inl refl
In-any_empty ((c ∷ seg) ∷ segs) h = inr (In-any_empty segs h)

pub split-append_sep : (a b : Bytes) → split (a ++ sep_byte ∷ b) ≡ split a ++ split b
split-append_sep [] b = unfold split in refl
split-append_sep (c ∷ a) b = elim (split_cases c a) [
  | inl (e, p) ↦ elim (split_cases c (a ++ sep_byte ∷ b)) [
    | inl (_, p') ↦ p' ∙ ap (λ l. [] ∷ l) (split-append_sep a b) ∙ ap (λ l. l ++ split b) (sym p)
    | inr (seg, segs, n, q, p') ↦ absurd (n e)
  ]
  | inr (seg, segs, n, q, p) ↦ elim (split_cases c (a ++ sep_byte ∷ b)) [
    | inl (e, p') ↦ absurd (n e)
    | inr (seg', segs', _, q', p') ↦
        let heads : seg' ∷ segs' ≡ seg ∷ (segs ++ split b) =
          sym q' ∙ split-append_sep a b ∙ ap (λ l. l ++ split b) q in
        p' ∙ ap_head c heads ∙ ap (λ l. l ++ split b) (sym p)
  ]
]
  where
    ap_head :
        (c : ℕ) {x y : Bytes} {xs ys : List Bytes}
        → x ∷ xs ≡ y ∷ ys
        → ◌≡◌ {A = List Bytes} ((c ∷ x) ∷ xs) ((c ∷ y) ∷ ys)
    ap_head c e = cc

abbrev pub EndsInSlash : Bytes → Type 0
EndsInSlash s = (init : Bytes) × (s ≡ init ++ sep_byte ∷ [])

abbrev pub HasDoubleSlash : Bytes → Type 0
HasDoubleSlash s = (a : Bytes) × (b : Bytes) × (s ≡ a ++ sep_byte ∷ sep_byte ∷ b)

slash_later :
    (c : ℕ) {s : Bytes}
    → EndsInSlash s ⊎ HasDoubleSlash s
    → EndsInSlash (c ∷ s) ⊎ HasDoubleSlash (c ∷ s)
slash_later c (inl (init, e)) = inl (c ∷ init, ap (λ l. c ∷ l) e)
slash_later c (inr (a, b, e)) = inr (c ∷ a, b, ap (λ l. c ∷ l) e)

-- A later piece is empty only at the end or between two separators.
pub empty_inside :
    (s seg : Bytes) (segs : List Bytes)
    → split s ≡ seg ∷ segs
    → In [] segs
    → EndsInSlash s ⊎ HasDoubleSlash s
empty_inside [] seg [] p m = absurd m
empty_inside [] seg (next ∷ segs) p m = absurd (unfold split in cc)
empty_inside (c ∷ []) seg segs p m = elim (split_cases c []) [
  | inl (e, q) ↦ inl ([], ap (λ x. x ∷ []) e)
  | inr (seg', segs', n, q, q') ↦ absurd (none_left segs' segs (unfold split in cc) (cc) m)
]
  where
    none_left : (xs ys : List Bytes) → xs ≡ [] → xs ≡ ys → In [] ys → ⊥
    none_left xs [] e f m = m
    none_left xs (y ∷ ys) e f m = cc
empty_inside (c ∷ d ∷ s) seg segs p m = elim (split_cases c (d ∷ s)) [
  | inl (e, q) ↦ elim (split_cases d s) [
    | inl (e', q') ↦ inr ([], s, ap₂ (λ x y. x ∷ y ∷ s) e e')
    | inr (seg', segs', n, q', q'') ↦ slash_later c (
        empty_inside (d ∷ s) (d ∷ seg') segs' q''
          (past_first seg' segs' (subst (λ l. In [] l) (second (sym p ∙ q) ∙ q'') m)))
  ]
  | inr (seg', segs', n, q, q') ↦
      slash_later c
        (empty_inside (d ∷ s) seg' segs' q (subst (λ l. In [] l) (second (sym p ∙ q')) m))
]
  where
    second : {x y : Bytes} {xs ys : List Bytes} → x ∷ xs ≡ y ∷ ys → xs ≡ ys
    second e = cc

    past_first : (seg' : Bytes) (segs' : List Bytes) → In [] ((d ∷ seg') ∷ segs') → In [] segs'
    past_first _ _ (inl e) = absurd (cc)
    past_first _ _ (inr m) = m
