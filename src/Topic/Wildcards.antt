-- ===== src/Topic/Wildcards.antt =====
-- `validate_no_wildcards` and `validate_wildcard_placement` on the segments that they are given.
use ocypode.Prelude.{
  ℕ, suc, ◌+◌, ◌-◌, ◌≡◌, refl, sym, ap, inl, inr, ◌↔◌, true, false, ◌||◌, List, [], ◌∷◌, ◌++◌,
  arith, Bytes, All, In, length, ◌==◌, ==_iff, bytes_eq, bytes_eq_iff, Bool-cases, Result, ok, err,
  panic, ◌>>◌, try_for_each, enumerate,
}
use ocypode.Topic.{
  TopicError, wildcard_in_publish_topic, multi_wildcard_not_terminal, invalid_wildcard_usage,
  wildcard_single, wildcard_multi, wildcard_single_byte, wildcard_multi_byte, contains,
  has_wildcard, reject_wildcard, check_placement,
}
use ocypode.Topic.Shape.{HasWildcard, IsLayer, IsPlaced}

contains→In : (s : Bytes) (b : ℕ) → contains s b ≡ true → In b s
unfolding contains
contains→In [] b h = cc
contains→In (c ∷ s) b h = elim (Bool-cases (c == b)) [
  | inl e ↦ inl (sym ((==_iff c b).0 e))
  | inr e ↦ inr (contains→In s b (rw e at h))
]

In→contains : (s : Bytes) (b : ℕ) → In b s → contains s b ≡ true
unfolding contains
In→contains [] b m = absurd m
In→contains (c ∷ s) b (inl e) = ground arith
In→contains (c ∷ s) b (inr m) = ground (arith, In→contains s b m)

pub has_wildcard_iff : (seg : Bytes) → (has_wildcard seg ≡ true) ↔ HasWildcard seg
unfolding has_wildcard
has_wildcard_iff seg = (find, show)
  where
    find :
        (contains seg wildcard_single_byte || contains seg wildcard_multi_byte) ≡ true
        → HasWildcard seg
    find h = elim (Bool-cases (contains seg wildcard_single_byte)) [
      | inl e ↦ inl (contains→In seg wildcard_single_byte e)
      | inr e ↦ inr (contains→In seg wildcard_multi_byte (rw e at h))
    ]

    show :
        HasWildcard seg
        → (contains seg wildcard_single_byte || contains seg wildcard_multi_byte) ≡ true
    show (inl m) = rw (In→contains seg wildcard_single_byte m)
    show (inr m) = ground (arith, In→contains seg wildcard_multi_byte m)

pub no_wildcard : (seg : Bytes) → has_wildcard seg ≡ false → ¬ HasWildcard seg
no_wildcard seg h w = cc ((has_wildcard_iff seg).1 w)

-- What `try_for_each` over `reject_wildcard` shows of the list.
abbrev pub RejectOutcome : List Bytes → Result TopicError (Unit {0}) → Type 0
RejectOutcome l (ok _) = All (λ seg. ¬ HasWildcard seg) l
RejectOutcome l (err wildcard_in_publish_topic) = (seg : Bytes) × In seg l × HasWildcard seg
RejectOutcome l (err _) = ⊥
RejectOutcome l panic = ⊥

reject_later :
    (seg : Bytes) (l : List Bytes) (r : Result TopicError (Unit {0}))
    → ¬ HasWildcard seg
    → RejectOutcome l r
    → RejectOutcome (seg ∷ l) r
reject_later seg l (ok _) n h = (n, h)
reject_later seg l (err wildcard_in_publish_topic) n (bad, m, w) = (bad, inr m, w)
reject_later seg l (err _) n h = absurd h
reject_later seg l panic n h = absurd h

pub reject_outcome : (l : List Bytes) → RejectOutcome l (try_for_each reject_wildcard l)
unfolding reject_wildcard
reject_outcome [] = tt
reject_outcome (seg ∷ l) = elim (Bool-cases (has_wildcard seg)) [
  | inl e ↦ rw e (seg, inl refl, (has_wildcard_iff seg).0 e)
  | inr e ↦
      rw e
        (reject_later seg l (try_for_each reject_wildcard l) (no_wildcard seg e) (reject_outcome l))
]

-- The same for the placement of wildcards in a filter.
abbrev pub PlaceOutcome : List Bytes → Result TopicError (Unit {0}) → Type 0
PlaceOutcome l (ok _) = IsPlaced l
PlaceOutcome l (err multi_wildcard_not_terminal) =
    (before : List Bytes) × (next : Bytes) × (after : List Bytes) × (l
      ≡ before ++ wildcard_multi ∷ next ∷ after)
PlaceOutcome l (err invalid_wildcard_usage) =
    (seg : Bytes) × In seg l
    × HasWildcard seg
    × (¬ (seg ≡ wildcard_single))
    × (¬ (seg ≡ wildcard_multi))
PlaceOutcome l (err _) = ⊥
PlaceOutcome l panic = ⊥

place_later :
    (seg next : Bytes) (l : List Bytes) (r : Result TopicError (Unit {0}))
    → IsLayer seg
    → PlaceOutcome (next ∷ l) r
    → PlaceOutcome (seg ∷ next ∷ l) r
place_later seg next l (ok _) n h = (n, h)
place_later seg next l (err multi_wildcard_not_terminal) n (before, x, after, e) =
    (seg ∷ before, x, after, ap (λ t. seg ∷ t) e)
place_later seg next l (err invalid_wildcard_usage) n (bad, m, w, single, multi) =
    (bad, inr m, w, single, multi)
place_later seg next l (err _) n h = absurd h
place_later seg next l panic n h = absurd h

-- The four ways in which one segment is judged.
pub data Judged (len i : ℕ) (seg : Bytes) : Result TopicError (Unit {0}) → Type 0 where
  layer : IsLayer seg → Judged len i seg (ok tt)
  last_multi : seg ≡ wildcard_multi → i ≡ len - 1 → Judged len i seg (ok tt)
  early_multi :
      seg ≡ wildcard_multi → ¬ (i ≡ len - 1) → Judged len i seg (err multi_wildcard_not_terminal)
  partial :
      HasWildcard seg
      → ¬ (seg ≡ wildcard_single)
      → ¬ (seg ≡ wildcard_multi)
      → Judged len i seg (err invalid_wildcard_usage)

pub judge : (len i : ℕ) (seg : Bytes) → Judged len i seg (check_placement len (i, seg))
unfolding check_placement
judge len i seg = elim (Bool-cases (bytes_eq seg wildcard_single)) [
  | inl e ↦
      let single = (bytes_eq_iff seg wildcard_single).0 e in
      let g : bytes_eq seg wildcard_multi ≡ false = rw single refl in rw (e, g) (layer (inl single))
  | inr e ↦ elim (Bool-cases (bytes_eq seg wildcard_multi)) [
    | inl f ↦
        let multi = (bytes_eq_iff seg wildcard_multi).0 f in
        elim (Bool-cases (i == (len - 1))) [
          | inl g ↦ rw (e, f, g) (last_multi multi ((==_iff i (len - 1)).0 g))
          | inr g ↦ rw (e, f, g) (early_multi multi (λ q. cc ((==_iff i (len - 1)).1 q)))
        ]
    | inr f ↦ elim (Bool-cases (has_wildcard seg)) [
      | inl w ↦
          rw (e, f, w)
            (partial ((has_wildcard_iff seg).0 w) (λ q. cc ((bytes_eq_iff seg wildcard_single).1 q))
              (λ q. cc ((bytes_eq_iff seg wildcard_multi).1 q)))
      | inr w ↦ rw (e, f, w) (layer (inr (no_wildcard seg w)))
    ]
  ]
]

length_nil : (l : List Bytes) → length l ≡ 0 → l ≡ []
length_nil [] h = refl
length_nil (x ∷ l) h = absurd (omega arith)

place_step :
    (len i : ℕ) (seg : Bytes) (l : List Bytes) (r s : Result TopicError (Unit {0}))
    → i + suc (length l) ≡ len
    → Judged len i seg r
    → PlaceOutcome l s
    → (l ≡ [] → s ≡ ok tt)
    → PlaceOutcome (seg ∷ l) (r >> s)
place_step len i seg [] r s h (layer n) ih base = rw (base refl) (inr n)
place_step len i seg (next ∷ l) r s h (layer n) ih base = place_later seg next l s n ih
place_step len i seg [] r s h (last_multi e f) ih base = rw (base refl) (inl e)
place_step len i seg (next ∷ l) r s h (last_multi e f) ih base = absurd (omega arith)
place_step len i seg [] r s h (early_multi e f) ih base = absurd (f (omega arith))
place_step len i seg (next ∷ l) r s h (early_multi e f) ih base =
    ([], next, l, ap (λ x. x ∷ next ∷ l) e)
place_step len i seg l r s h (partial w n m) ih base = (seg, inl refl, w, n, m)

pub place_outcome :
    (len i : ℕ) (l : List Bytes)
    → i + length l ≡ len
    → PlaceOutcome l (try_for_each (check_placement len) (enumerate i l))
place_outcome len i [] h = tt
place_outcome len i (seg ∷ l) h =
    place_step len i seg l (check_placement len (i, seg))
      (try_for_each (check_placement len) (enumerate (suc i) l)) h (judge len i seg)
      (place_outcome len (suc i) l (omega arith)) (λ e. rw e)
