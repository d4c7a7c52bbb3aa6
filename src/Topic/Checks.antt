-- ===== src/Topic/Checks.antt =====
-- `validate_raw` and `validate_segments`: every way in which they end.
use ocypode.Prelude.{
  ℕ, suc, ◌-◌, ◌≤◌, ◌≡◌, refl, sym, ap, subst, ◌∙◌, ◌⊎◌, inl, inr, true, ◌&&◌, ◌||◌, List, [], ◌∷◌,
  ◌++◌, some, arith, Bytes, All, In, length, get_elem?, ltb, ltb→lt, ◌==◌, ==_iff, ==-ne, bytes_eq,
  bytes_eq_iff, bytes_eq-ne, Bool-cases, Result, ok, err, panic, ◌>>=◌,
}
use ocypode.Topic.{
  TopicError, empty_layer, max_layers, max_topic_length, sep_byte, sys_prefix, global_prefix, split,
  is_empty, any_empty, validate_raw, validate_layers, validate_segments,
}
use ocypode.Topic.Split.{
  join, IsSolid, join-split, IsSolid-split, split-cons, split_cases, any_empty→All, In-any_empty,
  empty_inside, EndsInSlash, HasDoubleSlash,
}
use ocypode.Topic.Shape.{IsName, Explains, ExplainsName}

-- What `validate_raw` has established of the bytes that it returns.
record PassesRaw (raw : Bytes) : Type 0 where
  short : length raw ≤ max_topic_length
  not_nil : ¬ (raw ≡ [])
  not_leading : (s : Bytes) → ¬ (raw ≡ sep_byte ∷ s)
  not_trailing : ¬ EndsInSlash raw

abbrev RawOutcome : Bytes → Result TopicError Bytes → Type 0
RawOutcome raw (ok x) = (x ≡ raw) × PassesRaw raw
RawOutcome raw (err e) = ExplainsName e raw
RawOutcome raw panic = ⊥

last_byte :
    (c : ℕ) (s : Bytes)
    → (init : Bytes) × (b : ℕ) × (c ∷ s ≡ init ++ b ∷ []) × (get_elem? (c ∷ s) (length s) ≡ some b)
last_byte c [] = ([], c, refl, refl)
last_byte c (d ∷ s) = let (init, b, e, f) = last_byte d s in (c ∷ init, b, ap (λ l. c ∷ l) e, f)

last_unique : (init init' : Bytes) (a b : ℕ) → init ++ a ∷ [] ≡ init' ++ b ∷ [] → a ≡ b
last_unique [] [] a b e = cc
last_unique [] (x ∷ []) a b e = absurd (cc)
last_unique [] (x ∷ y ∷ l) a b e = absurd (cc)
last_unique (x ∷ []) [] a b e = absurd (cc)
last_unique (x ∷ y ∷ l) [] a b e = absurd (cc)
last_unique (x ∷ init) (y ∷ init') a b e = last_unique init init' a b (tails e)
  where
    tails : {x y : ℕ} {xs ys : Bytes} → x ∷ xs ≡ y ∷ ys → xs ≡ ys
    tails e = cc

validate_raw_outcome : (raw : Bytes) → RawOutcome raw (validate_raw raw)
unfolding validate_raw
validate_raw_outcome [] = refl
validate_raw_outcome (c ∷ s) =
    let at_end : suc (length s) - 1 ≡ length s = omega arith in
    let (init, b, e, f) = last_byte c s in
    elim (Bool-cases (ltb max_topic_length (suc (length s)))) [
      | inl long ↦ rw long (refl, ltb→lt _ _ long)
      | inr fits ↦ elim (Bool-cases (c == sep_byte)) [
        | inl lead ↦ rw (fits, lead) (s, ap (λ x. x ∷ s) ((==_iff c sep_byte).0 lead))
        | inr no_lead ↦ elim (Bool-cases (b == sep_byte)) [
          | inl trail ↦
              rw (fits, no_lead, at_end, f, trail)
                (init, e ∙ ap (λ x. init ++ x ∷ []) ((==_iff b sep_byte).0 trail))
          | inr no_trail ↦
              rw (fits, no_lead, at_end, f, no_trail)
                (
                  refl,
                  record {
                    short = ground arith;
                    not_nil = λ p. cc;
                    not_leading = λ t p. ==-ne c sep_byte no_lead (heads' p);
                    not_trailing = λ (init', p).
                        ==-ne b sep_byte no_trail (last_unique init init' b sep_byte (sym e ∙ p));
                  },
                )
        ]
      ]
    ]
  where
    heads' : {x y : ℕ} {xs ys : Bytes} → x ∷ xs ≡ y ∷ ys → x ≡ y
    heads' e = cc

-- What `validate_segments` has established of the segments that it returns.
abbrev pub NameOutcome : Bytes → Result TopicError (List Bytes) → Type 0
NameOutcome raw (ok segs) = (segs ≡ split raw) × IsName raw segs
NameOutcome raw (err e) = ExplainsName e raw
NameOutcome raw panic = ⊥

empty_piece :
    {raw : Bytes} → PassesRaw raw → any_empty (split raw) ≡ true → Explains empty_layer raw
empty_piece {raw} p h =
    let (seg, segs, q) = split-cons raw in
    by_place raw p seg segs q (subst (λ l. In [] l) q (In-any_empty (split raw) h))
  where
    inner : (s : Bytes) → PassesRaw s → EndsInSlash s ⊎ HasDoubleSlash s → Explains empty_layer s
    inner s p (inl t) = absurd (p.not_trailing t)
    inner s p (inr d) = d

    starts : (s : Bytes) → PassesRaw s → (segs : List Bytes) → split s ≡ [] ∷ segs → ⊥
    starts [] p segs q = p.not_nil refl
    starts (c ∷ s) p segs q = elim (split_cases c s) [
      | inl (e, _) ↦ p.not_leading s (ap (λ x. x ∷ s) e)
      | inr (seg, segs', _, _, q') ↦ absurd (cc)
    ]

    by_place :
        (s : Bytes)
        → PassesRaw s
        → (seg : Bytes) (segs : List Bytes) → split s ≡ seg ∷ segs
        → In [] (seg ∷ segs)
        → Explains empty_layer s
    by_place s p seg segs q (inl e) = absurd (starts s p segs (q ∙ ap (λ x. x ∷ segs) (sym e)))
    by_place s p seg segs q (inr m) = inner s p (empty_inside s seg segs q m)

heads : {x y : Bytes} {xs ys : List Bytes} → x ∷ xs ≡ y ∷ ys → x ≡ y
heads e = cc

bare_only :
    (seg : Bytes) (segs : List Bytes)
    → (bytes_eq seg global_prefix && ltb (suc (length segs)) 2) ≡ true
    → seg ∷ segs ≡ global_prefix ∷ []
bare_only seg [] h = ground (arith, bytes_eq_iff seg global_prefix)
bare_only seg (next ∷ segs) h = absurd (ground arith)

bare_test :
    (seg : Bytes) (segs : List Bytes)
    → seg ∷ segs ≡ global_prefix ∷ []
    → (bytes_eq seg global_prefix && ltb (suc (length segs)) 2) ≡ true
bare_test seg [] e = rw ((bytes_eq_iff seg global_prefix).1 (heads e)) refl
bare_test seg (next ∷ segs) e = absurd (cc)

layers_outcome :
    (raw seg : Bytes) (segs : List Bytes)
    → PassesRaw raw
    → split raw ≡ seg ∷ segs
    → NameOutcome raw (validate_layers (seg ∷ segs))
unfolding validate_layers
layers_outcome raw seg segs p q = elim (Bool-cases (is_empty seg || any_empty segs)) [
  | inl hole ↦ rw hole (empty_piece p (ap any_empty q ∙ hole))
  | inr filled ↦ elim (Bool-cases (ltb max_layers (suc (length segs)))) [
    | inl deep ↦ rw (filled, deep) (ap length (sym q), ltb→lt _ _ deep)
    | inr shallow ↦ elim (Bool-cases (bytes_eq seg sys_prefix)) [
      | inl sys ↦
          rw (filled, shallow, sys)
            (segs, q ∙ ap (λ x. x ∷ segs) ((bytes_eq_iff seg sys_prefix).0 sys))
      | inr plain ↦ elim (Bool-cases (bytes_eq seg global_prefix && ltb (suc (length segs)) 2)) [
        | inl bare ↦ rw (filled, shallow, plain, bare) (q ∙ bare_only seg segs bare)
        | inr proper ↦
            rw (filled, shallow, plain, proper)
              (
                sym q,
                record {
                  joined = ap join (sym q) ∙ join-split raw;
                  some_layer = λ e. cc;
                  solid = subst (λ l. All IsSolid l) q (IsSolid-split raw);
                  filled = any_empty→All (seg ∷ segs) filled;
                  short = p.short;
                  shallow = ground arith;
                  not_sys = λ rest e. bytes_eq-ne seg sys_prefix plain (heads e);
                  not_bare = λ e. cc (bare_test seg segs e);
                },
              )
      ]
    ]
  ]
]

pub validate_segments_outcome : (raw : Bytes) → NameOutcome raw (validate_segments raw)
unfolding validate_segments
validate_segments_outcome raw = after raw (validate_raw raw) (validate_raw_outcome raw)
  where
    after :
        (raw : Bytes) (r : Result TopicError Bytes)
        → RawOutcome raw r
        → NameOutcome raw (r >>= λ x. validate_layers (split x))
    after raw (ok x) (e, p) =
        let (seg, segs, q) = split-cons raw in rw (e, q) (layers_outcome raw seg segs p q)
    after raw (err e) h = h
    after raw panic h = h
