-- ===== src/Parser/Chunks.antt =====
-- The decoders of crates/server/src/parser.rs on input that arrives in pieces.
use ocypode.Prelude.{
  ℕ, suc, ◌+◌, ◌≤◌, ◌≡◌, refl, sym, ap, ◌∙◌, inl, inr, true, false, Option, none, some, [], ◌∷◌,
  ◌++◌, arith, ltb, ltb→le, le→ltb, Bytes, length, length-append, lengths, take, drop,
  take-append_le, drop-append_le, Bool-cases, Result, ok, err, panic, ◌>>=◌,
}
use ocypode.Parser.{header_length, maximum_payload_bytes, Crates}
use ocypode.Parser.Framing.{parse_header, decode, with_header, with_command, take_frame}

module _ {C F E : Type 0} (X : Crates) (try_from : ℕ → Option C)
    (read : C → Bytes → Result E F) where
  -- The next call, once `more` has arrived: after a result, the new bytes wait behind the buffer.
  abbrev pub resume : Result E (Option F) × Bytes → Bytes → Result E (Option F) × Bytes
  resume (ok none, rest) more = decode X try_from read (rest ++ more)
  resume (ok (some f), rest) more = (ok (some f), rest ++ more)
  resume (err e, rest) more = (err e, rest ++ more)
  resume (panic, rest) more = (panic, rest ++ more)

  resume-read :
      (r : Result E F) (rest more : Bytes)
      → ((r >>= λ f. ok (some f)), rest ++ more) ≡ resume ((r >>= λ f. ok (some f)), rest) more
  resume-read (ok f) rest more = refl
  resume-read (err e) rest more = refl
  resume-read panic rest more = refl

  parse_header-append :
      (b : ℕ) (bs more : Bytes)
      → ltb (length (b ∷ bs)) header_length ≡ false
      → parse_header X (b ∷ (bs ++ more)) ≡ parse_header X (b ∷ bs)
  unfolding parse_header
  parse_header-append b bs more h =
      let enough = ltb→le (suc (length bs)) header_length h in
      let longer : ltb (suc (length (bs ++ more))) header_length ≡ false =
        le→ltb (suc (length (bs ++ more))) header_length (grind lengths) in
      rw (h, longer, take-append_le 4 bs more (omega arith)) refl

  pub parse_header-long :
      (b : ℕ) (bs : Bytes)
      → ltb (length (b ∷ bs)) header_length ≡ false
      → parse_header X (b ∷ bs) ≡ some (b, X.get_u32 (take 4 bs))
  unfolding parse_header
  parse_header-long b bs h = rw h refl

  pub decode-cons :
      (b : ℕ) (bs : Bytes)
      → decode X try_from read (b ∷ bs)
        ≡ with_header X try_from read (b ∷ bs) (decode X try_from read bs) (parse_header X (b ∷ bs))
  unfolding decode
  decode-cons b bs = refl

  pub decode-short :
      (xs : Bytes)
      → ltb (length xs) header_length ≡ true
      → decode X try_from read xs ≡ (ok none, xs)
  decode-short [] h = unfold decode in refl
  decode-short (b ∷ bs) h = unfold decode parse_header in rw h refl

  take_frame-append :
      (c : C) (n : ℕ) (xs more : Bytes)
      → ltb (length xs) (header_length + n) ≡ false
      → take_frame X try_from read c n (xs ++ more)
        ≡ resume (take_frame X try_from read c n xs) more
  take_frame-append c n xs more h =
      let enough = ltb→le (length xs) (header_length + n) h in
      let inside : n ≤ length (drop header_length xs) = grind lengths in
      rw
        (
          drop-append_le header_length xs more (omega arith),
          take-append_le n (drop header_length xs) more inside,
          drop-append_le n (drop header_length xs) more inside,
        )
        (resume-read (read c (take n (drop header_length xs))) (drop n (drop header_length xs))
          more)

  -- A buffer that the decoder leaves as it is waits for more.
  waiting :
      (xs more : Bytes)
      → decode X try_from read xs ≡ (ok none, xs)
      → decode X try_from read (xs ++ more) ≡ resume (decode X try_from read xs) more
  waiting xs more e = ap (λ o. resume o more) (sym e)

  by_command :
      (xs tail more : Bytes) (n : ℕ) (o : Option C)
      → decode X try_from read xs
        ≡ with_command X try_from read xs (decode X try_from read tail) n o
      → decode X try_from read (xs ++ more)
        ≡ with_command X try_from read (xs ++ more) (decode X try_from read (tail ++ more)) n o
      → decode X try_from read (tail ++ more) ≡ resume (decode X try_from read tail) more
      → decode X try_from read (xs ++ more) ≡ resume (decode X try_from read xs) more
  by_command xs tail more n none e e' ih = e' ∙ ih ∙ ap (λ o. resume o more) (sym e)
  by_command xs tail more n (some c) e e' ih = elim (Bool-cases (ltb maximum_payload_bytes n)) [
    | inl large ↦ (e' ∙ rw large refl) ∙ ih ∙ ap (λ o. resume o more) (sym (e ∙ rw large refl))
    | inr fits ↦ elim (Bool-cases (ltb (length xs) (header_length + n))) [
      | inl partial ↦ waiting xs more (e ∙ rw (fits, partial) refl)
      | inr whole ↦
          let longer : ltb (length (xs ++ more)) (header_length + n) ≡ false =
            le→ltb (length (xs ++ more)) (header_length + n) (
              omega (arith, length-append xs more, ltb→le (length xs) (header_length + n) whole)) in
          (e' ∙ rw (fits, longer) refl)
          ∙ take_frame-append c n xs more whole
          ∙ ap (λ o. resume o more) (sym (e ∙ rw (fits, whole) refl))
    ]
  ]

  pub decode-append :
      (xs more : Bytes)
      → decode X try_from read (xs ++ more) ≡ resume (decode X try_from read xs) more
  decode-append [] more = unfold decode in refl
  decode-append (b ∷ bs) more = elim (Bool-cases (ltb (length (b ∷ bs)) header_length)) [
    | inl short ↦ waiting (b ∷ bs) more (decode-short (b ∷ bs) short)
    | inr long ↦
        let header = parse_header-long b bs long in
        by_command (b ∷ bs) bs more (X.get_u32 (take 4 bs)) (try_from b)
          (decode-cons b bs
            ∙ ap (with_header X try_from read (b ∷ bs) (decode X try_from read bs)) header)
          (decode-cons b (bs ++ more)
            ∙ ap
                (with_header X try_from read (b ∷ (bs ++ more))
                  (decode X try_from read (bs ++ more)))
                (parse_header-append b bs more long ∙ header))
          (decode-append bs more)
  ]
