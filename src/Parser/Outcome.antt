-- ===== src/Parser/Outcome.antt =====
-- The decoders of crates/server/src/parser.rs against a relation that describes the frame format.
use ocypode.Prelude.{
  ℕ, suc, ◌+◌, ◌*◌, ◌≤◌, ◌<◌, ◌≡◌, refl, sym, ap, subst, ◌∙◌, inl, inr, true, false, Option, none,
  some, [], ◌∷◌, ◌++◌, arith, ltb, ltb→lt, ltb→le, lt→ltb, le→ltb, if◌then◌else◌, Bytes, length,
  lengths, length-take, take, drop, take-append, drop-append, take-append-drop, Bool-cases, Result,
  ok, ◌>>=◌,
}
use ocypode.Parser.{header_length, maximum_payload_bytes, Crates}
use ocypode.Parser.Framing.{decode, with_header, with_command, take_frame}
use ocypode.Parser.Chunks.{decode-cons, decode-short, parse_header-long}

-- The number in four bytes, the highest first.
abbrev big_endian : ℕ → ℕ → ℕ → ℕ → ℕ
big_endian a b c d = ((a * 256 + b) * 256 + c) * 256 + d

module _ {C F E : Type 0} (try_from : ℕ → Option C) (read : C → Bytes → Result E F) where
  -- What decoding a buffer gives, and the buffer after it: a header that is not complete waits; an
  -- unknown command or a length above the limit costs one byte; a payload that is not complete
  -- waits; and a frame is read.
  pub data Decodes : Bytes → Result E (Option F) × Bytes → Type 0 where
    short : (xs : Bytes) → length xs < header_length → Decodes xs (ok none, xs)
    unknown :
        (v : ℕ) (rest : Bytes) (o : Result E (Option F) × Bytes)
        → header_length ≤ suc (length rest)
        → try_from v ≡ none
        → Decodes rest o
        → Decodes (v ∷ rest) o
    oversize :
        (v a b c d : ℕ) (rest : Bytes) (k : C) (o : Result E (Option F) × Bytes)
        → try_from v ≡ some k
        → maximum_payload_bytes < big_endian a b c d
        → Decodes (a ∷ b ∷ c ∷ d ∷ rest) o
        → Decodes (v ∷ a ∷ b ∷ c ∷ d ∷ rest) o
    partial :
        (v a b c d : ℕ) (rest : Bytes) (k : C)
        → try_from v ≡ some k
        → big_endian a b c d ≤ maximum_payload_bytes
        → length rest < big_endian a b c d
        → Decodes (v ∷ a ∷ b ∷ c ∷ d ∷ rest) (ok none, v ∷ a ∷ b ∷ c ∷ d ∷ rest)
    whole :
        (v a b c d : ℕ) (payload rest : Bytes) (k : C)
        → try_from v ≡ some k
        → big_endian a b c d ≤ maximum_payload_bytes
        → length payload ≡ big_endian a b c d
        → Decodes
            (v ∷ a ∷ b ∷ c ∷ d ∷ payload ++ rest)
            ((read k payload >>= λ f. ok (some f)), rest)

module _ {C F E : Type 0} (X : Crates) (try_from : ℕ → Option C)
    (read : C → Bytes → Result E F) where
  at_frame :
      (v a b c d : ℕ) (rest : Bytes) (k : C)
      → try_from v ≡ some k
      → ltb maximum_payload_bytes (big_endian a b c d) ≡ false
      → Decodes try_from read (v ∷ a ∷ b ∷ c ∷ d ∷ rest) (
          if ltb (suc (suc (suc (suc (suc (length rest)))))) (header_length + big_endian a b c d)
          then (ok none, v ∷ a ∷ b ∷ c ∷ d ∷ rest)
          else take_frame X try_from read k (big_endian a b c d) (v ∷ a ∷ b ∷ c ∷ d ∷ rest))
  at_frame v a b c d rest k known fits =
      let n = big_endian a b c d in
      elim (Bool-cases (ltb (suc (suc (suc (suc (suc (length rest)))))) (header_length + n))) [
        | inl waits ↦ rw waits (
            partial v a b c d rest k known (ltb→le maximum_payload_bytes n fits) (
              omega (
                arith,
                ltb→lt (suc (suc (suc (suc (suc (length rest)))))) (header_length + n) waits,
              )))
        | inr complete ↦
            let enough : n ≤ length rest = omega (
              arith,
              ltb→le (suc (suc (suc (suc (suc (length rest)))))) (header_length + n) complete,
            ) in
            rw complete (
              subst
                (λ l.
                  Decodes try_from read (v ∷ a ∷ b ∷ c ∷ d ∷ l)
                    (take_frame X try_from read k n (v ∷ a ∷ b ∷ c ∷ d ∷ rest)))
                (take-append-drop n rest)
                (whole v a b c d (take n rest) (drop n rest) k known
                  (ltb→le maximum_payload_bytes n fits) (length-take n rest enough)))
      ]

  at_command :
      (v a b c d : ℕ) (rest : Bytes) (o : Option C)
      → try_from v ≡ o
      → Decodes try_from read (a ∷ b ∷ c ∷ d ∷ rest) (decode X try_from read (a ∷ b ∷ c ∷ d ∷ rest))
      → Decodes try_from read (v ∷ a ∷ b ∷ c ∷ d ∷ rest) (
          with_command X try_from read
            (v ∷ a ∷ b ∷ c ∷ d ∷ rest)
            (decode X try_from read (a ∷ b ∷ c ∷ d ∷ rest))
            (big_endian a b c d)
            o)
  at_command v a b c d rest none e later =
      unknown v (a ∷ b ∷ c ∷ d ∷ rest) (decode X try_from read (a ∷ b ∷ c ∷ d ∷ rest)) (omega arith)
        e later
  at_command v a b c d rest (some k) e later =
      elim (Bool-cases (ltb maximum_payload_bytes (big_endian a b c d))) [
        | inl large ↦ rw large (
            oversize v a b c d rest k (decode X try_from read (a ∷ b ∷ c ∷ d ∷ rest)) e
              (ltb→lt maximum_payload_bytes (big_endian a b c d) large) later)
        | inr fits ↦ rw fits (at_frame v a b c d rest k e fits)
      ]

  decode-four :
      (v a b c d : ℕ) (rest : Bytes)
      → decode X try_from read (v ∷ a ∷ b ∷ c ∷ d ∷ rest)
        ≡ with_command X try_from read
            (v ∷ a ∷ b ∷ c ∷ d ∷ rest)
            (decode X try_from read (a ∷ b ∷ c ∷ d ∷ rest))
            (big_endian a b c d)
            (try_from v)
  decode-four v a b c d rest =
      let long : ltb (length (v ∷ a ∷ b ∷ c ∷ d ∷ rest)) header_length ≡ false =
        le→ltb (length (v ∷ a ∷ b ∷ c ∷ d ∷ rest)) header_length (omega arith) in
      decode-cons X try_from read v (a ∷ b ∷ c ∷ d ∷ rest)
      ∙ ap
          (with_header X try_from read (v ∷ a ∷ b ∷ c ∷ d ∷ rest)
            (decode X try_from read (a ∷ b ∷ c ∷ d ∷ rest)))
          (parse_header-long X try_from read v (a ∷ b ∷ c ∷ d ∷ rest) long
            ∙ ap (λ n. some (v, n)) (X.get_u32_be a b c d))

  decode-waits :
      (xs : Bytes)
      → length xs < header_length
      → Decodes try_from read xs (decode X try_from read xs)
  decode-waits xs h =
      subst (λ o. Decodes try_from read xs o)
        (sym (decode-short X try_from read xs (lt→ltb (length xs) header_length h))) (short xs h)

  -- The decoder does what the relation says.
  pub decode-Decodes : (xs : Bytes) → Decodes try_from read xs (decode X try_from read xs)
  decode-Decodes [] = decode-waits [] (omega arith)
  decode-Decodes (v ∷ []) = decode-waits (v ∷ []) (omega arith)
  decode-Decodes (v ∷ a ∷ []) = decode-waits (v ∷ a ∷ []) (omega arith)
  decode-Decodes (v ∷ a ∷ b ∷ []) = decode-waits (v ∷ a ∷ b ∷ []) (omega arith)
  decode-Decodes (v ∷ a ∷ b ∷ c ∷ []) = decode-waits (v ∷ a ∷ b ∷ c ∷ []) (omega arith)
  decode-Decodes (v ∷ a ∷ b ∷ c ∷ d ∷ rest) =
      subst (λ o. Decodes try_from read (v ∷ a ∷ b ∷ c ∷ d ∷ rest) o)
        (sym (decode-four v a b c d rest))
        (at_command v a b c d rest (try_from v) refl (decode-Decodes (a ∷ b ∷ c ∷ d ∷ rest)))

  -- The relation gives at most one result, that of the decoder.
  pub Decodes-decode :
      (xs : Bytes) (o : Result E (Option F) × Bytes)
      → Decodes try_from read xs o
      → decode X try_from read xs ≡ o
  Decodes-decode xs o (short _ h) =
      decode-short X try_from read xs (lt→ltb (length xs) header_length h)
  Decodes-decode xs o (unknown v rest _ long new later) =
      decode-cons X try_from read v rest
      ∙ ap (with_header X try_from read (v ∷ rest) (decode X try_from read rest))
          (parse_header-long X try_from read v rest (le→ltb (length (v ∷ rest)) header_length long))
      ∙ ap
          (with_command X try_from read (v ∷ rest) (decode X try_from read rest)
            (X.get_u32 (take 4 rest)))
          new
      ∙ Decodes-decode rest o later
  Decodes-decode xs o (oversize v a b c d rest k _ known large later) =
      decode-four v a b c d rest
      ∙ rw (known, lt→ltb maximum_payload_bytes (big_endian a b c d) large)
          (Decodes-decode (a ∷ b ∷ c ∷ d ∷ rest) o later)
  Decodes-decode xs o (partial v a b c d rest k known fits waits) =
      let more : ltb (length (v ∷ a ∷ b ∷ c ∷ d ∷ rest)) (header_length + big_endian a b c d)
          ≡ true =
        lt→ltb (length (v ∷ a ∷ b ∷ c ∷ d ∷ rest)) (header_length + big_endian a b c d)
          (omega arith) in
      decode-four v a b c d rest
      ∙ rw (known, le→ltb maximum_payload_bytes (big_endian a b c d) fits, more) refl
  Decodes-decode xs o (whole v a b c d payload rest k known fits same) =
      let full : ltb (length (v ∷ a ∷ b ∷ c ∷ d ∷ payload ++ rest))
            (header_length + big_endian a b c d)
          ≡ false =
        le→ltb (length (v ∷ a ∷ b ∷ c ∷ d ∷ payload ++ rest)) (header_length + big_endian a b c d)
          (grind lengths) in
      decode-four v a b c d (payload ++ rest)
      ∙ rw (known, le→ltb maximum_payload_bytes (big_endian a b c d) fits, full)
          (rw (sym same, take-append payload rest, drop-append payload rest) refl)
