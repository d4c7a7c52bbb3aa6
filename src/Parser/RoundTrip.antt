-- ===== src/Parser/RoundTrip.antt =====
-- What the codecs of crates/server/src/parser.rs write, read back.
use ocypode.Prelude.{
  ℕ, ◌+◌, ◌*◌, ◌/◌, ◌%◌, ◌^◌, ◌<◌, ◌≡◌, refl, ap, ◌∙◌, false, Option, some, ◌∷◌, ◌++◌, append_assoc,
  arith, ltb, le→ltb, if◌then◌else◌, Bytes, length, length-append, take, drop, take-append,
  drop-append, Result, ok, ◌>>=◌,
}
use ocypode.Parser.{header_length, maximum_payload_bytes, Crates}
use ocypode.Parser.Framing.{decode, with_header, with_command}
use ocypode.Parser.Chunks.{parse_header-long, decode-cons}

bytes_of_u32 :
    (n : ℕ)
    → n < 4294967296
    → (((n / 16777216) % 256 * 256 + (n / 65536) % 256) * 256 + (n / 256) % 256) * 256 + n % 256 ≡ n
bytes_of_u32 n h = omega arith

module _ (X : Crates) where
  -- The big-endian length is read back.
  pub get_u32-put_u32 :
      (n : ℕ) (rest : Bytes) → n < 2 ^ 32 → X.get_u32 (take 4 (X.put_u32 n ++ rest)) ≡ n
  get_u32-put_u32 n rest h = rw (X.put_u32_be n) (
      X.get_u32_be ((n / 16777216) % 256) ((n / 65536) % 256) ((n / 256) % 256) (n % 256)
      ∙ bytes_of_u32 n h)

  length-put_u32 : (n : ℕ) → length (X.put_u32 n) ≡ 4
  length-put_u32 n = rw (X.put_u32_be n) refl

  -- The bytes of a frame.
  abbrev pub wire : ℕ → Bytes → Bytes
  wire command payload = command ∷ X.put_u32 (length payload) ++ payload

  drop-wire :
      (command : ℕ) (payload rest : Bytes)
      → drop header_length (wire command payload ++ rest) ≡ payload ++ rest
  drop-wire command payload rest = rw (X.put_u32_be (length payload)) refl

  length-wire :
      (command : ℕ) (payload : Bytes)
      → length (wire command payload) ≡ header_length + length payload
  length-wire command payload = rw (X.put_u32_be (length payload)) (omega arith)

  module _ {C F E : Type 0} (try_from : ℕ → Option C) (read : C → Bytes → Result E F) where
    -- The decoder at the start of a frame.
    pub decode-wire :
        (command : ℕ) (payload rest : Bytes) (c : C)
        → try_from command ≡ some c
        → length payload < 2 ^ 32
        → decode X try_from read (wire command payload ++ rest) ≡ (
            if ltb maximum_payload_bytes (length payload)
            then decode X try_from read (drop 1 (wire command payload ++ rest))
            else ((read c payload >>= λ f. ok (some f)), rest))
    decode-wire command payload rest c known fits =
        decode-cons X try_from read command (tail ++ rest)
        ∙ ap (with_header X try_from read (wire command payload ++ rest) resync) (
            parse_header-long X try_from read command (tail ++ rest) long
            ∙ ap (λ n. some (command, n)) declared)
        ∙ ap (with_command X try_from read (wire command payload ++ rest) resync (length payload))
            known
        ∙ ap (λ b. if ltb maximum_payload_bytes (length payload) then resync else b)
            (rw
              (
                complete,
                drop-wire command payload rest,
                take-append payload rest,
                drop-append payload rest,
              )
              refl)
      where
        tail : Bytes
        tail = X.put_u32 (length payload) ++ payload

        resync : Result E (Option F) × Bytes
        resync = decode X try_from read (drop 1 (wire command payload ++ rest))

        long : ltb (length (wire command payload ++ rest)) header_length ≡ false
        long =
            le→ltb (length (wire command payload ++ rest)) header_length (
              omega (arith, length-append (wire command payload) rest, length-wire command payload))

        declared : X.get_u32 (take 4 (tail ++ rest)) ≡ length payload
        declared =
            ap (λ l. X.get_u32 (take 4 l)) (append_assoc (X.put_u32 (length payload)) payload rest)
            ∙ get_u32-put_u32 (length payload) (payload ++ rest) fits

        complete :
            ltb (length (wire command payload ++ rest)) (header_length + length payload) ≡ false
        complete =
            le→ltb (length (wire command payload ++ rest)) (header_length + length payload) (
              omega (arith, length-append (wire command payload) rest, length-wire command payload))
