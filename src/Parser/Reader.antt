-- ===== src/Parser/Reader.antt =====
-- The client's side of a stream in crates/server/tests/protocol.rs: `read_next_client_frame` over
-- what `read_buf` gives, and `write_client_frame`. The end of the list is the end of the stream.
use ocypode.Prelude.{
  ◌≤◌, ◌≡◌, refl, sym, ap, ◌∙◌, Option, none, some, List, [], ◌∷◌, ◌++◌, append-nil, append_assoc,
  map, All, Bytes, length, Result, ok, err, panic,
}
use ocypode.Parser.{
  Crates, maximum_payload_bytes, ClientCodecError, client_io, ClientFrame, client_try_from,
}
use ocypode.Parser.Code.{CommandCodec}
use ocypode.Parser.Framing.{client_decode, client_read, client_encode}
use ocypode.Parser.Chunks.{resume}
use ocypode.Parser.Codecs.{decode_split}
use ocypode.Parser.Exchange.{server_send, ServerCarries, client_decode-server_send}

module _ (X : Crates) where
  -- What one call of `read_buf` gives.
  pub data Read : Type 0 where
    received : Bytes → Read
    failed : X.IoError → Read

  -- The result, the buffer, and what the stream still gives.
  abbrev pub Reading : Type 0
  Reading = Result (ClientCodecError X) (Option ClientFrame) × (Bytes × List Read)

  abbrev pub at_end : Result (ClientCodecError X) (Option ClientFrame) × Bytes → Reading
  at_end (r, incoming) = (r, (incoming, []))

  -- `read_buf` and what follows it, with the next round of the loop.
  abbrev pub after_read : Read → List Read → Bytes → (Bytes → Reading) → Reading
  after_read (received []) reads incoming again = (ok none, (incoming, reads))
  after_read (received (b ∷ bytes)) reads incoming again = again (incoming ++ (b ∷ bytes))
  after_read (failed e) reads incoming again = (err (client_io e), (incoming, reads))

  abbrev pub after_decode :
      Read
      → List Read
      → (Bytes → Reading)
      → Result (ClientCodecError X) (Option ClientFrame) × Bytes
      → Reading
  after_decode r reads again (ok (some frame), incoming) = (ok (some frame), (incoming, r ∷ reads))
  after_decode r reads again (ok none, incoming) = after_read r reads incoming again
  after_decode r reads again (err e, incoming) = (err e, (incoming, r ∷ reads))
  after_decode r reads again (panic, incoming) = (panic, (incoming, r ∷ reads))

  unfoldable pub read_next_client_frame : List Read → Bytes → Reading
  unfolding client_decode
  read_next_client_frame [] incoming = at_end (client_decode X incoming)
  read_next_client_frame (r ∷ reads) incoming =
      after_decode r reads (λ b. read_next_client_frame reads b) (client_decode X incoming)

  -- The bytes of the chunks, in a row.
  abbrev pub joined : List Bytes → Bytes
  joined [] = []
  joined (c ∷ chunks) = c ++ joined chunks

  abbrev pub bytes_of : List Read → Bytes
  bytes_of [] = []
  bytes_of (received c ∷ reads) = c ++ bytes_of reads
  bytes_of (failed e ∷ reads) = bytes_of reads

  abbrev pub NonEmpty : Bytes → Type 0
  NonEmpty [] = ⊥
  NonEmpty (b ∷ bytes) = Unit

  -- The result, and all bytes that are left in the buffer and in the stream.
  abbrev pub outcome : Reading → Result (ClientCodecError X) (Option ClientFrame) × Bytes
  outcome (r, (incoming, reads)) = (r, incoming ++ bytes_of reads)

  bytes_of-received : (chunks : List Bytes) → bytes_of (map received chunks) ≡ joined chunks
  bytes_of-received [] = refl
  bytes_of-received (c ∷ chunks) = ap (λ l. c ++ l) (bytes_of-received chunks)

  reading_step :
      (chunks : List Bytes) (c : Bytes)
      (d : Result (ClientCodecError X) (Option ClientFrame) × Bytes)
      → NonEmpty c
      → ((b : Bytes)
          → outcome (read_next_client_frame (map received chunks) b)
            ≡ client_decode X (b ++ joined chunks))
      → outcome (
          after_decode
            (received c)
            (map received chunks)
            (λ b. read_next_client_frame (map received chunks) b)
            d)
        ≡ resume X client_try_from (client_read X) d (c ++ joined chunks)
  unfolding client_decode
  reading_step chunks (x ∷ c) (ok none, rest) full ih =
      ih (rest ++ (x ∷ c)) ∙ ap (client_decode X) (append_assoc rest (x ∷ c) (joined chunks))
  reading_step chunks (x ∷ c) (ok (some f), rest) full ih =
      ap (λ l. (ok (some f), rest ++ ((x ∷ c) ++ l))) (bytes_of-received chunks)
  reading_step chunks (x ∷ c) (err e, rest) full ih =
      ap (λ l. (err e, rest ++ ((x ∷ c) ++ l))) (bytes_of-received chunks)
  reading_step chunks (x ∷ c) (panic, rest) full ih =
      ap (λ l. (panic, rest ++ ((x ∷ c) ++ l))) (bytes_of-received chunks)
  reading_step chunks [] d full ih = absurd full

  -- However a stream is cut into chunks that are not empty, reading the next frame from them gives
  -- what decoding all its bytes at once gives, and leaves the same bytes in the buffer and the stream.
  pub read_next_client_frame-chunks :
      (chunks : List Bytes) (incoming : Bytes)
      → All NonEmpty chunks
      → outcome (read_next_client_frame (map received chunks) incoming)
        ≡ client_decode X (incoming ++ joined chunks)
  unfolding read_next_client_frame
  read_next_client_frame-chunks [] incoming h =
      ap (λ l. ((client_decode X incoming).0, l)) (append-nil (client_decode X incoming).1)
      ∙ ap (client_decode X) (sym (append-nil incoming))
  read_next_client_frame-chunks (c ∷ chunks) incoming h =
      reading_step chunks c (client_decode X incoming) h.0
        (λ b. read_next_client_frame-chunks chunks b h.1)
      ∙ sym ((decode_split X).1 incoming (c ++ joined chunks))

  -- What the server sends reaches the client whole: if the bytes of a frame with a payload of at most
  -- 1 MiB, and any bytes behind them, come in chunks that are not empty, the client reads the frame,
  -- and the bytes behind it are what is left.
  pub read_next_client_frame-server_send :
      (f : ClientFrame) (p : Bytes)
      → ServerCarries X p f
      → length p ≤ maximum_payload_bytes
      → (w : Bytes) × (server_send X f [] ≡ (ok tt, w))
        × ((chunks : List Bytes) (behind : Bytes)
            → All NonEmpty chunks
            → joined chunks ≡ w ++ behind
            → outcome (read_next_client_frame (map received chunks) []) ≡ (ok (some f), behind))
  read_next_client_frame-server_send f p carried fits =
      let (w, sent, decoded) = client_decode-server_send X f p [] [] carried fits in
      (
        w,
        sent,
        λ chunks behind full cut.
            read_next_client_frame-chunks chunks [] full
            ∙ ap (client_decode X) cut
            ∙ decodes w behind decoded,
      )
    where
      decodes :
          (w : Bytes) (behind : Bytes)
          → client_decode X (w ++ []) ≡ (ok (some f), [])
          → client_decode X (w ++ behind) ≡ (ok (some f), behind)
      decodes w behind d =
          ap (λ l. client_decode X (l ++ behind)) (sym (append-nil w))
          ∙ (decode_split X).1 (w ++ []) behind
          ∙ ap (λ o. resume X client_try_from (client_read X) o behind) d

module _ (X : Crates) (write_all : Bytes → Result X.IoError (Unit {0})) where
  abbrev written : Result X.IoError (Unit {0}) → Result (ClientCodecError X) (Unit {0})
  written (ok _) = ok tt
  written (err e) = err (client_io e)
  written panic = panic

  abbrev after_encode :
      Result (ClientCodecError X) (Unit {0}) × Bytes → Result (ClientCodecError X) (Unit {0})
  after_encode (ok _, output) = written (write_all output)
  after_encode (err e, output) = err e
  after_encode (panic, output) = panic

  unfoldable pub write_client_frame :
      {M : Type 0} → CommandCodec X M → M → Result (ClientCodecError X) (Unit {0})
  unfolding client_encode
  write_client_frame k message = after_encode (client_encode X k message [])
