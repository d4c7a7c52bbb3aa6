-- ===== src/Protocol/Reads.antt =====
-- What reading and writing a frame in crates/server/tests/protocol.rs leave of a stream.
use ocypode.Prelude.{
  ◌^◌, ◌<◌, ◌≡◌, refl, ap, Option, none, some, List, [], ◌∷◌, ◌++◌, map, All, Bytes, length, Result,
  ok, err, panic,
}
use ocypode.Parser.{Crates, ClientCodecError, ClientFrame, connect_frame}
use ocypode.Parser.Code.{connect_codec}
use ocypode.Parser.Framing.{client_decode}
use ocypode.Parser.Exchange.{Restores, wire_of, client_send-wire}
use ocypode.Parser.Reader
use ocypode.Parser.Reader.{
  Read, Reading, read_next_client_frame, write_client_frame, after_decode, outcome, bytes_of,
  joined, NonEmpty,
}

module _ (X : Crates) where
  -- The reads of a stream that does not fail and is not at its end.
  abbrev IsChunked : List (Read X) → Type 0
  IsChunked [] = Unit
  IsChunked (Reader.received c ∷ reads) = NonEmpty X c × IsChunked reads
  IsChunked (Reader.failed e ∷ reads) = ⊥

  map-IsChunked :
      (chunks : List Bytes) → All (NonEmpty X) chunks → IsChunked (map Reader.received chunks)
  map-IsChunked [] h = tt
  map-IsChunked (c ∷ chunks) h = (h.0, map-IsChunked chunks h.1)

  round-IsChunked :
      (c : Bytes) (reads : List (Read X))
      (d : Result (ClientCodecError X) (Option ClientFrame) × Bytes)
      → NonEmpty X c
      → IsChunked reads
      → ((b : Bytes) → IsChunked (read_next_client_frame X reads b).1.1)
      → IsChunked
          (after_decode X (Reader.received c) reads (λ b. read_next_client_frame X reads b) d).1.1
  round-IsChunked [] reads d full h ih = absurd full
  round-IsChunked (x ∷ c) reads (ok none, rest) full h ih = ih (rest ++ (x ∷ c))
  round-IsChunked (x ∷ c) reads (ok (some f), rest) full h ih = (full, h)
  round-IsChunked (x ∷ c) reads (err e, rest) full h ih = (full, h)
  round-IsChunked (x ∷ c) reads (panic, rest) full h ih = (full, h)

  read-IsChunked :
      (reads : List (Read X)) (b : Bytes)
      → IsChunked reads
      → IsChunked (read_next_client_frame X reads b).1.1
  unfolding read_next_client_frame
  read-IsChunked [] b h = tt
  read-IsChunked (Reader.received c ∷ reads) b h =
      round-IsChunked c reads (client_decode X b) h.0 h.1 (λ l. read-IsChunked reads l h.1)
  read-IsChunked (Reader.failed e ∷ reads) b h = absurd h

  left_empty :
      (r : Reading X) (f : ClientFrame)
      → IsChunked r.1.1
      → outcome X r ≡ (ok (some f), [])
      → r ≡ (ok (some f), ([], []))
  left_empty (r, ([], [])) f h e = ap (λ o. (o.0, ([], []))) e
  left_empty (r, ([], Reader.received (x ∷ c) ∷ reads)) f h e =
      absurd (let left : x ∷ (c ++ bytes_of X reads) ≡ [] = ap (λ o. o.1) e in cc)
  left_empty (r, ([], Reader.received [] ∷ reads)) f h e = absurd h.0
  left_empty (r, ([], Reader.failed x ∷ reads)) f h e = absurd h
  left_empty (r, (x ∷ l, reads)) f h e =
      absurd (let left : x ∷ (l ++ bytes_of X reads) ≡ [] = ap (λ o. o.1) e in cc)

  -- A read that leaves nothing behind its frame has emptied the stream.
  pub read_empties :
      (chunks : List Bytes) (f : ClientFrame)
      → All (NonEmpty X) chunks
      → outcome X (read_next_client_frame X (map Reader.received chunks) []) ≡ (ok (some f), [])
      → read_next_client_frame X (map Reader.received chunks) [] ≡ (ok (some f), ([], []))
  read_empties chunks f full e =
      left_empty (read_next_client_frame X (map Reader.received chunks) []) f
        (read-IsChunked (map Reader.received chunks) [] (map-IsChunked chunks full)) e

  pub write-connect :
      (write_all : Bytes → Result X.IoError (Unit {0})) (m : _) (p : Bytes)
      → Restores X X.connect m p
      → length p < 2 ^ 32
      → ((b : Bytes) → write_all b ≡ ok tt)
      → write_client_frame X write_all (connect_codec X) m ≡ ok tt
  unfolding write_client_frame
  write-connect write_all m p h fits writes =
      rw (client_send-wire X (connect_frame m) p [] h fits, writes (wire_of X (connect_frame m) p))
        refl
