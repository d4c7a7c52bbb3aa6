-- ===== src/Parser/Examples.antt =====
-- The codecs of crates/server/src/parser.rs with the small stand-in for prost of Parser/Fixtures.
use ocypode.Prelude.{
  map, All, ℕ, zero, suc, ◌+◌, ◌<◌, ◌≡◌, refl, ◌↔◌, none, some, List, [], ◌∷◌, ◌++◌, arith, Bytes,
  bytes_eq, length, drop, ok,
}
use ocypode.Parser.{
  header_length, maximum_payload_bytes, Crates, Frame, publish_frame, subscribe_frame, info_frame,
  server_try_from, client_try_from,
}
use ocypode.Parser.Code.{publish_codec, default_info}
use ocypode.Parser.Fixtures.{note, interest, crates_with, crates}
use ocypode.Parser.Framing.{
  server_encode, client_encode, server_decode, client_decode, server_read, client_read,
}
use ocypode.Parser.Atomic.{AllOrNothing, encode-AllOrNothing}
use ocypode.Parser.Outcome.{Decodes}
use ocypode.Parser.Chunks.{resume}
use ocypode.Parser.Codecs.{
  decode_split, server_decode_iff, client_decode_iff, server_decode_bounded,
}
use ocypode.Parser.Exchange.{
  client_send, server_send, server_decode-client_send, client_decode-server_send,
}
use ocypode.Parser.Reader.{
  received, read_next_client_frame, outcome, joined, NonEmpty, read_next_client_frame-chunks,
  read_next_client_frame-server_send,
}
use ocypode.Parser.Stream.{
  send_all, read_frames, read_frames-send_all, server_decode-client_send_oversized,
}

-- Two bytes that are no command, a frame, and the start of another.
abbrev arriving : Bytes
arriving = 255 ∷ 9 ∷ 2 ∷ 0 ∷ 0 ∷ 0 ∷ 3 ∷ 10 ∷ 1 ∷ 97 ∷ 3 ∷ []

resyncs : server_decode crates arriving ≡ (ok (some (publish_frame note)), 3 ∷ [])
unfolding server_decode bytes_eq
resyncs = refl

waits :
    server_decode crates (255 ∷ 2 ∷ 0 ∷ 0 ∷ 0 ∷ 3 ∷ 10 ∷ [])
    ≡ (ok none, 2 ∷ 0 ∷ 0 ∷ 0 ∷ 3 ∷ 10 ∷ [])
unfolding server_decode bytes_eq
waits = refl

server_decode_iff_example :
    (server_decode crates arriving ≡ (ok (some (publish_frame note)), 3 ∷ []))
    ↔ Decodes server_try_from (server_read crates) arriving (ok (some (publish_frame note)), 3 ∷ [])
server_decode_iff_example =
    server_decode_iff crates arriving (ok (some (publish_frame note)), 3 ∷ [])

client_decode_iff_example :
    (client_decode crates arriving ≡ (ok none, 3 ∷ []))
    ↔ Decodes client_try_from (client_read crates) arriving (ok none, 3 ∷ [])
client_decode_iff_example = client_decode_iff crates arriving (ok none, 3 ∷ [])

-- What `waits` leaves.
abbrev kept : Bytes
kept = 2 ∷ 0 ∷ 0 ∷ 0 ∷ 3 ∷ 10 ∷ []

server_decode_bounded_example :
    (length kept < header_length + maximum_payload_bytes)
    × (dropped : Bytes) × (255 ∷ kept ≡ dropped ++ kept)
server_decode_bounded_example = server_decode_bounded crates (255 ∷ kept) kept waits

decode_split_example :
    ((xs more : Bytes)
      → server_decode crates (xs ++ more)
        ≡ resume crates server_try_from (server_read crates) (server_decode crates xs) more)
    × ((xs more : Bytes)
        → client_decode crates (xs ++ more)
          ≡ resume crates client_try_from (client_read crates) (client_decode crates xs) more)
decode_split_example = decode_split crates

server_decode-client_send_example :
    (w : Bytes) × (client_send crates (publish_frame note) [] ≡ (ok tt, [] ++ w))
    × (server_decode crates (w ++ (3 ∷ [])) ≡ (ok (some (publish_frame note)), 3 ∷ []))
unfolding bytes_eq
server_decode-client_send_example =
    server_decode-client_send crates (publish_frame note) (10 ∷ 1 ∷ 97 ∷ []) [] (3 ∷ [])
      (refl, refl) (omega arith)

client_decode-server_send_example :
    (w : Bytes) × (server_send crates (info_frame default_info) [] ≡ (ok tt, [] ++ w))
    × (client_decode crates (w ++ (3 ∷ [])) ≡ (ok (some (info_frame default_info)), 3 ∷ []))
unfolding bytes_eq
client_decode-server_send_example =
    client_decode-server_send crates (info_frame default_info) (8 ∷ 1 ∷ []) [] (3 ∷ []) (refl, refl)
      (omega arith)

abbrev two_frames : List Frame
two_frames = subscribe_frame interest ∷ publish_frame note ∷ []

read_frames-send_all_example :
    (w : Bytes) × (send_all crates two_frames [] ≡ (ok tt, [] ++ w))
    × (read_frames crates (length two_frames) (w ++ (3 ∷ [])) ≡ (ok two_frames, 3 ∷ []))
unfolding bytes_eq
read_frames-send_all_example =
    read_frames-send_all crates two_frames ((10 ∷ 1 ∷ 97 ∷ 16 ∷ 7 ∷ []) ∷ (10 ∷ 1 ∷ 97 ∷ []) ∷ [])
      [] (3 ∷ []) ((refl, refl), omega arith, ((refl, refl), omega arith, tt))

-- A payload of 1 MiB and one byte.
unfoldable zeros : ℕ → Bytes
zeros zero = []
zeros (suc n) = 0 ∷ zeros n

length-zeros : (n : ℕ) → length (zeros n) ≡ n
unfolding zeros
length-zeros zero = refl
length-zeros (suc n) = omega (arith, length-zeros n)

abbrev large_crates : Crates
large_crates = crates_with (record { encode = λ _. ok (zeros 1048577); decode = λ _. ok note })

server_decode-client_send_oversized_example :
    (w : Bytes) × (client_send large_crates (publish_frame note) [] ≡ (ok tt, [] ++ w))
    × (server_decode large_crates (w ++ []) ≡ server_decode large_crates (drop 1 (w ++ [])))
server_decode-client_send_oversized_example =
    server_decode-client_send_oversized large_crates (publish_frame note) (zeros 1048577) [] []
      (refl, refl) (omega (arith, length-zeros 1048577)) (omega (arith, length-zeros 1048577))

encode-AllOrNothing_example :
    AllOrNothing crates
      (publish_codec crates)
      note
      (7 ∷ [])
      (server_encode crates (publish_codec crates) note (7 ∷ []))
    × AllOrNothing crates
        (publish_codec crates)
        note
        (7 ∷ [])
        (client_encode crates (publish_codec crates) note (7 ∷ []))
encode-AllOrNothing_example = encode-AllOrNothing crates (publish_codec crates) note (7 ∷ [])

-- The INFO frame of `crates`, cut into three chunks, with a byte of the next frame behind it.
abbrev cut : List Bytes
cut = (0 ∷ 0 ∷ []) ∷ (0 ∷ 0 ∷ 2 ∷ 8 ∷ []) ∷ (1 ∷ 5 ∷ []) ∷ []

read_cut :
    read_next_client_frame crates (map received cut) []
    ≡ (ok (some (info_frame default_info)), (5 ∷ [], []))
unfolding read_next_client_frame bytes_eq
read_cut = refl

read_next_client_frame-chunks_example :
    outcome crates (read_next_client_frame crates (map received cut) [])
    ≡ client_decode crates ([] ++ joined crates cut)
read_next_client_frame-chunks_example =
    read_next_client_frame-chunks crates cut [] (tt, (tt, (tt, tt)))

read_next_client_frame-server_send_example :
    (w : Bytes) × (server_send crates (info_frame default_info) [] ≡ (ok tt, w))
    × ((chunks : List Bytes) (behind : Bytes)
        → All (NonEmpty crates) chunks
        → joined crates chunks ≡ w ++ behind
        → outcome crates (read_next_client_frame crates (map received chunks) [])
          ≡ (ok (some (info_frame default_info)), behind))
unfolding bytes_eq
read_next_client_frame-server_send_example =
    read_next_client_frame-server_send crates (info_frame default_info) (8 ∷ 1 ∷ []) (refl, refl)
      (omega arith)
