-- ===== src/Parser/Stream.antt =====
-- crates/server/src/parser.rs: a stream of frames from a client, and frames above the limit.
use ocypode.Prelude.{
  ℕ, zero, suc, ◌^◌, ◌≤◌, ◌<◌, ◌≡◌, refl, sym, ap, ◌∙◌, Option, none, some, List, [], ◌∷◌, ◌++◌,
  append-nil, append_assoc, arith, lt→ltb, Bytes, length, drop, Result, ok, err, panic, ◌>>=◌,
}
use ocypode.Parser.{
  maximum_payload_bytes, Crates, ServerCodecError, ClientCodecError, Frame, connect_frame,
  publish_frame, subscribe_frame, unsubscribe_frame, server_try_from, ServerInboundCommand,
  inbound_connect, inbound_publish, inbound_subscribe, inbound_unsubscribe,
}
use ocypode.Parser.Framing.{server_decode, server_read}
use ocypode.Parser.RoundTrip.{wire, decode-wire}
use ocypode.Parser.Exchange.{client_send, Carries, wire_of, client_send-wire, server_decode-wire}

module _ (X : Crates) where
  abbrev and_then :
      (Bytes → Result (ClientCodecError X) (Unit {0}) × Bytes)
      → Result (ClientCodecError X) (Unit {0}) × Bytes
      → Result (ClientCodecError X) (Unit {0}) × Bytes
  and_then later (ok _, output) = later output
  and_then later (err e, output) = (err e, output)
  and_then later (panic, output) = (panic, output)

  -- Frames sent in a row, up to the first error.
  abbrev pub send_all : List Frame → Bytes → Result (ClientCodecError X) (Unit {0}) × Bytes
  send_all [] output = (ok tt, output)
  send_all (f ∷ fs) output = and_then (λ o. send_all fs o) (client_send X f output)

  abbrev pub keep :
      Frame
      → Result (ServerCodecError X) (List Frame) × Bytes
      → Result (ServerCodecError X) (List Frame) × Bytes
  keep f (r, incoming) = ((r >>= λ fs. ok (f ∷ fs)), incoming)

  abbrev pub read_next :
      (Bytes → Result (ServerCodecError X) (List Frame) × Bytes)
      → Result (ServerCodecError X) (Option Frame) × Bytes
      → Result (ServerCodecError X) (List Frame) × Bytes
  read_next later (ok (some f), incoming) = keep f (later incoming)
  read_next later (ok none, incoming) = (ok [], incoming)
  read_next later (err e, incoming) = (err e, incoming)
  read_next later (panic, incoming) = (panic, incoming)

  -- At most so many frames, decoded in a row.
  abbrev pub read_frames : ℕ → Bytes → Result (ServerCodecError X) (List Frame) × Bytes
  read_frames zero incoming = (ok [], incoming)
  read_frames (suc n) incoming = read_next (λ b. read_frames n b) (server_decode X incoming)

  -- Each payload is that of its frame, and at most 1 MiB long.
  abbrev pub CarriesAll : List Bytes → List Frame → Type 0
  CarriesAll [] [] = Unit
  CarriesAll (p ∷ ps) (f ∷ fs) =
      Carries X p f × (length p ≤ maximum_payload_bytes) × CarriesAll ps fs
  CarriesAll _ _ = ⊥

  -- Frames that a client sends in a row, each with a payload of at most 1 MiB, are the frames that
  -- the server decodes in a row, in the same order, and what follows them stays in the buffer.
  pub read_frames-send_all :
      (fs : List Frame) (ps : List Bytes) (output rest : Bytes)
      → CarriesAll ps fs
      → (w : Bytes) × (send_all fs output ≡ (ok tt, output ++ w))
        × (read_frames (length fs) (w ++ rest) ≡ (ok fs, rest))
  read_frames-send_all [] [] output rest h =
      ([], ap (λ o. (ok tt, o)) (sym (append-nil output)), refl)
  read_frames-send_all [] (p ∷ ps) output rest h = absurd h
  read_frames-send_all (f ∷ fs) [] output rest h = absurd h
  read_frames-send_all (f ∷ fs) (p ∷ ps) output rest h =
      let (w, sent, seen) = read_frames-send_all fs ps (output ++ wire_of X f p) rest h.2 in
      (
        wire_of X f p ++ w,
        rw (client_send-wire X f p output h.0 (omega (arith, h.1)))
            (sent ∙ ap (λ o. (ok tt, o)) (append_assoc output (wire_of X f p) w)),
        rw (append_assoc (wire_of X f p) w rest, server_decode-wire X f p (w ++ rest) h.0 h.1, seen)
            refl,
      )

  oversized :
      (command : ℕ) (p rest : Bytes) (c : ServerInboundCommand)
      → server_try_from command ≡ some c
      → maximum_payload_bytes < length p
      → length p < 2 ^ 32
      → server_decode X (wire X command p ++ rest)
        ≡ server_decode X (drop 1 (wire X command p ++ rest))
  unfolding server_decode
  oversized command p rest c known large fits =
      decode-wire X server_try_from (server_read X) command p rest c known fits
      ∙ rw (lt→ltb maximum_payload_bytes (length p) large) refl

  server_decode-oversized :
      (f : Frame) (p rest : Bytes)
      → maximum_payload_bytes < length p
      → length p < 2 ^ 32
      → server_decode X (wire_of X f p ++ rest) ≡ server_decode X (drop 1 (wire_of X f p ++ rest))
  unfolding server_try_from
  server_decode-oversized (connect_frame _) p rest large fits =
      oversized 1 p rest inbound_connect refl large fits
  server_decode-oversized (publish_frame _) p rest large fits =
      oversized 2 p rest inbound_publish refl large fits
  server_decode-oversized (subscribe_frame _) p rest large fits =
      oversized 3 p rest inbound_subscribe refl large fits
  server_decode-oversized (unsubscribe_frame _) p rest large fits =
      oversized 4 p rest inbound_unsubscribe refl large fits

  -- A frame with a payload above 1 MiB and below 4 GiB is sent without an error, and the server does not
  -- decode it: it drops the first byte and decodes from the second on.
  pub server_decode-client_send_oversized :
      (f : Frame) (p output rest : Bytes)
      → Carries X p f
      → maximum_payload_bytes < length p
      → length p < 2 ^ 32
      → (w : Bytes) × (client_send X f output ≡ (ok tt, output ++ w))
        × (server_decode X (w ++ rest) ≡ server_decode X (drop 1 (w ++ rest)))
  server_decode-client_send_oversized f p output rest h large fits = (
    wire_of X f p,
    client_send-wire X f p output h fits,
    server_decode-oversized f p rest large fits,
  )
