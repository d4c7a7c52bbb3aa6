-- ===== src/Parser/Exchange.antt =====
-- crates/server/src/parser.rs: frames from the client's encoder to the server's decoder, and back.
use ocypode.Prelude.{
  ℕ, ◌^◌, ◌≤◌, ◌<◌, ◌≡◌, refl, ◌∙◌, Option, some, ◌++◌, arith, lt→ltb, le→ltb, Bytes, length,
  Result, ok,
}
use ocypode.Parser.{
  maximum_payload_bytes, Crates, ServerCodecError, server_codec, ClientCodecError, client_codec,
  Frame, connect_frame, publish_frame, subscribe_frame, unsubscribe_frame, ClientFrame, info_frame,
  message_frame, server_try_from, client_try_from, ServerInboundCommand, ClientInboundCommand,
  command_code, CodecError, inbound_connect, inbound_publish, inbound_subscribe,
  inbound_unsubscribe, inbound_info, inbound_message, ProstMessage,
}
use ocypode.Parser.Code.{
  CommandCodec, info_codec, connect_codec, publish_codec, subscribe_codec, unsubscribe_codec,
  message_codec,
}
use ocypode.Parser.Framing.{
  decode, server_decode, client_decode, server_read, client_read, server_encode, client_encode,
  encode,
}
use ocypode.Parser.RoundTrip.{wire, decode-wire}

module _ (X : Crates) where
  -- What a client sends, each frame by its codec, and what a server sends.
  abbrev pub client_send : Frame → Bytes → Result (ClientCodecError X) (Unit {0}) × Bytes
  client_send (connect_frame m) = client_encode X (connect_codec X) m
  client_send (publish_frame m) = client_encode X (publish_codec X) m
  client_send (subscribe_frame m) = client_encode X (subscribe_codec X) m
  client_send (unsubscribe_frame m) = client_encode X (unsubscribe_codec X) m

  abbrev pub server_send : ClientFrame → Bytes → Result (ServerCodecError X) (Unit {0}) × Bytes
  server_send (info_frame m) = server_encode X (info_codec X) m
  server_send (message_frame m) = server_encode X (message_codec X) m

  -- prost writes the payload for the message, and reads it back.
  abbrev pub Restores :
      {M : Type 0} → ProstMessage X.EncodeError X.DecodeError M → M → Bytes → Type 0
  Restores k m p = (k.encode m ≡ ok p) × (k.decode p ≡ ok m)

  abbrev pub Carries : Bytes → Frame → Type 0
  Carries p (connect_frame m) = Restores X.connect m p
  Carries p (publish_frame m) = Restores X.publish m p
  Carries p (subscribe_frame m) = Restores X.subscribe m p
  Carries p (unsubscribe_frame m) = Restores X.unsubscribe m p

  abbrev pub ServerCarries : Bytes → ClientFrame → Type 0
  ServerCarries p (info_frame m) = Restores X.info m p
  ServerCarries p (message_frame m) = Restores X.message m p

  encode-wire :
      {E M : Type 0} (wrap : CodecError X → E) (k : CommandCodec X M) (m : M) (p output : Bytes)
      → k.prost.encode m ≡ ok p
      → length p < 2 ^ 32
      → encode X wrap k m output ≡ (ok tt, output ++ wire X k.command p)
  unfolding encode
  encode-wire wrap k m p output written fits = rw (written, lt→ltb (length p) (2 ^ 32) fits) refl

  -- A frame whose payload is within the limit.
  decode-within :
      {C F E : Type 0} (try_from : ℕ → Option C) (read : C → Bytes → Result E F) (command : ℕ)
      (p rest : Bytes) (c : C) (f : F)
      → try_from command ≡ some c
      → read c p ≡ ok f
      → length p ≤ maximum_payload_bytes
      → decode X try_from read (wire X command p ++ rest) ≡ (ok (some f), rest)
  decode-within try_from read command p rest c f known restored fits =
      decode-wire X try_from read command p rest c known (omega arith)
      ∙ rw (le→ltb maximum_payload_bytes (length p) fits, restored) refl

  server_within :
      (command : ℕ) (p rest : Bytes) (c : ServerInboundCommand) (f : Frame)
      → server_try_from command ≡ some c
      → server_read X c p ≡ ok f
      → length p ≤ maximum_payload_bytes
      → server_decode X (wire X command p ++ rest) ≡ (ok (some f), rest)
  unfolding server_decode
  server_within command p rest c f known restored fits =
      decode-within server_try_from (server_read X) command p rest c f known restored fits

  client_within :
      (command : ℕ) (p rest : Bytes) (c : ClientInboundCommand) (f : ClientFrame)
      → client_try_from command ≡ some c
      → client_read X c p ≡ ok f
      → length p ≤ maximum_payload_bytes
      → client_decode X (wire X command p ++ rest) ≡ (ok (some f), rest)
  unfolding client_decode
  client_within command p rest c f known restored fits =
      decode-within client_try_from (client_read X) command p rest c f known restored fits

  -- The bytes of a frame with a given payload.
  abbrev pub wire_of : Frame → Bytes → Bytes
  unfolding command_code
  wire_of (connect_frame _) p = wire X 1 p
  wire_of (publish_frame _) p = wire X 2 p
  wire_of (subscribe_frame _) p = wire X 3 p
  wire_of (unsubscribe_frame _) p = wire X 4 p

  -- Sending a frame whose payload has a length in 32 bits appends its bytes to the output.
  pub client_send-wire :
      (f : Frame) (p output : Bytes)
      → Carries p f
      → length p < 2 ^ 32
      → client_send f output ≡ (ok tt, output ++ wire_of f p)
  unfolding client_encode connect_codec publish_codec subscribe_codec unsubscribe_codec
  client_send-wire (connect_frame m) p output h fits =
      encode-wire client_codec (connect_codec X) m p output h.0 fits
  client_send-wire (publish_frame m) p output h fits =
      encode-wire client_codec (publish_codec X) m p output h.0 fits
  client_send-wire (subscribe_frame m) p output h fits =
      encode-wire client_codec (subscribe_codec X) m p output h.0 fits
  client_send-wire (unsubscribe_frame m) p output h fits =
      encode-wire client_codec (unsubscribe_codec X) m p output h.0 fits

  pub server_decode-wire :
      (f : Frame) (p rest : Bytes)
      → Carries p f
      → length p ≤ maximum_payload_bytes
      → server_decode X (wire_of f p ++ rest) ≡ (ok (some f), rest)
  unfolding server_read server_try_from connect_codec publish_codec subscribe_codec
      unsubscribe_codec
  server_decode-wire (connect_frame m) p rest h fits =
      server_within 1 p rest inbound_connect (connect_frame m) refl (rw h.1 refl) fits
  server_decode-wire (publish_frame m) p rest h fits =
      server_within 2 p rest inbound_publish (publish_frame m) refl (rw h.1 refl) fits
  server_decode-wire (subscribe_frame m) p rest h fits =
      server_within 3 p rest inbound_subscribe (subscribe_frame m) refl (rw h.1 refl) fits
  server_decode-wire (unsubscribe_frame m) p rest h fits =
      server_within 4 p rest inbound_unsubscribe (unsubscribe_frame m) refl (rw h.1 refl) fits

  -- A frame that a client sends with a payload of at most 1 MiB is what the server decodes, and
  -- what follows it stays in the buffer.
  pub server_decode-client_send :
      (f : Frame) (p output rest : Bytes)
      → Carries p f
      → length p ≤ maximum_payload_bytes
      → (w : Bytes) × (client_send f output ≡ (ok tt, output ++ w))
        × (server_decode X (w ++ rest) ≡ (ok (some f), rest))
  server_decode-client_send f p output rest h fits =
      (wire_of f p, client_send-wire f p output h (omega arith), server_decode-wire f p rest h fits)

  -- A frame that the server sends with a payload of at most 1 MiB is what the client decodes, and
  -- what follows it stays in the buffer.
  pub client_decode-server_send :
      (f : ClientFrame) (p output rest : Bytes)
      → ServerCarries p f
      → length p ≤ maximum_payload_bytes
      → (w : Bytes) × (server_send f output ≡ (ok tt, output ++ w))
        × (client_decode X (w ++ rest) ≡ (ok (some f), rest))
  unfolding server_encode client_read client_try_from info_codec message_codec
  client_decode-server_send (info_frame m) p output rest h fits = (
    wire X 0 p,
    encode-wire server_codec (info_codec X) m p output h.0 (omega arith),
    client_within 0 p rest inbound_info (info_frame m) refl (rw h.1 refl) fits,
  )
  client_decode-server_send (message_frame m) p output rest h fits = (
    wire X 5 p,
    encode-wire server_codec (message_codec X) m p output h.0 (omega arith),
    client_within 5 p rest inbound_message (message_frame m) refl (rw h.1 refl) fits,
  )
