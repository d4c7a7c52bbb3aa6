-- ===== src/Parser/Framing.antt =====
-- crates/server/src/parser.rs: `parse_header`, `ServerCodec` and `ClientCodec`.
use ocypode.Prelude.{
  ℕ, ◌+◌, ◌-◌, ◌^◌, Option, none, some, [], ◌∷◌, ◌++◌, ltb, if◌then◌else◌, Bytes, length, take,
  drop, Result, ok, err, panic, ◌>>=◌,
}
use ocypode.Parser.{
  header_length, maximum_payload_bytes, Crates, CodecError, invalid_size_bytes, ServerCodecError,
  server_codec, ClientCodecError, client_codec, Frame, connect_frame, publish_frame,
  subscribe_frame, unsubscribe_frame, ClientFrame, info_frame, message_frame, ServerInboundCommand,
  inbound_connect, inbound_publish, inbound_subscribe, inbound_unsubscribe, ClientInboundCommand,
  inbound_info, inbound_message, server_try_from, client_try_from, map_err,
}
use ocypode.Parser.Code.{
  CommandCodec, encode_payload, decode_payload, info_codec, connect_codec, publish_codec,
  subscribe_codec, unsubscribe_codec, message_codec,
}

module _ (X : Crates) where
  -- The first byte is the command, and the next four are the length.
  unfoldable pub parse_header : Bytes → Option (ℕ × ℕ)
  parse_header [] = none
  parse_header (b ∷ bs) =
      if ltb (length (b ∷ bs)) header_length
      then none
      else some (b, X.get_u32 (take (header_length - 1) bs))

-- The two decoders differ in the commands that they accept and in how they read a payload.
-- `decode` gives its result and the buffer after it.
module _ {C F E : Type 0} (X : Crates) (try_from : ℕ → Option C)
    (read : C → Bytes → Result E F) where
  abbrev pub take_frame : C → ℕ → Bytes → Result E (Option F) × Bytes
  take_frame c n incoming = (
    read c (take n (drop header_length incoming)) >>= λ f. ok (some f),
    drop n (drop header_length incoming),
  )

  abbrev pub with_command :
      Bytes → Result E (Option F) × Bytes → ℕ → Option C → Result E (Option F) × Bytes
  with_command incoming resync n none = resync
  with_command incoming resync n (some c) =
      if ltb maximum_payload_bytes n
      then resync
      else if ltb (length incoming) (header_length + n)
      then (ok none, incoming)
      else take_frame c n incoming

  abbrev pub with_header :
      Bytes → Result E (Option F) × Bytes → Option (ℕ × ℕ) → Result E (Option F) × Bytes
  with_header incoming resync none = (ok none, incoming)
  with_header incoming resync (some (command, n)) =
      with_command incoming resync n (try_from command)

  -- The loop: `continue` follows the drop of one byte.
  unfoldable pub decode : Bytes → Result E (Option F) × Bytes
  unfolding parse_header
  decode [] = (ok none, [])
  decode (b ∷ bs) = let resync = decode bs in with_header (b ∷ bs) resync (parse_header X (b ∷ bs))

module _ (X : Crates) where
  unfoldable pub server_read : ServerInboundCommand → Bytes → Result (ServerCodecError X) Frame
  unfolding connect_codec publish_codec subscribe_codec unsubscribe_codec
  server_read inbound_connect p =
      map_err server_codec (decode_payload (connect_codec X) p) >>= λ m. ok (connect_frame m)
  server_read inbound_publish p =
      map_err server_codec (decode_payload (publish_codec X) p) >>= λ m. ok (publish_frame m)
  server_read inbound_subscribe p =
      map_err server_codec (decode_payload (subscribe_codec X) p) >>= λ m. ok (subscribe_frame m)
  server_read inbound_unsubscribe p =
      map_err server_codec (decode_payload (unsubscribe_codec X) p) >>= λ m.
      ok (unsubscribe_frame m)

  unfoldable pub client_read :
      ClientInboundCommand → Bytes → Result (ClientCodecError X) ClientFrame
  unfolding info_codec message_codec
  client_read inbound_info p =
      map_err client_codec (decode_payload (info_codec X) p) >>= λ m. ok (info_frame m)
  client_read inbound_message p =
      map_err client_codec (decode_payload (message_codec X) p) >>= λ m. ok (message_frame m)

  -- `ServerCodec::decode` and `ClientCodec::decode`
  unfoldable pub server_decode : Bytes → Result (ServerCodecError X) (Option Frame) × Bytes
  unfolding decode server_read server_try_from
  server_decode = decode X server_try_from server_read

  unfoldable pub client_decode : Bytes → Result (ClientCodecError X) (Option ClientFrame) × Bytes
  unfolding decode client_read client_try_from
  client_decode = decode X client_try_from client_read

module _ {E : Type 0} (X : Crates) (wrap : CodecError X → E) where
  -- The bytes that are put into the buffer for a payload.
  abbrev pub framed : ℕ → Bytes → Result (CodecError X) Bytes
  framed command payload =
      if ltb (length payload) (2 ^ 32)
      then ok (command ∷ X.put_u32 (length payload) ++ payload)
      else err (invalid_size_bytes (length payload))

  abbrev pub put : Bytes → Result (CodecError X) Bytes → Result E (Unit {0}) × Bytes
  put output (ok bytes) = (ok tt, output ++ bytes)
  put output (err e) = (err (wrap e), output)
  put output panic = (panic, output)

-- The body of `encode`, the same in both codecs but for the type of the error.
module _ {E M : Type 0} (X : Crates) (wrap : CodecError X → E) where
  unfoldable pub encode : CommandCodec X M → M → Bytes → Result E (Unit {0}) × Bytes
  encode k item output = put X wrap output (encode_payload k item >>= framed X wrap k.command)

module _ (X : Crates) {M : Type 0} where
  unfoldable pub server_encode :
      CommandCodec X M → M → Bytes → Result (ServerCodecError X) (Unit {0}) × Bytes
  unfolding encode
  server_encode = encode X server_codec

  unfoldable pub client_encode :
      CommandCodec X M → M → Bytes → Result (ClientCodecError X) (Unit {0}) × Bytes
  unfolding encode
  client_encode = encode X client_codec
