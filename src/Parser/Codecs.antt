-- ===== src/Parser/Codecs.antt =====
-- `ServerCodec::decode` and `ClientCodec::decode` of crates/server/src/parser.rs, and the commands
-- that each accepts.
use ocypode.Prelude.{
  ℕ, ◌+◌, ◌<◌, ◌≡◌, refl, ap, subst, ◌∙◌, ◌↔◌, Option, none, some, [], ◌∷◌, ◌++◌, arith, Bytes,
  length, Result, ok, err, panic, ◌>>=◌,
}
use ocypode.Parser.{
  header_length, maximum_payload_bytes, Crates, ServerCodecError, ClientCodecError, Frame,
  ClientFrame, ServerInboundCommand, ClientInboundCommand, server_try_from, client_try_from,
  Command, command_code, inbound_connect, inbound_publish, inbound_subscribe, inbound_unsubscribe,
  inbound_info, inbound_message, connect_command, publish_command, subscribe_command,
  unsubscribe_command, info_command, message_command,
}
use ocypode.Parser.Framing.{server_decode, client_decode, server_read, client_read}
use ocypode.Parser.Chunks.{resume, decode-append}
use ocypode.Parser.Outcome.{
  Decodes, short, unknown, oversize, partial, whole, decode-Decodes, Decodes-decode,
}

-- The command that an inbound command stands for.
abbrev pub server_command : ServerInboundCommand → Command
server_command inbound_connect = connect_command
server_command inbound_publish = publish_command
server_command inbound_subscribe = subscribe_command
server_command inbound_unsubscribe = unsubscribe_command

abbrev pub client_command : ClientInboundCommand → Command
client_command inbound_info = info_command
client_command inbound_message = message_command

server_accepts :
    (v : ℕ) (c : ServerInboundCommand)
    → server_try_from v ≡ some c
    → v ≡ command_code (server_command c)
unfolding server_try_from command_code
server_accepts v c h = ground arith

client_accepts :
    (v : ℕ) (c : ClientInboundCommand)
    → client_try_from v ≡ some c
    → v ≡ command_code (client_command c)
unfolding client_try_from command_code
client_accepts v c h = ground arith

server_code :
    (c : ServerInboundCommand) → server_try_from (command_code (server_command c)) ≡ some c
unfolding server_try_from command_code
server_code inbound_connect = refl
server_code inbound_publish = refl
server_code inbound_subscribe = refl
server_code inbound_unsubscribe = refl

client_code :
    (c : ClientInboundCommand) → client_try_from (command_code (client_command c)) ≡ some c
unfolding client_try_from command_code
client_code inbound_info = refl
client_code inbound_message = refl

-- A byte is an inbound command of the server or of the client exactly if it is the code of the
-- command of that name.
pub try_from_iff :
    ((v : ℕ) (c : ServerInboundCommand)
      → (server_try_from v ≡ some c) ↔ (v ≡ command_code (server_command c)))
    × ((v : ℕ) (c : ClientInboundCommand)
        → (client_try_from v ≡ some c) ↔ (v ≡ command_code (client_command c)))
try_from_iff = (
  λ v c. (server_accepts v c, λ e. ap server_try_from e ∙ server_code c),
  λ v c. (client_accepts v c, λ e. ap client_try_from e ∙ client_code c),
)

module _ (X : Crates) where
  -- The server's decoder gives a result and a buffer exactly if the frame format gives them: it
  -- waits for the rest of a header or of a payload, it drops one byte at an unknown command or at a
  -- length above 1 MiB and goes on, and it reads the payload of a frame.
  pub server_decode_iff :
      (xs : Bytes) (o : Result (ServerCodecError X) (Option Frame) × Bytes)
      → (server_decode X xs ≡ o) ↔ Decodes server_try_from (server_read X) xs o
  unfolding server_decode
  server_decode_iff xs o = (
    λ e.
        subst (Decodes server_try_from (server_read X) xs) e
          (decode-Decodes X server_try_from (server_read X) xs),
    Decodes-decode X server_try_from (server_read X) xs o,
  )

  -- The client's decoder gives a result and a buffer exactly if the frame format with its own two
  -- commands gives them: it waits for the rest of a header or of a payload, it drops one byte at an
  -- unknown command or at a length above 1 MiB and goes on, and it reads the payload of a frame.
  pub client_decode_iff :
      (xs : Bytes) (o : Result (ClientCodecError X) (Option ClientFrame) × Bytes)
      → (client_decode X xs ≡ o) ↔ Decodes client_try_from (client_read X) xs o
  unfolding client_decode
  client_decode_iff xs o = (
    λ e.
        subst (Decodes client_try_from (client_read X) xs) e
          (decode-Decodes X client_try_from (client_read X) xs),
    Decodes-decode X client_try_from (client_read X) xs o,
  )

  -- Both decoders do not depend on how the input is cut: on a buffer with more bytes at its end
  -- they give what the buffer alone gives, with the new bytes behind what is left, or, where the
  -- buffer alone gives no frame yet, what the buffer that is left gives with the new bytes.
  pub decode_split :
      ((xs more : Bytes)
        → server_decode X (xs ++ more)
          ≡ resume X server_try_from (server_read X) (server_decode X xs) more)
      × ((xs more : Bytes)
          → client_decode X (xs ++ more)
            ≡ resume X client_try_from (client_read X) (client_decode X xs) more)
  unfolding server_decode client_decode
  decode_split = (
    decode-append X server_try_from (server_read X),
    decode-append X client_try_from (client_read X),
  )

module _ {C F E : Type 0} (try_from : ℕ → Option C) (read : C → Bytes → Result E F) where
  -- Where there is no frame, what is left is a suffix of the buffer, shorter than the longest frame.
  left_short :
      (xs : Bytes) (o : Result E (Option F) × Bytes)
      → Decodes try_from read xs o
      → o.0 ≡ ok none
      → (length o.1 < header_length + maximum_payload_bytes)
        × (dropped : Bytes) × (xs ≡ dropped ++ o.1)
  left_short xs o (short _ h) e = (omega arith, [], refl)
  left_short xs o (unknown v rest _ long new later) e =
      let (small, dropped, p) = left_short rest o later e in (small, v ∷ dropped, ap (λ l. v ∷ l) p)
  left_short xs o (oversize v a b c d rest k _ known large later) e =
      let (small, dropped, p) = left_short (a ∷ b ∷ c ∷ d ∷ rest) o later e in
      (small, v ∷ dropped, ap (λ l. v ∷ l) p)
  left_short xs o (partial v a b c d rest k known fits waits) e = (omega arith, [], refl)
  left_short xs o (whole v a b c d payload rest k known fits same) e =
      absurd (read_some (read k payload) e)
    where
      read_some : (r : Result E F) → ¬ ((r >>= λ f. ok (some f)) ≡ ok none)
      read_some (ok f) e = cc
      read_some (err x) e = cc
      read_some panic e = cc

-- When the server's decoder asks for more input, it has only dropped bytes at the front of the
-- buffer, and what it keeps is shorter than a header and 1 MiB.
pub server_decode_bounded :
    (X : Crates) (xs rest : Bytes)
    → server_decode X xs ≡ (ok none, rest)
    → (length rest < header_length + maximum_payload_bytes)
      × (dropped : Bytes) × (xs ≡ dropped ++ rest)
server_decode_bounded X xs rest e =
    left_short server_try_from (server_read X) xs (ok none, rest)
      ((server_decode_iff X xs (ok none, rest)).0 e) refl
