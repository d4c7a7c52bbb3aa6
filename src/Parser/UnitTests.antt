-- ===== src/Parser/UnitTests.antt =====
-- The unit tests at the end of crates/server/src/parser.rs, for any crates below the codecs: `some
-- true` is a test that passes, and `none` one that panics.
mod FromServer
mod FromClient
mod InSequence
mod Passes
use ocypode.Prelude.{
  ℕ, Bool, true, false, ◌==◌, ◌&&◌, leb, Option, none, some, List, [], ◌∷◌, ◌++◌, Bytes, codes,
  length, take, drop, ◌-◌, Result, ok, err, panic, unwrapped,
}
use ocypode.Message.{
  Info, Connect, Publish, Subscribe, UnSubscribe, Message, no_auth, auth_method_code,
}
use ocypode.Parser.{
  header_length, command_byte_len, Command, command_code, Crates, ProstMessage, ServerCodecError,
  Frame, connect_frame, publish_frame, subscribe_frame, unsubscribe_frame, ClientFrame, info_frame,
  message_frame,
}
use ocypode.Parser.Code.{connect_codec}
use ocypode.Parser.Framing.{client_encode}
use ocypode.Parser.Framed.{FramedRead}

infixl 5 ◌>>=◌
abbrev pub ◌>>=◌ : {A B : Type 0} → Option A → (A → Option B) → Option B
none >>= f = none
some a >>= f = f a

-- `encode(…, &mut output_buffer).unwrap()`: the buffer after it.
abbrev pub written : {E : Type 0} → Result E (Unit {0}) × Bytes → Option Bytes
written (ok _, output) = some output
written _ = none

-- `decode(&mut incoming_bytes).unwrap().unwrap()`: the frame, and the buffer after it.
abbrev pub decoded : {E F : Type 0} → Result E (Option F) × Bytes → Option (F × Bytes)
decoded (ok (some f), incoming) = some (f, incoming)
decoded _ = none

abbrev pub is_empty : Bytes → Bool
is_empty [] = true
is_empty (_ ∷ _) = false

abbrev pub first_is : ℕ → Bytes → Bool
first_is c [] = false
first_is c (b ∷ _) = b == c

-- The patterns of the tests.
abbrev pub as_info : ClientFrame × Bytes → Option (Info × Bytes)
as_info (info_frame m, incoming) = some (m, incoming)
as_info (message_frame _, incoming) = none

abbrev pub as_message : ClientFrame × Bytes → Option (Message × Bytes)
as_message (message_frame m, incoming) = some (m, incoming)
as_message (info_frame _, incoming) = none

abbrev pub as_publish : Frame × Bytes → Option (Publish × Bytes)
as_publish (publish_frame m, incoming) = some (m, incoming)
as_publish _ = none

abbrev pub as_subscribe : Frame × Bytes → Option (Subscribe × Bytes)
as_subscribe (subscribe_frame m, incoming) = some (m, incoming)
as_subscribe _ = none

abbrev pub as_unsubscribe : Frame × Bytes → Option (UnSubscribe × Bytes)
as_unsubscribe (unsubscribe_frame m, incoming) = some (m, incoming)
as_unsubscribe _ = none

abbrev pub is_connect : Frame → Bool
is_connect (connect_frame _) = true
is_connect _ = false

-- The message that most tests of CONNECT send.
unfoldable pub plain_connect : Bool → Connect
unfolding auth_method_code
plain_connect verbose = record {
  version = 1;
  verbose = verbose;
  auth_method = auth_method_code no_auth;
  credentials = none;
}

module _ (X : Crates) where
  -- The assertions on the header of a frame: its command, and the length of what follows it.
  unfoldable pub has_header : Command → Bytes → Bool
  unfolding command_code
  has_header c output =
      leb header_length (length output)
      && first_is (command_code c) output
      && (X.get_u32 (take (header_length - command_byte_len) (drop command_byte_len output))
          == length (drop header_length output))

  -- An invalid command byte, and a frame behind it.
  unfoldable pub with_bad_prefix : Command → Bytes → Bytes
  unfolding command_code
  with_bad_prefix c payload = 255 ∷ command_code c ∷ (X.put_u32 (length payload) ++ payload)

  unfoldable pub build_connect_frame : Option Bytes
  unfolding client_encode connect_codec plain_connect
  build_connect_frame = written (client_encode X (connect_codec X) (plain_connect false) [])

  module _ (R : FramedRead X) where
    abbrev unwrapped_item :
        Option (Result (ServerCodecError X) Frame × R.State) → Option (Frame × R.State)
    unwrapped_item (some (ok f, s)) = some (f, s)
    unwrapped_item _ = none

    -- `framed.next().await.unwrap().unwrap()`, and `framed.next().await.is_none()`
    abbrev pub next_frame : R.State → Option (Frame × R.State)
    next_frame s = unwrapped_item (R.next s)

    abbrev at_none : Option (Result (ServerCodecError X) Frame × R.State) → Bool
    at_none none = true
    at_none (some _) = false

    abbrev pub is_at_end : R.State → Bool
    is_at_end s = at_none (R.next s)
