-- ===== src/Parser/Framed.antt =====
-- The `FramedRead` and `FramedWrite` of tokio-util over `ServerCodec` of crates/server/src/parser.rs,
-- as parameters.
use ocypode.Prelude.{◌≡◌, ◌⊎◌, Option, none, some, [], ◌++◌, Bytes, Result, ok}
use ocypode.Message.{Info}
use ocypode.Parser.{Crates, ServerCodecError, Frame}
use ocypode.Parser.Code.{info_codec}
use ocypode.Parser.Framing.{server_decode, server_encode}

-- What is used of it where all input has arrived: the next item is the frame that the codec decodes
-- from the buffer, and nothing follows an empty buffer.
pub record FramedRead (X : Crates) : Type 1 where
  pub State : Type 0
  pub from_bytes : Bytes → State
  pub buffered : State → Bytes
  pub next : State → Option (Result (ServerCodecError X) Frame × State)
  pub buffered-from_bytes : (b : Bytes) → buffered (from_bytes b) ≡ b
  pub next-frame :
      (s : State) (f : Frame) (rest : Bytes)
      → server_decode X (buffered s) ≡ (ok (some f), rest)
      → (t : State) × (next s ≡ some (ok f, t)) × (buffered t ≡ rest)
  pub next-end : (s : State) → buffered s ≡ [] → next s ≡ none

-- `FramedWrite` of tokio-util over `ServerCodec`, on a stream that takes all that is written: what was
-- written, and what is in the buffer. Feeding adds what the codec encodes, which is nothing where it
-- fails, and may write some of the buffer; flushing writes all of it.
pub record FramedWrite (X : Crates) (E State : Type 0) : Type 0 where
  pub written : State → Bytes
  pub buffered : State → Bytes
  pub feed : Info → State → (Unit {0} ⊎ E) × State
  pub flush : State → (Unit {0} ⊎ E) × State
  pub output-feed :
      (i : Info) (s : State)
      → written (feed i s).1 ++ buffered (feed i s).1
        ≡ (written s ++ buffered s) ++ (server_encode X (info_codec X) i []).1
  pub written-flush : (s : State) → written (flush s).1 ≡ written s ++ buffered s
  pub buffered-flush : (s : State) → buffered (flush s).1 ≡ []
