-- ===== src/Parser/Fixtures.antt =====
-- A small stand-in for prost in the examples of crates/server/src/parser.rs and client.rs: one message
-- of each type but the last has a payload, and other payloads do not decode.
use ocypode.Prelude.{
  ℕ, ◌+◌, ◌*◌, ◌/◌, ◌%◌, refl, false, none, [], ◌∷◌, Bytes, bytes_eq, if◌then◌else◌, ok, err, ◌≡◌,
  ap, Option, some, Result,
}
use ocypode.Message.{Info, Connect, Publish, Subscribe, UnSubscribe, Message}
use ocypode.Parser.{Crates, ProstMessage, ServerCodecError, Frame}
use ocypode.Parser.Framing.{server_decode}
use ocypode.Parser.Framed.{FramedRead}
use ocypode.Parser.Code.{default_info}

abbrev pub note : Publish
note = record { topic = 97 ∷ []; payload = []; header = [] }

abbrev pub interest : Subscribe
interest = record { topic = 97 ∷ []; subscription_id = 7; queue_group = [] }

abbrev pub goodbye : UnSubscribe
goodbye = record { subscription_id = 7 }

abbrev pub hello : Connect
hello = record { version = 1; verbose = false; auth_method = 0; credentials = none }

-- One payload for one message.
abbrev pub single : {M : Type 0} → Bytes → M → ProstMessage (Unit {0}) (Unit {0}) M
single p m = record { encode = λ _. ok p; decode = λ q. if bytes_eq q p then ok m else err tt }

abbrev pub nothing : {M : Type 0} → ProstMessage (Unit {0}) (Unit {0}) M
nothing = record { encode = λ _. err tt; decode = λ _. err tt }

abbrev pub first_four : Bytes → ℕ
first_four (a ∷ b ∷ c ∷ d ∷ []) = ((a * 256 + b) * 256 + c) * 256 + d
first_four _ = 0

-- With given implementations for the messages.
abbrev pub Prost : Type 0 → Type 0
Prost M = ProstMessage (Unit {0}) (Unit {0}) M

abbrev pub crates_of :
    Prost Info
    → Prost Connect
    → Prost Publish
    → Prost Subscribe
    → Prost UnSubscribe
    → Prost Message
    → Crates
crates_of info connect publish subscribe unsubscribe message = record {
  EncodeError = Unit {0};
  DecodeError = Unit {0};
  IoError = Unit {0};
  get_u32 = first_four;
  put_u32 = λ n. (n / 16777216) % 256 ∷ (n / 65536) % 256 ∷ (n / 256) % 256 ∷ n % 256 ∷ [];
  get_u32_be = λ a b c d. refl;
  put_u32_be = λ n. refl;
  info = info;
  connect = connect;
  publish = publish;
  subscribe = subscribe;
  unsubscribe = unsubscribe;
  message = message;
}

abbrev pub crates_with : Prost Publish → Crates
crates_with publish =
    crates_of (single (8 ∷ 1 ∷ []) default_info) (single (8 ∷ 1 ∷ []) hello) publish
      (single (10 ∷ 1 ∷ 97 ∷ 16 ∷ 7 ∷ []) interest) (single (8 ∷ 7 ∷ []) goodbye) nothing

abbrev pub crates : Crates
crates = crates_with (single (10 ∷ 1 ∷ 97 ∷ []) note)

-- Items straight from the codec, as long as it gives frames.
module _ (X : Crates) where
  abbrev pub next_of :
      Result (ServerCodecError X) (Option Frame) × Bytes
      → Option (Result (ServerCodecError X) Frame × Bytes)
  next_of (ok (some f), rest) = some (ok f, rest)
  next_of _ = none

  pub next_frame_lem :
      (b : Bytes) (f : Frame) (rest : Bytes)
      → server_decode X b ≡ (ok (some f), rest)
      → (t : Bytes) × (next_of (server_decode X b) ≡ some (ok f, t)) × (t ≡ rest)
  next_frame_lem b f rest e = (rest, ap next_of e, refl)

  pub next_end_lem : (b : Bytes) → b ≡ [] → next_of (server_decode X b) ≡ none
  unfolding server_decode
  next_end_lem b e = rw e refl

  abbrev pub framed_read : FramedRead X
  framed_read = record {
    State = Bytes;
    from_bytes = λ b. b;
    buffered = λ b. b;
    next = λ b. next_of (server_decode X b);
    buffered-from_bytes = λ b. refl;
    next-frame = next_frame_lem;
    next-end = next_end_lem;
  }
