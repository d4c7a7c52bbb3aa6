-- ===== src/Client/Fixtures.antt =====
-- Concrete parameters for the examples of crates/server/src/client.rs: the channel as a
-- list, and a sink that keeps what it is fed.
use ocypode.Prelude.{
  Bytes, ℕ, ◌<◌, ◌≡◌, Option, none, some, List, [], ◌∷◌, ◌++◌, codes, ◌⊎◌, inl, arith, length, ltb,
  ◌==◌, if◌then◌else◌,
}
use ocypode.Identity.{ClientId}
use ocypode.Message.{Info}
use ocypode.Config.{ServerConfig, new_config}
use ocypode.Parser.{OutboundMessage, outbound_message}
use ocypode.Client.Channel.{Mpsc}
use ocypode.Client.Start.{Wiring}

-- The log level is a number here.
abbrev pub config : ServerConfig ℕ
unfolding new_config
config = new_config 3

abbrev pub client_id : ClientId
client_id = record { value = 5 }

-- A queue with its capacity.
pub record Bounded : Type 0 where
  pub limit : ℕ
  pub held : List OutboundMessage

abbrev pub bounded_send : OutboundMessage → Bounded → Option Bounded
bounded_send m q =
    if ltb (length q.held) q.limit then some (record q { held = q.held ++ (m ∷ []) }) else none

abbrev pub bounded_receive : Bounded → Option (OutboundMessage × Bounded)
bounded_receive q = first q.held
  where
    first : List OutboundMessage → Option (OutboundMessage × Bounded)
    first [] = none
    first (m ∷ ms) = some (m, record q { held = ms })

abbrev pub bounded_channel : ℕ → Option Bounded
bounded_channel n = if n == 0 then none else some (record { limit = n; held = [] })

pub channel_lem : (n : ℕ) (q : Bounded) → bounded_channel n ≡ some q → (q.held ≡ []) × (q.limit ≡ n)
channel_lem n q e = ground arith

pub send_lem :
    (m : OutboundMessage) (q q' : Bounded)
    → bounded_send m q ≡ some q'
    → (q'.held ≡ q.held ++ (m ∷ [])) × (length q.held < q.limit) × (q'.limit ≡ q.limit)
send_lem m q q' e = ground arith

pub receive_none_lem : (q : Bounded) → bounded_receive q ≡ none → q.held ≡ []
receive_none_lem q e = ground arith

pub receive_some_lem :
    (q q' : Bounded) (m : OutboundMessage)
    → bounded_receive q ≡ some (m, q')
    → (q.held ≡ m ∷ q'.held) × (q'.limit ≡ q.limit)
receive_some_lem q q' m e = ground arith

abbrev pub mpsc : Mpsc
mpsc = record {
  Queue = Bounded;
  channel = bounded_channel;
  try_send = bounded_send;
  receive = bounded_receive;
  queued = λ q. q.held;
  capacity = λ q. q.limit;
  queued-channel = channel_lem;
  queued-send = send_lem;
  receive-none = receive_none_lem;
  receive-some = receive_some_lem;
}

-- The sink as the list of what is fed, the newest first, and of marks for the flushes.
abbrev pub keep : Info → List (Option Info) → (Unit {0} ⊎ Unit {0}) × List (Option Info)
keep i w = (inl tt, some i ∷ w)

abbrev pub mark : List (Option Info) → (Unit {0} ⊎ Unit {0}) × List (Option Info)
mark w = (inl tt, none ∷ w)

abbrev pub delivery : OutboundMessage
delivery =
    outbound_message (record { topic = codes "a"; subscription_id = 1; payload = []; header = [] })

-- A transport of two ends.
abbrev pub wiring : Wiring
wiring = record {
  Transport = Bytes × Bytes;
  Reader = Bytes;
  Writer = Bytes;
  FramedRead = Bytes × ℕ;
  FramedWrite = Bytes × ℕ;
  into_split = λ t. t;
  framed_read = λ r n. (r, n);
  framed_write = λ w n. (w, n);
}
