-- ===== src/Protocol/Examples.antt =====
-- The integration tests of crates/server/tests/protocol.rs with small stand-ins for the crates.
use ocypode.Prelude.{
  panic, ℕ, Bool, ◌≡◌, refl, true, some, List, [], ◌∷◌, map, arith, Bytes, bytes_eq, Result, ok,
  err,
}
use ocypode.Identity.{counter_after}
use ocypode.Message.{Info}
use ocypode.Config.{ServerConfig, new_config}
use ocypode.Parser.{Crates}
use ocypode.Parser.Code.{client_connect, info_codec}
use ocypode.Parser.Fixtures.{single, nothing, crates_of}
use ocypode.Parser.Framing.{server_encode}
use ocypode.Parser.Exchange.{Restores}
use ocypode.Parser.Reader
use ocypode.Client.{no_auth_authenticator, handshake_failed, connection_closed, ClientError}
use ocypode.Client.Conversation.{greeting}
use ocypode.Client.Conversation.Fixtures.{
  wiring, frame_of, framed_write, message, queue, last, written_out,
}
use ocypode.Client.Fixtures.{mpsc}
use ocypode.Client.Start.{handle_bidirectional_stream}
use ocypode.Quic.Fixtures.{quic}
use ocypode.Protocol.{
  Dialer, test_config, open_stream, info_then_connect_over_quic,
  connect_timeout_when_no_connect_message,
}
use ocypode.Protocol.Passes.{info_then_connect_passes}

-- `INFO` as a number.
abbrev info_level : ℕ
info_level = 3

abbrev config : ℕ → ServerConfig ℕ
config seconds = test_config info_level seconds

-- INFO of the fifth client, in both tests.
abbrev info : ℕ → Info
info seconds = greeting (config seconds) 5

abbrev crates : Crates
crates =
    crates_of (single (8 ∷ 1 ∷ []) (info 5)) (single (8 ∷ 2 ∷ []) (client_connect 1 true)) nothing
      nothing nothing nothing

abbrev pieces : List Bytes
pieces = (0 ∷ 0 ∷ []) ∷ (0 ∷ 0 ∷ 2 ∷ 8 ∷ 1 ∷ []) ∷ []

-- Every stream gives these pieces, and takes what is written.
abbrev dialer : Dialer crates Bytes
dialer = record {
  Error = Unit {0};
  Builder = Unit {0};
  Client = Unit {0};
  Connection = Unit {0};
  Stream = Unit {0};
  builder = tt;
  with_tls = λ p b. ok b;
  with_io = λ a b. ok b;
  start_client = λ b. ok b;
  connect = λ a n c. ok c;
  keep_alive = λ on c. ok c;
  open_bidirectional_stream = λ c. ok c;
  reads = λ s. map Reader.received pieces;
  write_all = λ s n b. ok tt;
  close = λ s. ok tt;
}

abbrev parse : Bytes → Result (Unit {0}) Bytes
parse b = ok b

abbrev try_exists : Bytes → Result (Unit {0}) Bool
try_exists p = ok true

made : (seconds : ℕ) → mpsc.channel (config seconds).quic.outbound_channel_capacity ≡ some queue
unfolding test_config new_config
made seconds = refl

-- The client closes before CONNECT has come.
abbrev result : Result (ClientError crates) (Unit {0})
result = err (handshake_failed connection_closed)

handled :
    handle_bidirectional_stream wiring mpsc
      ([], ([], []))
      (config 5)
      no_auth_authenticator
      (counter_after 4)
      true
      true
      []
    ≡ some (message (info 5) ∷ [], result)
unfolding handle_bidirectional_stream test_config new_config counter_after
handled = refl

cut : (seconds : ℕ) → Reader.joined crates pieces ≡ frame_of crates (info seconds)
unfolding server_encode info_codec test_config new_config
cut seconds = refl

info-Restores : (seconds : ℕ) → Restores crates crates.info (info seconds) (8 ∷ 1 ∷ [])
unfolding bytes_eq test_config new_config
info-Restores seconds = (refl, refl)

connect-Restores : Restores crates crates.connect (client_connect 1 true) (8 ∷ 2 ∷ [])
unfolding bytes_eq
connect-Restores = (refl, refl)

opens : (seconds : ℕ) → open_stream crates quic dialer parse try_exists info_level seconds ≡ ok tt
unfolding open_stream
opens seconds = refl

info_then_connect_passes_example :
    info_then_connect_over_quic crates quic dialer parse try_exists info_level ≡ ok true
info_then_connect_passes_example =
    info_then_connect_passes quic dialer parse try_exists info_level wiring mpsc
      (framed_write crates) tt ([], ([], [])) no_auth_authenticator 4 true [] queue
      (message (info 5) ∷ []) result (last crates (info 5)) (8 ∷ 1 ∷ []) (8 ∷ 2 ∷ []) pieces
      (omega arith) (made 5) handled (refl, refl) (written_out crates (info 5)) refl
      (info-Restores 5) (omega arith) (tt, (tt, tt)) (cut 5) (opens 5) refl connect-Restores
      (omega arith) (λ i b. refl) refl

-- The second test passes on a stream that ends behind INFO, and fails on one with more bytes.
abbrev extra : Dialer crates Bytes
extra = record dialer {
  reads = λ s. Reader.received (0 ∷ 0 ∷ 0 ∷ 0 ∷ 2 ∷ 8 ∷ 1 ∷ []) ∷ Reader.received (9 ∷ []) ∷ [];
}

closed_passes :
    connect_timeout_when_no_connect_message crates quic dialer parse try_exists info_level ≡ ok true
unfolding connect_timeout_when_no_connect_message bytes_eq
closed_passes = refl

open_fails :
    connect_timeout_when_no_connect_message crates quic extra parse try_exists info_level ≡ panic
unfolding connect_timeout_when_no_connect_message bytes_eq
open_fails = refl
