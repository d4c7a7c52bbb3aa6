-- ===== src/Client/Conversation/Fixtures.antt =====
-- A stream as a list of bytes, and the tasks of a connection in crates/server/src/client.rs in one
-- order, for the examples.
use ocypode.Prelude.{ℕ, refl, sym, inl, false, [], ◌∷◌, ◌++◌, append_assoc, Bytes}
use ocypode.Message.{Info}
use ocypode.Parser.{Crates, OutboundMessage, outbound_info}
use ocypode.Parser.Code.{info_codec}
use ocypode.Parser.Framing.{server_encode}
use ocypode.Parser.Framed.{FramedWrite}
use ocypode.Client.Channel.{
  Outbound, opened, finished, Turns, here, then_turn, send, drop_senders, recv, recv_end,
  try_recv_empty,
}
use ocypode.Client.Fixtures.{Bounded, mpsc}
use ocypode.Client.Start.{Wiring}
use ocypode.Client.Writer.{dispatch_outbound}

-- The bytes that were written, and those in the buffer.
abbrev pub Written : Type 0
Written = Bytes × Bytes

abbrev pub wiring : Wiring
wiring = record {
  Transport = Bytes × Written;
  Reader = Bytes;
  Writer = Written;
  FramedRead = Bytes × ℕ;
  FramedWrite = Written;
  into_split = λ t. t;
  framed_read = λ r n. (r, n);
  framed_write = λ w n. w;
}

module _ (X : Crates) where
  abbrev pub frame_of : Info → Bytes
  frame_of i = (server_encode X (info_codec X) i []).1

  abbrev pub framed_write : FramedWrite X (Unit {0}) Written
  framed_write = record {
    written = λ s. s.0;
    buffered = λ s. s.1;
    feed = λ i s. (inl tt, (s.0, s.1 ++ frame_of i));
    flush = λ s. (inl tt, (s.0 ++ s.1, []));
    output-feed = λ i s. sym (append_assoc s.0 s.1 (frame_of i));
    written-flush = λ s. refl;
    buffered-flush = λ s. refl;
  }

abbrev pub queue : Bounded
queue = record { limit = 1024; held = [] }

abbrev pub message : Info → OutboundMessage
message info = outbound_info info

module _ (X : Crates) (info : Info) where
  abbrev pub last : Outbound mpsc Written
  last = record { queue = queue; senders = false; writer = finished; sink = (frame_of X info, []) }

  pub written_out :
      Turns {M = mpsc}
        (framed_write X).feed
        (framed_write X).flush
        (opened queue ([], []))
        (message info ∷ [])
        last
  unfolding dispatch_outbound
  written_out =
      then_turn
        (then_turn
          (then_turn
            (then_turn
              (then_turn here
                (send (message info) (record queue { held = message info ∷ [] }) refl refl))
              (drop_senders refl))
            (recv (message info) queue refl refl))
          (try_recv_empty refl refl))
        (recv_end refl refl refl)
