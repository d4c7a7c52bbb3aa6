-- ===== src/Client/Channel.antt =====
-- The outbound channel of crates/server/src/client.rs, with the writer task at its end: each step is
-- one of the sender or one of `run_outbound_writer`. The mpsc channel of tokio is a parameter with
-- the laws of a bounded queue; the sink is that of Client/Writer.
pub mod Fed
pub mod Order
pub mod Ends
mod Examples
use ocypode.Prelude.{
  ℕ, zero, suc, ◌≤◌, ◌<◌, ◌≡◌, ◌⊎◌, Bool, true, false, Option, none, some, List, [], ◌∷◌, ◌++◌,
  length,
}
use ocypode.Message.{Info}
use ocypode.Parser.{OutboundMessage}
use ocypode.Client.Writer.{dispatch_outbound}

-- `channel` gives nothing where tokio panics, for a capacity of 0; `try_send` gives nothing where
-- `send` waits; `receive` gives nothing on an empty queue.
pub record Mpsc : Type 1 where
  pub Queue : Type 0
  pub channel : ℕ → Option Queue
  pub try_send : OutboundMessage → Queue → Option Queue
  pub receive : Queue → Option (OutboundMessage × Queue)
  pub queued : Queue → List OutboundMessage
  pub capacity : Queue → ℕ
  pub queued-channel : (n : ℕ) (q : Queue) → channel n ≡ some q → (queued q ≡ []) × (capacity q ≡ n)
  pub queued-send :
      (m : OutboundMessage) (q q' : Queue)
      → try_send m q ≡ some q'
      → (queued q' ≡ queued q ++ (m ∷ []))
        × (length (queued q) < capacity q)
        × (capacity q' ≡ capacity q)
  pub receive-none : (q : Queue) → receive q ≡ none → queued q ≡ []
  pub receive-some :
      (q q' : Queue) (m : OutboundMessage)
      → receive q ≡ some (m, q')
      → (queued q ≡ m ∷ queued q') × (capacity q' ≡ capacity q)

-- Where the writer stands: at `recv`, at `try_recv`, or behind its loop.
pub data WriterState : Type 0 where
  at_recv : WriterState
  at_try_recv : WriterState
  finished : WriterState

-- `senders` says whether a sender is left.
pub record Outbound (M : Mpsc) (W : Type 0) : Type 0 where
  pub queue : M.Queue
  pub senders : Bool
  pub writer : WriterState
  pub sink : W

-- The channel that `Client::new` makes, and the writer at its start.
abbrev pub opened : {M : Mpsc} {W : Type 0} → M.Queue → W → Outbound M W
opened q w = record { queue = q; senders = true; writer = at_recv; sink = w }

module _ {M : Mpsc} {W E : Type 0} (feed : Info → W → (Unit {0} ⊎ E) × W)
    (flush : W → (Unit {0} ⊎ E) × W) where
  -- A step of the sender, with the message if it sends one, or of the writer.
  pub data Turn (s : Outbound M W) : List OutboundMessage → Outbound M W → Type 0 where
    send :
        (m : OutboundMessage) (q : M.Queue)
        → s.senders ≡ true
        → M.try_send m s.queue ≡ some q
        → Turn s (m ∷ []) (record s { queue = q })
    drop_senders : s.senders ≡ true → Turn s [] (record s { senders = false })
    recv :
        (m : OutboundMessage) (q : M.Queue)
        → s.writer ≡ at_recv
        → M.receive s.queue ≡ some (m, q)
        → Turn s [] (record s {
          queue = q;
          writer = at_try_recv;
          sink = (dispatch_outbound feed flush m s.sink).1;
        })
    recv_end :
        s.writer ≡ at_recv
        → M.receive s.queue ≡ none
        → s.senders ≡ false
        → Turn s [] (record s { writer = finished })
    try_recv :
        (m : OutboundMessage) (q : M.Queue)
        → s.writer ≡ at_try_recv
        → M.receive s.queue ≡ some (m, q)
        → Turn s [] (record s { queue = q; sink = (dispatch_outbound feed flush m s.sink).1 })
    try_recv_empty :
        s.writer ≡ at_try_recv
        → M.receive s.queue ≡ none
        → Turn s [] (record s { writer = at_recv; sink = (flush s.sink).1 })

  -- What so many turns lead to, and the messages that were sent in them, in order.
  pub data Turns (s : Outbound M W) : List OutboundMessage → Outbound M W → Type 0 where
    here : Turns s [] s
    then_turn :
        {sent more : List OutboundMessage} {t u : Outbound M W}
        → Turns s sent t
        → Turn t more u
        → Turns s (sent ++ more) u
