-- ===== src/Client/Writer.antt =====
-- `run_outbound_writer` and `dispatch_outbound` of crates/server/src/client.rs. The sink is a
-- parameter: its state, `feed` for INFO, and `flush`; the channel gives the batches that are drained.
use ocypode.Prelude.{◌≡◌, refl, ap, ◌∙◌, List, [], ◌∷◌, ◌++◌, ◌⊎◌, inl}
use ocypode.Message.{Info}
use ocypode.Parser.{OutboundMessage, outbound_info, outbound_message}

-- One turn of the outer loop: the message that `recv` gives, and those that `try_recv` gives.
pub record Batch : Type 0 where
  pub message : OutboundMessage
  pub queued : List OutboundMessage

-- The INFO messages of a list.
abbrev pub infos : List OutboundMessage → List Info
infos [] = []
infos (outbound_info info ∷ ms) = info ∷ infos ms
infos (outbound_message _ ∷ ms) = infos ms

abbrev pub infos_of : List Batch → List (List Info)
infos_of [] = []
infos_of (b ∷ bs) = infos (b.message ∷ b.queued) ∷ infos_of bs

pub infos-append : (xs ys : List OutboundMessage) → infos (xs ++ ys) ≡ infos xs ++ infos ys
infos-append [] ys = refl
infos-append (outbound_info info ∷ xs) ys = ap (λ l. info ∷ l) (infos-append xs ys)
infos-append (outbound_message _ ∷ xs) ys = infos-append xs ys

module _ {W E : Type 0} (feed : Info → W → (Unit {0} ⊎ E) × W)
    (flush : W → (Unit {0} ⊎ E) × W) where
  unfoldable pub dispatch_outbound : OutboundMessage → W → (Unit {0} ⊎ E) × W
  dispatch_outbound (outbound_info info) w = feed info w
  dispatch_outbound (outbound_message _) w = (inl tt, w)

  unfoldable pub drain : List OutboundMessage → W → W
  unfolding dispatch_outbound
  drain [] w = w
  drain (m ∷ ms) w = drain ms (dispatch_outbound m w).1

  unfoldable pub run_outbound_writer : List Batch → W → W
  unfolding drain dispatch_outbound
  run_outbound_writer [] w = w
  run_outbound_writer (b ∷ bs) w =
      run_outbound_writer bs (flush (drain b.queued (dispatch_outbound b.message w).1)).1

  abbrev pub feed_all : List Info → W → W
  feed_all [] w = w
  feed_all (i ∷ is) w = feed_all is (feed i w).1

  -- What the writer is for: each batch is fed in order, and flushed once.
  abbrev pub flushed : List (List Info) → W → W
  flushed [] w = w
  flushed (is ∷ batches) w = flushed batches (flush (feed_all is w)).1

  drain-feed_all : (ms : List OutboundMessage) (w : W) → drain ms w ≡ feed_all (infos ms) w
  unfolding drain dispatch_outbound
  drain-feed_all [] w = refl
  drain-feed_all (outbound_info info ∷ ms) w = drain-feed_all ms (feed info w).1
  drain-feed_all (outbound_message _ ∷ ms) w = drain-feed_all ms w

  -- The writer feeds the INFO messages of all batches in their order, whether or not a feed fails,
  -- and flushes once for each batch; it never writes a message for a subscriber.
  pub run_outbound_writer-flushed :
      (bs : List Batch) (w : W) → run_outbound_writer bs w ≡ flushed (infos_of bs) w
  unfolding run_outbound_writer drain
  run_outbound_writer-flushed [] w = refl
  run_outbound_writer-flushed (b ∷ bs) w =
      run_outbound_writer-flushed bs (flush (drain (b.message ∷ b.queued) w)).1
      ∙ ap (λ v. flushed (infos_of bs) (flush v).1) (drain-feed_all (b.message ∷ b.queued) w)
