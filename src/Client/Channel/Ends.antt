-- ===== src/Client/Channel/Ends.antt =====
-- The end of the writer task, once no sender is left.
use ocypode.Prelude.{
  ℕ, zero, suc, ◌+◌, ◌*◌, ◌≤◌, ◌<◌, ◌≡◌, refl, sym, ap, ◌∙◌, ◌⊎◌, inl, inr, true, false, some, List,
  [], arith, length, Option-cases,
}
use ocypode.Message.{Info}
use ocypode.Parser.{OutboundMessage}
use ocypode.Client.Channel.{
  Mpsc, WriterState, at_recv, at_try_recv, finished, Outbound, Turn, send, drop_senders, recv,
  recv_end, try_recv, try_recv_empty,
}
use ocypode.Client.Writer.{dispatch_outbound}

-- How many turns of the writer are left, at most, with so many messages in the queue.
abbrev pub left : WriterState → ℕ → ℕ
left at_recv n = 2 * n + 1
left at_try_recv n = 2 * n + 2
left finished n = 0

left-le : (x : WriterState) (n : ℕ) → left x n ≤ 2 * n + 2
left-le at_recv n = omega arith
left-le at_try_recv n = omega arith
left-le finished n = omega arith

module _ {M : Mpsc} {W : Type 0} where
  abbrev pub turns_left : Outbound M W → ℕ
  turns_left s = left s.writer (length (M.queued s.queue))

  abbrev pub IsDropped : Outbound M W → Type 0
  IsDropped s = s.senders ≡ false

  received_fewer :
      (s : Outbound M W) (m : OutboundMessage) (q : M.Queue)
      → M.receive s.queue ≡ some (m, q)
      → length (M.queued s.queue) ≡ suc (length (M.queued q))
  received_fewer s m q e = ap length (M.receive-some s.queue q m e).0

module _ {M : Mpsc} {W E : Type 0} (feed : Info → W → (Unit {0} ⊎ E) × W)
    (flush : W → (Unit {0} ⊎ E) × W) where
  -- Runs of a given number of turns.
  pub data Runs (s : Outbound M W) : ℕ → Outbound M W → Type 0 where
    none_yet : Runs s zero s
    turn :
        {n : ℕ} {more : List OutboundMessage} {t u : Outbound M W}
        → Runs s n t
        → Turn feed flush t more u
        → Runs s (suc n) u

  Turn-left :
      {s t : Outbound M W} {more : List OutboundMessage}
      → Turn feed flush s more t
      → IsDropped s
      → IsDropped t × (turns_left t < turns_left s)
  Turn-left (send _ _ alive _) gone = absurd (let f : true ≡ false = sym alive ∙ gone in cc)
  Turn-left (drop_senders alive) gone = absurd (let f : true ≡ false = sym alive ∙ gone in cc)
  Turn-left {s} (recv m q e received) gone =
      (gone, rw e (omega (arith, received_fewer s m q received)))
  Turn-left {s} (recv_end e empty _) gone = (gone, rw e (omega arith))
  Turn-left {s} (try_recv m q e received) gone =
      (gone, rw e (omega (arith, received_fewer s m q received)))
  Turn-left {s} (try_recv_empty e empty) gone = (gone, rw e (omega arith))

  Runs-left :
      {s t : Outbound M W} {n : ℕ}
      → Runs s n t
      → IsDropped s
      → IsDropped t × (n + turns_left t ≤ turns_left s)
  Runs-left none_yet gone = (gone, omega arith)
  Runs-left (turn r st) gone =
      let (dropped, bound) = Runs-left r gone in
      let (still, fewer) = Turn-left st dropped in (still, omega arith)

  -- A writer that has not finished has a turn.
  next-Turn :
      (s : Outbound M W)
      → IsDropped s
      → (s.writer ≡ finished) ⊎ ((t : Outbound M W) × Turn feed flush s [] t)
  next-Turn s gone = by_state s.writer refl
    where
      by_state :
          (w : WriterState)
          → s.writer ≡ w
          → (s.writer ≡ finished) ⊎ ((t : Outbound M W) × Turn feed flush s [] t)
      by_state finished e = inl e
      by_state at_recv e = elim (Option-cases (M.receive s.queue)) [
        | inl empty ↦ inr (record s { writer = finished }, recv_end e empty gone)
        | inr ((m, q), received) ↦ inr (
          record s {
            queue = q;
            writer = at_try_recv;
            sink = (dispatch_outbound feed flush m s.sink).1;
          },
          recv m q e received,
        )
      ]
      by_state at_try_recv e = elim (Option-cases (M.receive s.queue)) [
        | inl empty ↦
            inr (record s { writer = at_recv; sink = (flush s.sink).1 }, try_recv_empty e empty)
        | inr ((m, q), received) ↦ inr (
          record s { queue = q; sink = (dispatch_outbound feed flush m s.sink).1 },
          try_recv m q e received,
        )
      ]

  -- Once the senders are dropped the writer task ends: no run from there has more turns than two for
  -- each message in the queue and two, and a run that has stopped short of the end has a turn left.
  pub writer_terminates :
      (s t : Outbound M W) (n : ℕ)
      → IsDropped s
      → Runs s n t
      → (n ≤ 2 * length (M.queued s.queue) + 2)
        × ((t.writer ≡ finished) ⊎ ((u : Outbound M W) × Turn feed flush t [] u))
  writer_terminates s t n gone r =
      let (dropped, bound) = Runs-left r gone in
      (omega (arith, bound, left-le s.writer (length (M.queued s.queue))), next-Turn t dropped)
