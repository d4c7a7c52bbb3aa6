-- ===== src/Client/Channel/Order.antt =====
-- What the outbound channel and the writer have done with the messages that were sent.
use ocypode.Prelude.{
  ℕ, ◌≤◌, ◌≡◌, refl, sym, ap, subst, ◌∙◌, ◌⊎◌, Bool, true, false, some, List, [], ◌∷◌, ◌++◌,
  append-nil, append_assoc, arith, length, length-append,
}
use ocypode.Message.{Info}
use ocypode.Parser.{OutboundMessage}
use ocypode.Client.Writer.{dispatch_outbound, infos}
use ocypode.Client.Channel.Fed.{Fed, unfed, flushed, dispatch-Fed}
use ocypode.Client.Channel.{
  Mpsc, WriterState, at_recv, at_try_recv, finished, Outbound, Turn, send, drop_senders, recv,
  recv_end, try_recv, try_recv_empty, Turns, here, then_turn, opened,
}

module _ {M : Mpsc} {W E : Type 0} (feed : Info → W → (Unit {0} ⊎ E) × W)
    (flush : W → (Unit {0} ⊎ E) × W) where
  -- Of the messages sent, those handled were fed to the sink, and the others are in the queue.
  record Inv (w : W) (limit : ℕ) (sent : List OutboundMessage) (s : Outbound M W) : Type 0 where
    handled : List OutboundMessage
    dirty : Bool
    ordered : sent ≡ handled ++ M.queued s.queue
    sunk : Fed feed flush w dirty (infos handled) s.sink
    clean : ¬ (s.writer ≡ at_try_recv) → dirty ≡ false
    bounded : length (M.queued s.queue) ≤ limit
    capped : M.capacity s.queue ≡ limit
    over : s.writer ≡ finished → (M.queued s.queue ≡ []) × (s.senders ≡ false)

  -- A message taken from the queue and dispatched.
  received-Inv :
      (w : W) (limit : ℕ) (sent : List OutboundMessage) (s : Outbound M W) (m : OutboundMessage)
      (q : M.Queue) (x : WriterState)
      → M.receive s.queue ≡ some (m, q)
      → x ≡ at_try_recv
      → Inv w limit sent s
      → Inv w limit sent
          (record s { queue = q; writer = x; sink = (dispatch_outbound feed flush m s.sink).1 })
  received-Inv w limit sent s m q x e there v =
      let (split, same_cap) = M.receive-some s.queue q m e in
      let (c, f) = dispatch-Fed feed flush w s.sink v.dirty v.handled m v.sunk in
      record {
        handled = v.handled ++ (m ∷ []);
        dirty = c;
        ordered =
            v.ordered
            ∙ ap (λ l. v.handled ++ l) split
            ∙ sym (append_assoc v.handled (m ∷ []) (M.queued q));
        sunk = f;
        clean = λ h. absurd (h there);
        bounded = omega (arith, v.bounded, ap length split);
        capped = same_cap ∙ v.capped;
        over = λ h. absurd (elsewhere (sym there ∙ h));
      }
    where
      elsewhere : ¬ (at_try_recv ≡ finished)
      elsewhere e = cc

  sent-Inv :
      (w : W) (limit : ℕ) (sent : List OutboundMessage) (s : Outbound M W) (m : OutboundMessage)
      (q : M.Queue)
      → s.senders ≡ true
      → M.try_send m s.queue ≡ some q
      → Inv w limit sent s
      → Inv w limit (sent ++ (m ∷ [])) (record s { queue = q })
  sent-Inv w limit sent s m q alive e v =
      let (grown, room, same_cap) = M.queued-send m s.queue q e in
      record {
        handled = v.handled;
        dirty = v.dirty;
        ordered =
            ap (λ l. l ++ (m ∷ [])) v.ordered
            ∙ append_assoc v.handled (M.queued s.queue) (m ∷ [])
            ∙ ap (λ l. v.handled ++ l) (sym grown);
        sunk = v.sunk;
        clean = v.clean;
        bounded =
            omega
              (arith, room, v.capped, ap length grown, length-append (M.queued s.queue) (m ∷ []));
        capped = same_cap ∙ v.capped;
        over = λ h. absurd (let f : true ≡ false = sym alive ∙ (v.over h).1 in cc);
      }

  unsent :
      {w : W} {limit : ℕ} (sent : List OutboundMessage) {t : Outbound M W}
      → Inv w limit sent t
      → Inv w limit (sent ++ []) t
  unsent {w} {limit} sent {t} v = subst (λ l. Inv w limit l t) (sym (append-nil sent)) v

  Turn-Inv :
      (w : W) (limit : ℕ) (sent more : List OutboundMessage) (s t : Outbound M W)
      → Turn feed flush s more t
      → Inv w limit sent s
      → Inv w limit (sent ++ more) t
  Turn-Inv w limit sent more s t (send m q alive e) v = sent-Inv w limit sent s m q alive e v
  Turn-Inv w limit sent more s t (drop_senders _) v = unsent sent (record {
    handled = v.handled;
    dirty = v.dirty;
    ordered = v.ordered;
    sunk = v.sunk;
    clean = v.clean;
    bounded = v.bounded;
    capped = v.capped;
    over = λ h. ((v.over h).0, refl);
  })
  Turn-Inv w limit sent more s t (recv m q _ e) v =
      unsent sent (received-Inv w limit sent s m q at_try_recv e refl v)
  Turn-Inv w limit sent more s t (recv_end at_end e gone) v = unsent sent (record {
    handled = v.handled;
    dirty = v.dirty;
    ordered = v.ordered;
    sunk = v.sunk;
    clean = λ h. v.clean (λ f. elsewhere (sym at_end ∙ f));
    bounded = v.bounded;
    capped = v.capped;
    over = λ h. (M.receive-none s.queue e, gone);
  })
    where
      elsewhere : ¬ (at_recv ≡ at_try_recv)
      elsewhere e = cc
  Turn-Inv w limit sent more s t (try_recv m q there e) v =
      unsent sent (received-Inv w limit sent s m q s.writer e there v)
  Turn-Inv w limit sent more s t (try_recv_empty there e) v = unsent sent (record {
    handled = v.handled;
    dirty = false;
    ordered = v.ordered;
    sunk = flushed v.sunk;
    clean = λ h. refl;
    bounded = v.bounded;
    capped = v.capped;
    over = λ h. absurd (elsewhere h);
  })
    where
      elsewhere : ¬ (at_recv ≡ finished)
      elsewhere e = cc

  opened-Inv : (w : W) (n : ℕ) (q : M.Queue) → M.channel n ≡ some q → Inv w n [] (opened q w)
  opened-Inv w n q made = record {
    handled = [];
    dirty = false;
    ordered = sym (M.queued-channel n q made).0;
    sunk = unfed;
    clean = λ h. refl;
    bounded = omega (arith, ap length (M.queued-channel n q made).0);
    capped = (M.queued-channel n q made).1;
    over = λ h. absurd (elsewhere h);
  }
    where
      elsewhere : ¬ (at_recv ≡ finished)
      elsewhere e = cc

  Turns-Inv :
      (w : W) (n : ℕ) (q : M.Queue) {sent : List OutboundMessage} {s : Outbound M W}
      → M.channel n ≡ some q
      → Turns feed flush (opened q w) sent s
      → Inv w n sent s
  Turns-Inv w n q made here = opened-Inv w n q made
  Turns-Inv w n q made (then_turn {sent = sent} {more = more} {t = t} {u = u} r st) =
      Turn-Inv w n sent more t u st (Turns-Inv w n q made r)

  -- At every moment the messages that were sent are those that the writer has handled, whose INFO
  -- messages were fed to the sink in the order of sending, followed by those in the queue, which are
  -- never more than its capacity.
  pub Turns-Fed :
      (w : W) (n : ℕ) (q : M.Queue) {sent : List OutboundMessage} {s : Outbound M W}
      → M.channel n ≡ some q
      → Turns feed flush (opened q w) sent s
      → (handled : List OutboundMessage) × (dirty : Bool) × (sent ≡ handled ++ M.queued s.queue)
        × Fed feed flush w dirty (infos handled) s.sink
        × (length (M.queued s.queue) ≤ n)
  Turns-Fed w n q made r =
      let v = Turns-Inv w n q made r in (v.handled, v.dirty, v.ordered, v.sunk, v.bounded)

  -- Once the writer has finished, no message is lost: the sink was fed every INFO message that was
  -- sent, in the order of sending, and flushed behind the last of them.
  pub finished-Fed :
      (w : W) (n : ℕ) (q : M.Queue) {sent : List OutboundMessage} {s : Outbound M W}
      → M.channel n ≡ some q
      → Turns feed flush (opened q w) sent s
      → s.writer ≡ finished
      → Fed feed flush w false (infos sent) s.sink
  finished-Fed w n q {sent} {s} made r e =
      let v = Turns-Inv w n q made r in
      let all : sent ≡ v.handled =
        v.ordered ∙ ap (λ l. v.handled ++ l) (v.over e).0 ∙ append-nil v.handled in
      let settled : v.dirty ≡ false = v.clean (λ f. elsewhere (sym e ∙ f)) in
      subst (λ l. Fed feed flush w false (infos l) s.sink) (sym all)
        (subst (λ b. Fed feed flush w b (infos v.handled) s.sink) settled v.sunk)
    where
      elsewhere : ¬ (finished ≡ at_try_recv)
      elsewhere e = cc
