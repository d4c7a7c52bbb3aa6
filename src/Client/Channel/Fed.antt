-- ===== src/Client/Channel/Fed.antt =====
-- What the sink of the writer in crates/server/src/client.rs was fed.
use ocypode.Prelude.{sym, subst, ◌∙◌, ◌⊎◌, Bool, true, false, List, [], ◌∷◌, ◌++◌, append-nil}
use ocypode.Message.{Info}
use ocypode.Parser.{OutboundMessage, outbound_info, outbound_message}
use ocypode.Client.Writer.{dispatch_outbound, infos, infos-append}

module _ {W E : Type 0} (feed : Info → W → (Unit {0} ⊎ E) × W)
    (flush : W → (Unit {0} ⊎ E) × W) where
  -- A sink that was fed these messages in this order, with flushes between them; the test says that
  -- something was fed behind the last flush.
  pub data Fed (w : W) : Bool → List Info → W → Type 0 where
    unfed : Fed w false [] w
    fed :
        {b : Bool} {is : List Info} {v : W} (i : Info)
        → Fed w b is v
        → Fed w true (is ++ (i ∷ [])) (feed i v).1
    flushed : {b : Bool} {is : List Info} {v : W} → Fed w b is v → Fed w false is (flush v).1

  pub dispatch-Fed :
      (w v : W) (b : Bool) (handled : List OutboundMessage) (m : OutboundMessage)
      → Fed w b (infos handled) v
      → (c : Bool) × Fed w c (infos (handled ++ (m ∷ []))) (dispatch_outbound feed flush m v).1
  unfolding dispatch_outbound
  dispatch-Fed w v b handled (outbound_info i) f = (
    true,
    subst (λ l. Fed w true l (feed i v).1) (sym (infos-append handled (outbound_info i ∷ [])))
        (fed i f),
  )
  dispatch-Fed w v b handled (outbound_message x) f = (
    b,
    subst (λ l. Fed w b l v)
        (sym (infos-append handled (outbound_message x ∷ []) ∙ append-nil (infos handled))) f,
  )
