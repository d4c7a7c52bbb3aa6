-- ===== src/Client/Channel/Examples.antt =====
-- The outbound channel of crates/server/src/client.rs as a list, its writer, and `Client::new`.
use ocypode.Prelude.{◌≤◌, ◌≡◌, refl, ◌⊎◌, Bool, false, Option, none, some, List, [], ◌∷◌, ◌++◌}
use ocypode.Message.{Info}
use ocypode.Parser.{OutboundMessage, outbound_info}
use ocypode.Parser.Code.{default_info}
use ocypode.Client.Fixtures.{Bounded, mpsc, keep, mark, delivery}
use ocypode.Client.Writer.{infos, dispatch_outbound}
use ocypode.Client.Channel.{
  at_recv, at_try_recv, finished, Outbound, Turn, send, drop_senders, recv, recv_end, try_recv,
  try_recv_empty, Turns, here, then_turn, opened,
}
use ocypode.Client.Channel.Fed.{Fed}
use ocypode.Client.Channel.Order.{Turns-Fed, finished-Fed}
use ocypode.Client.Channel.Ends.{Runs, none_yet, turn, writer_terminates}

abbrev empty : Bounded
empty = record { limit = 2; held = [] }

abbrev greeting : OutboundMessage
greeting = outbound_info default_info

-- Both messages are sent, the sender goes, and the writer takes the first of them.
abbrev middle : Outbound mpsc (List (Option Info))
middle = record {
  queue = record { limit = 2; held = delivery ∷ [] };
  senders = false;
  writer = at_try_recv;
  sink = some default_info ∷ [];
}

sent_two : Turns {M = mpsc} keep mark (opened empty []) (greeting ∷ delivery ∷ []) middle
unfolding dispatch_outbound
sent_two =
    then_turn
      (then_turn
        (then_turn
          (then_turn here (send greeting (record { limit = 2; held = greeting ∷ [] }) refl refl))
          (send delivery (record { limit = 2; held = greeting ∷ delivery ∷ [] }) refl refl))
        (drop_senders refl))
      (recv greeting (record { limit = 2; held = delivery ∷ [] }) refl refl)

abbrev last : Outbound mpsc (List (Option Info))
last = record {
  queue = empty;
  senders = false;
  writer = finished;
  sink = none ∷ some default_info ∷ [];
}

written_all : Turns {M = mpsc} keep mark (opened empty []) (greeting ∷ delivery ∷ []) last
unfolding dispatch_outbound
written_all =
    then_turn
      (then_turn (then_turn sent_two (try_recv delivery empty refl refl))
        (try_recv_empty refl refl))
      (recv_end refl refl refl)

Turns-Fed_example :
    (handled : List OutboundMessage) × (dirty : Bool) × (greeting ∷ delivery ∷ []
      ≡ handled ++ (delivery ∷ []))
    × Fed keep mark [] dirty (infos handled) (some default_info ∷ [])
    × (1 ≤ 2)
Turns-Fed_example = Turns-Fed {M = mpsc} keep mark [] 2 empty refl sent_two

finished-Fed_example : Fed keep mark [] false (default_info ∷ []) (none ∷ some default_info ∷ [])
finished-Fed_example = finished-Fed {M = mpsc} keep mark [] 2 empty refl written_all refl

run_out : Runs {M = mpsc} keep mark middle 2 (record last { writer = at_recv })
unfolding dispatch_outbound
run_out = turn (turn none_yet (try_recv delivery empty refl refl)) (try_recv_empty refl refl)

writer_terminates_example :
    (2 ≤ 4)
    × ((at_recv ≡ finished)
        ⊎ ((u : Outbound mpsc (List (Option Info))) × Turn {M = mpsc} keep mark
              (record last { writer = at_recv })
              []
              u))
writer_terminates_example =
    writer_terminates {M = mpsc} keep mark middle (record last { writer = at_recv }) 2 refl run_out
