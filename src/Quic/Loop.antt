-- ===== src/Quic/Loop.antt =====
-- The tasks of `start` in crates/server/src/quic.rs, interleaved in any order: the accept loop, one
-- task for each connection, and one for each stream, which runs `handle_bidirectional_stream`. What
-- s2n-quic reports is the choice of the step.
pub mod Clients
pub mod Shutdown
use ocypode.Prelude.{ℕ, zero, suc, ◌≡◌, Bool, true, false, List, [], ◌∷◌, ◌++◌}
use ocypode.Identity.{ClientId, first_client_id, next_client_id}

pub data LoopState : Type 0 where
  running : LoopState
  stopped : LoopState

-- The shutdown token, the accept loop, `CLIENT_ID_COUNTER`, the connections whose tasks accept
-- streams, the streams whose tasks have not begun, and the clients that run.
pub record Endpoint (C : Type 0) : Type 0 where
  pub cancelled : Bool
  pub accept_loop : LoopState
  pub counter : ℕ
  pub connections : List C
  pub waiting : List C
  pub clients : List (ClientId × C)

abbrev pub started : {C : Type 0} → Endpoint C
started = record {
  cancelled = false;
  accept_loop = running;
  counter = first_client_id;
  connections = [];
  waiting = [];
  clients = [];
}

module _ {C : Type 0} where
  -- `select!` takes any branch that is ready, so a connection may still be accepted after the token
  -- is cancelled and before the loop takes the other branch.
  pub data Step (s : Endpoint C) : Endpoint C → Type 0 where
    cancel : Step s (record s { cancelled = true })
    take_shutdown :
        s.accept_loop ≡ running → s.cancelled ≡ true → Step s (record s { accept_loop = stopped })
    accept_none : s.accept_loop ≡ running → Step s (record s { accept_loop = stopped })
    accept :
        (c : C) → s.accept_loop ≡ running → Step s (record s { connections = c ∷ s.connections })
    accept_stream :
        (c : C) (before after : List C)
        → s.connections ≡ before ++ c ∷ after
        → Step s (record s { waiting = c ∷ s.waiting })
    end_connection :
        (c : C) (before after : List C)
        → s.connections ≡ before ++ c ∷ after
        → Step s (record s { connections = before ++ after })
    begin_client :
        (c : C) (before after : List C)
        → s.waiting ≡ before ++ c ∷ after
        → Step s (record s {
          waiting = before ++ after;
          counter = (next_client_id s.counter).1;
          clients = ((next_client_id s.counter).0, c) ∷ s.clients;
        })
    end_client :
        (h : ClientId × C) (before after : List (ClientId × C))
        → s.clients ≡ before ++ h ∷ after
        → Step s (record s { clients = before ++ after })

  -- What so many steps lead to, from the start and from a given state.
  pub data Reach : ℕ → Endpoint C → Type 0 where
    start : Reach zero started
    later : {n : ℕ} {s t : Endpoint C} → Reach n s → Step s t → Reach (suc n) t

  pub data Steps (s : Endpoint C) : Endpoint C → Type 0 where
    here : Steps s s
    next : {t u : Endpoint C} → Steps s t → Step t u → Steps s u
