-- ===== src/Quic/Loop/Shutdown.antt =====
-- What stops the accept loop.
use ocypode.Prelude.{◌⊎◌, inl, inr, ◌≡◌, refl, sym, subst, ◌∙◌, true, List, ◌∷◌, ◌++◌, In}
use ocypode.Quic.Loop.Clients.{In-without}
use ocypode.Quic.Loop.{
  LoopState, Endpoint, running, stopped, Step, cancel, take_shutdown, accept_none, accept,
  accept_stream, end_connection, begin_client, end_client, Steps, here, next,
}

still {ℓ} : {A : Type ℓ} {l : LoopState} → l ≡ running → l ≡ stopped → A
still e f = absurd (let g : running ≡ stopped = sym e ∙ f in cc)

state_cases : (l : LoopState) → (l ≡ running) ⊎ (l ≡ stopped)
state_cases running = inl refl
state_cases stopped = inr refl

module _ {C : Type 0} where
  In-put_back :
      (a c : C) (before after all : List C)
      → all ≡ before ++ c ∷ after
      → In a (before ++ after)
      → In a all
  In-put_back a c before after all e i = subst (In a) (sym e) (In-without a c before after i)

  -- Once the loop has stopped it stays so, and a step adds no connection.
  Step-stopped :
      {s t : Endpoint C}
      → Step s t
      → s.accept_loop ≡ stopped
      → (t.accept_loop ≡ stopped) × ((c : C) → In c t.connections → In c s.connections)
  Step-stopped cancel h = (h, λ c i. i)
  Step-stopped (take_shutdown _ _) h = (refl, λ c i. i)
  Step-stopped (accept_none _) h = (refl, λ c i. i)
  Step-stopped (accept _ on) h = still on h
  Step-stopped (accept_stream _ _ _ _) h = (h, λ c i. i)
  Step-stopped {s = s} (end_connection c before after e) h =
      (h, λ a i. In-put_back a c before after s.connections e i)
  Step-stopped (begin_client _ _ _ _) h = (h, λ c i. i)
  Step-stopped (end_client _ _ _ _) h = (h, λ c i. i)

  -- After the accept loop has stopped, no step of the server starts it again or accepts a
  -- connection: every connection that there is was there when it stopped.
  Steps-stopped :
      {s t : Endpoint C}
      → Steps s t
      → s.accept_loop ≡ stopped
      → (t.accept_loop ≡ stopped) × ((c : C) → In c t.connections → In c s.connections)
  Steps-stopped here h = (h, λ c i. i)
  Steps-stopped (next r st) h =
      let (h1, from1) = Steps-stopped r h in
      let (h2, from2) = Step-stopped st h1 in (h2, λ c i. from1 c (from2 c i))

  -- A step while nobody cancels the token and `accept` always gives a connection.
  abbrev pub IsServing : {s t : Endpoint C} → Step s t → Type 0
  IsServing cancel = ⊥
  IsServing (accept_none _) = ⊥
  IsServing (take_shutdown _ _) = Unit
  IsServing (accept _ _) = Unit
  IsServing (accept_stream _ _ _ _) = Unit
  IsServing (end_connection _ _ _ _) = Unit
  IsServing (begin_client _ _ _ _) = Unit
  IsServing (end_client _ _ _ _) = Unit

  abbrev pub Serving : {s t : Endpoint C} → Steps s t → Type 0
  Serving here = Unit
  Serving (next r st) = Serving r × IsServing st

  -- Such a step leaves the token as it was, and stops a running loop only if the token is cancelled.
  Step-IsServing :
      {s t : Endpoint C} (st : Step s t)
      → IsServing st
      → (t.cancelled ≡ s.cancelled)
        × (s.accept_loop ≡ running → t.accept_loop ≡ stopped → s.cancelled ≡ true)
  Step-IsServing cancel h = absurd h
  Step-IsServing (accept_none _) h = absurd h
  Step-IsServing (take_shutdown _ on) h = (refl, λ e f. on)
  Step-IsServing (accept _ _) h = (refl, λ e f. still e f)
  Step-IsServing (accept_stream _ _ _ _) h = (refl, λ e f. still e f)
  Step-IsServing (end_connection _ _ _ _) h = (refl, λ e f. still e f)
  Step-IsServing (begin_client _ _ _ _) h = (refl, λ e f. still e f)
  Step-IsServing (end_client _ _ _ _) h = (refl, λ e f. still e f)

  Steps-Serving :
      {s t : Endpoint C} (r : Steps s t)
      → Serving r
      → s.accept_loop ≡ running
      → (t.cancelled ≡ s.cancelled) × (t.accept_loop ≡ stopped → s.cancelled ≡ true)
  Steps-Serving here h on = (refl, λ f. still on f)
  Steps-Serving (next {t = t} r st) (h, k) on =
      let (kept, only) = Steps-Serving r h on in
      let (kept', only') = Step-IsServing st k in
      (
        kept' ∙ kept,
        λ f. elim (state_cases t.accept_loop) [ inl e ↦ sym kept ∙ only' e f | inr e ↦ only e ],
      )

  -- As long as nobody cancels the token any more and `accept` gives connections, whatever else the
  -- tasks do from a state with a running loop: the loop has stopped only if the token was cancelled;
  -- if it was, then the loop has stopped, or the server can stop it at once; and behind the stop there
  -- is no connection but those there were.
  pub shutdown_stops :
      (s t : Endpoint C) (r : Steps s t)
      → Serving r
      → s.accept_loop ≡ running
      → (t.accept_loop ≡ stopped → s.cancelled ≡ true)
        × (s.cancelled ≡ true
            → (t.accept_loop ≡ stopped)
              ⊎ ((u : Endpoint C) × (st : Step t u) × IsServing st × (u.accept_loop ≡ stopped)))
        × ((u : Endpoint C)
            → t.accept_loop ≡ stopped
            → Steps t u
            → (u.accept_loop ≡ stopped) × ((c : C) → In c u.connections → In c t.connections))
  shutdown_stops s t r h on =
      let (kept, only) = Steps-Serving r h on in
      (
        only,
        λ cancelled. elim (state_cases t.accept_loop) [
          | inl e ↦
              inr (record t { accept_loop = stopped }, take_shutdown e (kept ∙ cancelled), tt, refl)
          | inr e ↦ inl e
        ],
        λ u e q. Steps-stopped q e,
      )
