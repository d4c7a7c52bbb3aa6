-- ===== src/Client/Pipeline.antt =====
-- `Client::run` of crates/server/src/client.rs: the handshake, and then the frames.
use ocypode.Prelude.{
  ◌≡◌, refl, sym, ap, ◌∙◌, ◌↔◌, Bool, true, false, List, [], ◌∷◌, ◌++◌, append-nil, map, Result, ok,
  err,
}
use ocypode.Identity.{ClientId}
use ocypode.Message.{Connect}
use ocypode.Config.{ServerConfig}
use ocypode.Parser.{
  Crates, ServerCodecError, Frame, connect_frame, publish_frame, subscribe_frame, unsubscribe_frame,
  outbound_info,
}
use ocypode.Parser.Code.{server_info}
use ocypode.Client.{
  AuthOutcome, accepted, rejected, Authenticator, CompletedHandshake, authentication_failed,
  on_connect, ClientError, handshake_failed, codec_failed, outbound_channel_closed, Item, received,
  failed, await_connect, perform_handshake, dispatch_frame, dispatch_loop, run,
}

-- `dispatch_frame` accepts every frame.
dispatch_frame_ok :
    (X : Crates) (f : Frame) (h : CompletedHandshake) → dispatch_frame {X = X} f h ≡ ok tt
unfolding dispatch_frame
dispatch_frame_ok X (connect_frame _) h = refl
dispatch_frame_ok X (publish_frame _) h = refl
dispatch_frame_ok X (subscribe_frame _) h = refl
dispatch_frame_ok X (unsubscribe_frame _) h = refl

module _ {X : Crates} where
  pub dispatch-received :
      (h : CompletedHandshake) (fs : List Frame) (items : List (Item X))
      → dispatch_loop h (map received fs ++ items) ≡ dispatch_loop h items
  unfolding dispatch_loop
  dispatch-received h [] items = refl
  dispatch-received h (f ∷ fs) items = rw (dispatch_frame_ok X f h) (dispatch-received h fs items)

  -- The loop is through exactly if all items are frames, and stops at the first failure.
  dispatch_ok :
      (h : CompletedHandshake) (items : List (Item X))
      → dispatch_loop h items ≡ ok tt
      → (fs : List Frame) × (items ≡ map received fs)
  dispatch_ok h [] e = ([], refl)
  dispatch_ok h (failed x ∷ items) e = absurd (unfold dispatch_loop in cc)
  dispatch_ok h (received f ∷ items) e =
      let later : dispatch_loop h items ≡ ok tt = sym (dispatch-received h (f ∷ []) items) ∙ e in
      let (fs, p) = dispatch_ok h items later in (f ∷ fs, ap (λ l. received f ∷ l) p)

  -- What of a run is left once CONNECT is there, by the verdict of the authenticator.
  abbrev pub verdict :
      CompletedHandshake → AuthOutcome → List (Item X) → Result (ClientError X) (Unit {0})
  verdict h accepted items = dispatch_loop h items
  verdict h (rejected reason) items = err (handshake_failed (authentication_failed reason))

  module _ {L : Type 0} (config : ServerConfig L) (client_id : ClientId)
      (authenticator : Authenticator) where
    pub run_connect :
        (c : Connect) (items : List (Item X)) (o : AuthOutcome)
        → authenticator c ≡ o
        → (run config client_id authenticator true true (received (connect_frame c) ∷ items)).1
          ≡ verdict (record { client_id = client_id; connect_info = c }) o items
    unfolding run perform_handshake await_connect on_connect
    run_connect c items accepted e = rw e refl
    run_connect c items (rejected reason) e = rw e refl

    -- The first item is CONNECT, the authenticator accepts it, and frames follow.
    abbrev pub Served : List (Item X) → List (Item X) → Type 0
    Served items rest =
        (c : Connect) × (fs : List Frame) × (authenticator c ≡ accepted)
        × (items ≡ received (connect_frame c) ∷ (map received fs ++ rest))

    served :
        (c : Connect) (items : List (Item X)) (o : AuthOutcome)
        → authenticator c ≡ o
        → verdict (record { client_id = client_id; connect_info = c }) o items ≡ ok tt
        → Served (received (connect_frame c) ∷ items) []
    served c items accepted e h =
        let (fs, p) = dispatch_ok (record { client_id = client_id; connect_info = c }) items h in
        (
          c,
          fs,
          e,
          ap (λ l. received (connect_frame c) ∷ l) (p ∙ sym (append-nil (map received fs))),
        )
    served c items (rejected reason) e h = absurd cc

    run_ok :
        (open_writer timely : Bool) (items : List (Item X))
        → (run config client_id authenticator open_writer timely items).1 ≡ ok tt
        → (open_writer ≡ true) × (timely ≡ true) × Served items []
    unfolding run perform_handshake await_connect
    run_ok false timely items e = absurd cc
    run_ok true false items e = absurd cc
    run_ok true true [] e = absurd cc
    run_ok true true (failed x ∷ items) e = absurd cc
    run_ok true true (received (publish_frame _) ∷ items) e = absurd cc
    run_ok true true (received (subscribe_frame _) ∷ items) e = absurd cc
    run_ok true true (received (unsubscribe_frame _) ∷ items) e = absurd cc
    run_ok true true (received (connect_frame c) ∷ items) e = (
      refl,
      refl,
      served c items (authenticator c) refl (sym (run_connect c items (authenticator c) refl) ∙ e),
    )

    run-Served :
        (items rest : List (Item X)) (s : Served items rest)
        → (run config client_id authenticator true true items).1
          ≡ dispatch_loop (record { client_id = client_id; connect_info = s.0 }) rest
    run-Served items rest (c, fs, e, p) =
        ap (λ l. (run config client_id authenticator true true l).1) p
        ∙ run_connect c (map received fs ++ rest) accepted e
        ∙ dispatch-received (record { client_id = client_id; connect_info = c }) fs rest

  -- A run ends without an error exactly if the writer task receives, CONNECT arrives in time as the
  -- first item, the authenticator accepts it, and all items after it are frames.
  pub run_ok_iff :
      {L : Type 0} (config : ServerConfig L) (client_id : ClientId) (authenticator : Authenticator)
      (open_writer timely : Bool) (items : List (Item X))
      → ((run config client_id authenticator open_writer timely items).1 ≡ ok tt)
        ↔ ((open_writer ≡ true) × (timely ≡ true) × Served config client_id authenticator items [])
  run_ok_iff config client_id authenticator open_writer timely items = (
    run_ok config client_id authenticator open_writer timely items,
    λ h. rw (h.0, h.1) (run-Served config client_id authenticator items [] h.2 ∙ through h.2.0),
  )
    where
      through :
          (c : Connect)
          → dispatch_loop {X = X} (record { client_id = client_id; connect_info = c }) [] ≡ ok tt
      through c = unfold dispatch_loop in refl

  pub run-first_failure :
      {L : Type 0} (config : ServerConfig L) (client_id : ClientId) (authenticator : Authenticator)
      (c : Connect) (fs : List Frame) (e : ServerCodecError X) (later : List (Item X))
      → authenticator c ≡ accepted
      → (run config client_id authenticator true true
          (received (connect_frame c) ∷ (map received fs ++ failed e ∷ later))).1
        ≡ err (codec_failed e)
  run-first_failure config client_id authenticator c fs e later h =
      run-Served config client_id authenticator
        (received (connect_frame c) ∷ (map received fs ++ failed e ∷ later)) (failed e ∷ later)
        (c, fs, h, refl)
      ∙ unfold dispatch_loop in refl

  -- The server greets first: whatever arrives, a run sends INFO and nothing else, with the
  -- connection's identifier, the configured names and flags, version 1 and the limit of 1 MiB; it
  -- sends nothing if the writer task is gone, and then ends with that error.
  pub run_greets :
      {L : Type 0} (config : ServerConfig L) (client_id : ClientId) (authenticator : Authenticator)
      (timely : Bool) (items : List (Item X))
      → ((run config client_id authenticator true timely items).0
          ≡ outbound_info (record {
            version = 1;
            server_id = config.server_id;
            server_name = config.server_name;
            max_payload = 1048576;
            client_id = client_id.value;
            requires_auth = config.requires_auth;
            tls_verify = config.tls_verify;
          })
            ∷ [])
        × (run config client_id authenticator false timely items
            ≡ ([], err outbound_channel_closed))
  unfolding run perform_handshake server_info
  run_greets config client_id authenticator true items = (refl, refl)
  run_greets config client_id authenticator false items = (refl, refl)
