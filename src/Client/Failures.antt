-- ===== src/Client/Failures.antt =====
-- How `Client::run` of crates/server/src/client.rs fails, and with what error.
use ocypode.Prelude.{
  ◌≡◌, refl, sym, ap, ◌∙◌, ◌↔◌, Bool, true, false, List, [], ◌∷◌, ◌++◌, map, Result, err, panic,
}
use ocypode.Identity.{ClientId}
use ocypode.Message.{Connect}
use ocypode.Config.{ServerConfig}
use ocypode.Parser.{
  Crates, ServerCodecError, Frame, connect_frame, publish_frame, subscribe_frame, unsubscribe_frame,
}
use ocypode.Client.{
  AuthOutcome, accepted, rejected, Authenticator, CompletedHandshake, authentication_failed,
  connect_timeout, connection_closed, ClientError, handshake_failed, codec_failed,
  outbound_channel_closed, Item, received, failed, await_connect, perform_handshake, dispatch_loop,
  run,
}
use ocypode.Client.Pipeline.{run_connect, verdict, dispatch-received, run-first_failure}

abbrev pub IsConnect : Frame → Type 0
IsConnect (connect_frame _) = Unit
IsConnect (publish_frame _) = ⊥
IsConnect (subscribe_frame _) = ⊥
IsConnect (unsubscribe_frame _) = ⊥

-- What goes wrong in a connection, with the error that it ends with.
pub data Fails {X : Crates} (authenticator : Authenticator) (open_writer timely : Bool)
    (items : List (Item X)) (e : ClientError X) : Type 0 where
  writer_gone :
      open_writer ≡ false
      → e ≡ outbound_channel_closed
      → Fails authenticator open_writer timely items e
  too_late :
      open_writer ≡ true
      → timely ≡ false
      → e ≡ handshake_failed connect_timeout
      → Fails authenticator open_writer timely items e
  ends_first :
      open_writer ≡ true
      → timely ≡ true
      → items ≡ []
      → e ≡ handshake_failed connection_closed
      → Fails authenticator open_writer timely items e
  other_frame :
      (f : Frame) (later : List (Item X))
      → open_writer ≡ true
      → timely ≡ true
      → items ≡ received f ∷ later
      → ¬ IsConnect f
      → e ≡ handshake_failed connection_closed
      → Fails authenticator open_writer timely items e
  no_frame :
      (x : ServerCodecError X) (later : List (Item X))
      → open_writer ≡ true
      → timely ≡ true
      → items ≡ failed x ∷ later
      → e ≡ codec_failed x
      → Fails authenticator open_writer timely items e
  refused :
      (c : Connect) (later : List (Item X)) (reason : _)
      → open_writer ≡ true
      → timely ≡ true
      → items ≡ received (connect_frame c) ∷ later
      → authenticator c ≡ rejected reason
      → e ≡ handshake_failed (authentication_failed reason)
      → Fails authenticator open_writer timely items e
  no_frame_later :
      (c : Connect) (fs : List Frame) (x : ServerCodecError X) (later : List (Item X))
      → open_writer ≡ true
      → timely ≡ true
      → items ≡ received (connect_frame c) ∷ (map received fs ++ failed x ∷ later)
      → authenticator c ≡ accepted
      → e ≡ codec_failed x
      → Fails authenticator open_writer timely items e

module _ {X : Crates} where
  dispatch_err :
      (h : CompletedHandshake) (items : List (Item X)) (e : ClientError X)
      → dispatch_loop h items ≡ err e
      → (fs : List Frame) × (x : ServerCodecError X) × (later : List (Item X)) × (items
          ≡ map received fs ++ failed x ∷ later)
        × (e ≡ codec_failed x)
  dispatch_err h [] e p = absurd (unfold dispatch_loop in cc)
  dispatch_err h (failed x ∷ items) e p =
      let same : ◌≡◌ {A = Result (ClientError X) (Unit {0})} (err (codec_failed x)) (err e) =
        unfold dispatch_loop in p in
      ([], x, items, refl, cc same)
  dispatch_err h (received f ∷ items) e p =
      let (fs, x, later, q, r) =
        dispatch_err h items e (sym (dispatch-received h (f ∷ []) items) ∙ p) in
      (f ∷ fs, x, later, ap (λ l. received f ∷ l) q, r)

  dispatch_never :
      (h : CompletedHandshake) (items : List (Item X)) → ¬ (dispatch_loop h items ≡ panic)
  dispatch_never h [] p = unfold dispatch_loop in absurd cc
  dispatch_never h (failed x ∷ items) p = unfold dispatch_loop in absurd cc
  dispatch_never h (received f ∷ items) p =
      dispatch_never h items (sym (dispatch-received h (f ∷ []) items) ∙ p)

  module _ {L : Type 0} (config : ServerConfig L) (client_id : ClientId)
      (authenticator : Authenticator) where
    by_verdict :
        (c : Connect) (items : List (Item X)) (e : ClientError X) (o : AuthOutcome)
        → authenticator c ≡ o
        → verdict (record { client_id = client_id; connect_info = c }) o items ≡ err e
        → Fails authenticator true true (received (connect_frame c) ∷ items) e
    by_verdict c items e accepted a p =
        let (fs, x, later, q, r) =
          dispatch_err (record { client_id = client_id; connect_info = c }) items e p in
        no_frame_later c fs x later refl refl (ap (λ l. received (connect_frame c) ∷ l) q) a r
    by_verdict c items e (rejected reason) a p = refused c items reason refl refl refl a (
        let same : ◌≡◌ {A = Result (ClientError X) (Unit {0})}
            (err (handshake_failed (authentication_failed reason))) (err e) =
          p in
        cc same)

    run_err :
        (open_writer timely : Bool) (items : List (Item X)) (e : ClientError X)
        → (run config client_id authenticator open_writer timely items).1 ≡ err e
        → Fails authenticator open_writer timely items e
    unfolding run perform_handshake await_connect
    run_err false timely items e p = writer_gone refl cc
    run_err true false items e p = too_late refl refl cc
    run_err true true [] e p = ends_first refl refl refl cc
    run_err true true (failed x ∷ items) e p = no_frame x items refl refl refl cc
    run_err true true (received (publish_frame m) ∷ items) e p =
        other_frame (publish_frame m) items refl refl refl (λ h. h) cc
    run_err true true (received (subscribe_frame m) ∷ items) e p =
        other_frame (subscribe_frame m) items refl refl refl (λ h. h) cc
    run_err true true (received (unsubscribe_frame m) ∷ items) e p =
        other_frame (unsubscribe_frame m) items refl refl refl (λ h. h) cc
    run_err true true (received (connect_frame c) ∷ items) e p =
        by_verdict c items e (authenticator c) refl
          (sym (run_connect config client_id authenticator c items (authenticator c) refl) ∙ p)

    run_other_frame :
        (f : Frame) (later : List (Item X))
        → ¬ IsConnect f
        → (run config client_id authenticator true true (received f ∷ later)).1
          ≡ err (handshake_failed connection_closed)
    unfolding run perform_handshake await_connect
    run_other_frame (connect_frame _) later h = absurd (h tt)
    run_other_frame (publish_frame _) later h = refl
    run_other_frame (subscribe_frame _) later h = refl
    run_other_frame (unsubscribe_frame _) later h = refl

    Fails-run :
        (open_writer timely : Bool) (items : List (Item X)) (e : ClientError X)
        → Fails authenticator open_writer timely items e
        → (run config client_id authenticator open_writer timely items).1 ≡ err e
    unfolding run perform_handshake await_connect
    Fails-run o t items e (writer_gone p q) = rw (p, q) refl
    Fails-run o t items e (too_late p q r) = rw (p, q, r) refl
    Fails-run o t items e (ends_first p q r u) = rw (p, q, r, u) refl
    Fails-run o t items e (other_frame f later p q r n u) =
        rw (p, q, r, u) (run_other_frame f later n)
    Fails-run o t items e (no_frame x later p q r u) = rw (p, q, r, u) refl
    Fails-run o t items e (refused c later reason p q r a u) =
        rw (p, q, r, u) (run_connect config client_id authenticator c later (rejected reason) a)
    Fails-run o t items e (no_frame_later c fs x later p q r a u) =
        rw (p, q, r, u) (run-first_failure config client_id authenticator c fs x later a)

    verdict_never :
        (c : Connect) (items : List (Item X)) (o : AuthOutcome)
        → ¬ (verdict (record { client_id = client_id; connect_info = c }) o items ≡ panic)
    verdict_never c items accepted p =
        dispatch_never (record { client_id = client_id; connect_info = c }) items p
    verdict_never c items (rejected reason) p = absurd cc

    run_never :
        (open_writer timely : Bool) (items : List (Item X))
        → ¬ ((run config client_id authenticator open_writer timely items).1 ≡ panic)
    unfolding run perform_handshake await_connect
    run_never false timely items p = absurd cc
    run_never true false items p = absurd cc
    run_never true true [] p = absurd cc
    run_never true true (failed x ∷ items) p = absurd cc
    run_never true true (received (publish_frame m) ∷ items) p = absurd cc
    run_never true true (received (subscribe_frame m) ∷ items) p = absurd cc
    run_never true true (received (unsubscribe_frame m) ∷ items) p = absurd cc
    run_never true true (received (connect_frame c) ∷ items) p =
        verdict_never c items (authenticator c)
          (sym (run_connect config client_id authenticator c items (authenticator c) refl) ∙ p)

    -- A run never panics, and it ends with an error exactly if one of these goes wrong, each with its
    -- own error: the writer task is gone; CONNECT is late; the input ends before it, or another frame
    -- comes first, both with `ConnectionClosed`; the first item is no frame; the authenticator
    -- rejects CONNECT, with the reason it gives; or, behind an accepted CONNECT, the first item that
    -- is no frame, whatever frames come before it. `UnexpectedFrame` is none of these errors.
    pub run_err_iff :
        (open_writer timely : Bool) (items : List (Item X)) (e : ClientError X)
        → (((run config client_id authenticator open_writer timely items).1 ≡ err e)
            ↔ Fails authenticator open_writer timely items e)
          × ¬ ((run config client_id authenticator open_writer timely items).1 ≡ panic)
    run_err_iff open_writer timely items e = (
      (run_err open_writer timely items e, Fails-run open_writer timely items e),
      run_never open_writer timely items,
    )
