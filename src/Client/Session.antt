-- ===== src/Client/Session.antt =====
-- A whole connection: the bytes that a client of crates/server/src/parser.rs sends, and `Client::run`
-- of crates/server/src/client.rs over them.
mod Examples
use ocypode.Prelude.{
  ℕ, zero, suc, ◌+◌, ◌<◌, ◌≡◌, refl, sym, ap, ◌∙◌, Bool, true, false, Option, none, some, List, [],
  ◌∷◌, ◌++◌, append-nil, map, Bytes, arith, length, Result, ok, err, panic,
}
use ocypode.Identity.{ClientId}
use ocypode.Message.{Connect}
use ocypode.Config.{ServerConfig}
use ocypode.Parser.{Crates, ServerCodecError, Frame, connect_frame, OutboundMessage, outbound_info}
use ocypode.Parser.Framing.{server_decode}
use ocypode.Parser.Framed.{FramedRead}
use ocypode.Parser.Stream.{keep, read_next, read_frames, send_all, CarriesAll, read_frames-send_all}
use ocypode.Client.{Authenticator, accepted, Item, received, failed, run}
use ocypode.Client.Pipeline.{Served, run_ok_iff, run_greets}

pair_eq : {A B : Type 0} (r : A × B) {a : A} {b : B} → r.0 ≡ a → r.1 ≡ b → r ≡ (a, b)
pair_eq r e f = rw (sym e, sym f) refl

module _ {X : Crates} (R : FramedRead X) where
  abbrev next_item :
      (R.State → List (Item X))
      → Option (Result (ServerCodecError X) Frame × R.State)
      → List (Item X)
  next_item later none = []
  next_item later (some (ok f, s)) = received f ∷ later s
  next_item later (some (err e, s)) = failed e ∷ later s
  next_item later (some (panic, s)) = []

  -- At most so many items, up to the end.
  abbrev pub items : ℕ → R.State → List (Item X)
  items zero s = []
  items (suc n) s = next_item (λ t. items n t) (R.next s)

  keep_ok :
      (f g : Frame) (fs : List Frame) (later : Result (ServerCodecError X) (List Frame) × Bytes)
      → keep X g later ≡ (ok (f ∷ fs), [])
      → (g ≡ f) × (later ≡ (ok fs, []))
  keep_ok f g fs (ok gs, rest) e =
      let same : ◌≡◌ {A = Result (ServerCodecError X) (List Frame) × Bytes} (ok (g ∷ gs), rest)
          (ok (f ∷ fs), []) =
        e in
      (cc, cc)
  keep_ok f g fs (err x, rest) e = absurd cc
  keep_ok f g fs (panic, rest) e = absurd cc

  read_next_ok :
      (f : Frame) (fs : List Frame)
      (later : Bytes → Result (ServerCodecError X) (List Frame) × Bytes)
      (d : Result (ServerCodecError X) (Option Frame) × Bytes)
      → read_next X later d ≡ (ok (f ∷ fs), [])
      → (rest : Bytes) × (d ≡ (ok (some f), rest)) × (later rest ≡ (ok fs, []))
  read_next_ok f fs later (ok (some g), rest) e =
      let (same, left) = keep_ok f g fs (later rest) e in
      (rest, ap (λ h. (ok (some h), rest)) same, left)
  read_next_ok f fs later (ok none, rest) e = absurd cc
  read_next_ok f fs later (err x, rest) e = absurd cc
  read_next_ok f fs later (panic, rest) e = absurd cc

  -- What is decoded in a row are the items, and so are no more.
  items-read_frames :
      (fs : List Frame) (n : ℕ) (s : R.State)
      → read_frames X (length fs) (R.buffered s) ≡ (ok fs, [])
      → length fs < n
      → items n s ≡ map received fs
  items-read_frames fs zero s e h = absurd (omega (arith, h))
  items-read_frames [] (suc n) s e h =
      ap (next_item (λ t. items n t)) (R.next-end s (ap (λ o. o.1) e))
  items-read_frames (f ∷ fs) (suc n) s e h =
      let (rest, decoded, left) =
        read_next_ok f fs (λ b. read_frames X (length fs) b) (server_decode X (R.buffered s)) e in
      let (t, next, kept) = R.next-frame s f rest decoded in
      ap (next_item (λ u. items n u)) next
      ∙ ap (λ l. received f ∷ l)
          (items-read_frames fs n t (ap (λ b. read_frames X (length fs) b) kept ∙ left)
            (omega (arith, h)))

  -- A client sends CONNECT, which the authenticator accepts, and then frames, all with payloads of at
  -- most 1 MiB, and closes its end. If CONNECT is in time, the server's run over these bytes sends
  -- INFO and nothing else, also where CONNECT asks for an OK for each PUBLISH by `verbose`, gets
  -- through all the frames, and ends without an error.
  pub run-send_all :
      {L : Type 0} (config : ServerConfig L) (client_id : ClientId) (authenticator : Authenticator)
      (c : Connect) (fs : List Frame) (ps : List Bytes) (w : Bytes) (n : ℕ)
      → authenticator c ≡ accepted
      → CarriesAll X ps (connect_frame c ∷ fs)
      → send_all X (connect_frame c ∷ fs) [] ≡ (ok tt, w)
      → length fs + 1 < n
      → run config client_id authenticator true true (items n (R.from_bytes w)) ≡ (
        outbound_info (record {
          version = 1;
          server_id = config.server_id;
          server_name = config.server_name;
          max_payload = 1048576;
          client_id = client_id.value;
          requires_auth = config.requires_auth;
          tls_verify = config.tls_verify;
        })
            ∷ [],
        ok tt,
      )
  run-send_all config client_id authenticator c fs ps w n accepts carried sent enough =
      let (v, sends, reads) = read_frames-send_all X (connect_frame c ∷ fs) ps [] [] carried in
      let same : v ++ [] ≡ w = append-nil v ∙ ap (λ o. o.1) (sym sends ∙ sent) in
      let arrived : items n (R.from_bytes w) ≡ received (connect_frame c) ∷ map received fs =
        items-read_frames (connect_frame c ∷ fs) n (R.from_bytes w)
          (ap (λ b. read_frames X (length (connect_frame c ∷ fs)) b)
              (R.buffered-from_bytes w ∙ sym same)
            ∙ reads)
          (omega (arith, enough)) in
      pair_eq (run config client_id authenticator true true (items n (R.from_bytes w)))
        (run_greets config client_id authenticator true (items n (R.from_bytes w))).0
        ((run_ok_iff config client_id authenticator true true (items n (R.from_bytes w))).1 (
          refl,
          refl,
          (
            c,
            fs,
            accepts,
            arrived ∙ ap (λ l. received (connect_frame c) ∷ l) (sym (append-nil (map received fs))),
          ),
        ))
