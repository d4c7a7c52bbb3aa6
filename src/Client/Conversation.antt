-- ===== src/Client/Conversation.antt =====
-- INFO on its way from the connection of crates/server/src/client.rs to a client: `Client::run` sends
-- it, the writer feeds it to `FramedWrite`, and the client reads it, as in tests/protocol.rs.
pub mod Fixtures
mod Examples
use ocypode.Prelude.{
  ℕ, ◌+◌, ◌^◌, ◌≤◌, ◌<◌, ◌≡◌, refl, sym, ap, subst, ◌∙◌, Bool, true, false, Option, none, some,
  List, [], ◌∷◌, ◌++◌, append-nil, append_assoc, map, All, Bytes, length, Result, ok, err,
}
use ocypode.Identity.{counter_after}
use ocypode.Message.{Info}
use ocypode.Config.{ServerConfig}
use ocypode.Parser.{
  Crates, maximum_payload_bytes, OutboundMessage, outbound_info, ClientFrame, info_frame,
  ClientCodecError,
}
use ocypode.Parser.Code.{info_codec}
use ocypode.Parser.Framing.{server_encode, client_decode}
use ocypode.Parser.Framed.{FramedWrite}
use ocypode.Parser.Exchange.{Restores, client_decode-server_send}
use ocypode.Parser.Reader
use ocypode.Parser.Reader.{
  read_next_client_frame, outcome, joined, NonEmpty, read_next_client_frame-chunks,
}
use ocypode.Client.{Authenticator, ClientError, Item}
use ocypode.Client.Channel.{Mpsc, finished, Outbound, opened, Turns}
use ocypode.Client.Channel.Fed.{Fed, unfed, fed, flushed}
use ocypode.Client.Channel.Order.{finished-Fed}
use ocypode.Client.Start.{Wiring, handle_bidirectional_stream, handle_bidirectional_stream_greets}
use ocypode.Client.Writer.{infos}

module _ {X : Crates} {E V : Type 0} (W : FramedWrite X E V) where
  -- The frames of these messages in a row.
  abbrev pub frames_of : List Info → Bytes
  frames_of [] = []
  frames_of (i ∷ is) = (server_encode X (info_codec X) i []).1 ++ frames_of is

  frames_of-append : (is js : List Info) → frames_of (is ++ js) ≡ frames_of is ++ frames_of js
  frames_of-append [] js = refl
  frames_of-append (i ∷ is) js =
      ap (λ l. (server_encode X (info_codec X) i []).1 ++ l) (frames_of-append is js)
      ∙ sym (append_assoc (server_encode X (info_codec X) i []).1 (frames_of is) (frames_of js))

  abbrev output : V → Bytes
  output s = W.written s ++ W.buffered s

  output-flush : (s : V) → output (W.flush s).1 ≡ output s
  output-flush s =
      ap (λ b. W.written (W.flush s).1 ++ b) (W.buffered-flush s)
      ∙ append-nil (W.written (W.flush s).1)
      ∙ W.written-flush s

  -- What was fed is written or in the buffer, and nothing is in the buffer behind a flush.
  Fed-output :
      {s : V} {b : Bool} {is : List Info} {t : V}
      → Fed W.feed W.flush s b is t
      → output t ≡ output s ++ frames_of is
  Fed-output {s = s} unfed = sym (append-nil (output s))
  Fed-output {s = s} (fed {is = is} {v = v} i f) =
      W.output-feed i v
      ∙ ap (λ o. o ++ (server_encode X (info_codec X) i []).1) (Fed-output f)
      ∙ append_assoc (output s) (frames_of is) (server_encode X (info_codec X) i []).1
      ∙ ap (λ l. output s ++ (frames_of is ++ l))
          (sym (append-nil (server_encode X (info_codec X) i []).1))
      ∙ ap (λ l. output s ++ l) (sym (frames_of-append is (i ∷ [])))
  Fed-output (flushed {v = v} f) = output-flush v ∙ Fed-output f

  Fed-buffered :
      {s : V} {b : Bool} {is : List Info} {t : V}
      → Fed W.feed W.flush s b is t
      → b ≡ false
      → W.buffered s ≡ []
      → W.buffered t ≡ []
  Fed-buffered unfed e h = h
  Fed-buffered (fed i f) e h = absurd cc
  Fed-buffered (flushed {v = v} f) e h = W.buffered-flush v

  -- A writer that has finished has written the frames of all INFO messages that were sent.
  finished-written :
      {M : Mpsc} (w : V) (n : ℕ) (q : M.Queue) {sent : List OutboundMessage} {s : Outbound M V}
      → M.channel n ≡ some q
      → Turns W.feed W.flush (opened q w) sent s
      → s.writer ≡ finished
      → W.buffered w ≡ []
      → W.written s.sink ≡ W.written w ++ frames_of (infos sent)
  finished-written w n q {sent} {s} made turns over clear =
      let f = finished-Fed W.feed W.flush w n q made turns over in
      sym (append-nil (W.written s.sink))
      ∙ ap (λ b. W.written s.sink ++ b) (sym (Fed-buffered f refl clear))
      ∙ Fed-output f
      ∙ ap (λ b. (W.written w ++ b) ++ frames_of (infos sent)) clear
      ∙ ap (λ b. b ++ frames_of (infos sent)) (append-nil (W.written w))

-- The INFO that the server builds for its client with this number.
abbrev pub greeting : {L : Type 0} → ServerConfig L → ℕ → Info
greeting config client_id = record {
  version = 1;
  server_id = config.server_id;
  server_name = config.server_name;
  max_payload = 1048576;
  client_id = client_id;
  requires_auth = config.requires_auth;
  tls_verify = config.tls_verify;
}

module _ {X : Crates} {E L : Type 0} (T : Wiring) (M : Mpsc)
    (W : FramedWrite X E T.FramedWrite) where
  -- The framed writer of a new client.
  abbrev pub fresh_writer : T.Transport → ServerConfig L → T.FramedWrite
  fresh_writer stream config = T.framed_write (T.into_split stream).1 config.quic.write_buffer_size

  -- INFO reaches the client. The handler of a stream, n clients after the start, where n + 1 is below
  -- 2^64, can make its channel, sends messages and has some result. If its writer starts with nothing
  -- written, takes turns with the sender in any order, and has finished, then a client that reads what
  -- was written, cut into any pieces that are not empty, reads INFO with the fields of the
  -- configuration and the number n + 1, and nothing is left. Its payload is at most 1 MiB, and prost
  -- restores INFO from it.
  pub info_arrives :
      (stream : T.Transport) (config : ServerConfig L) (authenticator : Authenticator) (n : ℕ)
      (timely : Bool) (items : List (Item X)) (queue : M.Queue) (sent : List OutboundMessage)
      (r : Result (ClientError X) (Unit {0})) (s : Outbound M T.FramedWrite) (p : Bytes)
      (chunks : List Bytes)
      → n + 1 < 2 ^ 64
      → M.channel config.quic.outbound_channel_capacity ≡ some queue
      → handle_bidirectional_stream T M stream config authenticator
          (counter_after n)
          true
          timely
          items
        ≡ some (sent, r)
      → (W.written (fresh_writer stream config) ≡ [])
        × (W.buffered (fresh_writer stream config) ≡ [])
      → Turns W.feed W.flush (opened queue (fresh_writer stream config)) sent s
      → s.writer ≡ finished
      → Restores X X.info (greeting config (n + 1)) p
      → length p ≤ maximum_payload_bytes
      → All (NonEmpty X) chunks
      → joined X chunks ≡ W.written s.sink
      → outcome X (read_next_client_frame X (map Reader.received chunks) [])
        ≡ (ok (some (info_frame (greeting config (n + 1)))), [])
  info_arrives stream config authenticator n timely items queue sent r s p chunks small made handled
        (unwritten, clear) turns over restores fits filled cut =
      let (r', greets) =
        handle_bidirectional_stream_greets T M stream config authenticator n timely items queue
          small made in
      let alone : sent ≡ outbound_info (greeting config (n + 1)) ∷ [] =
        let same : some (sent, r) ≡ some (outbound_info (greeting config (n + 1)) ∷ [], r') =
          sym handled ∙ greets in
        cc same in
      let (f, sends, reads) =
        client_decode-server_send X (info_frame (greeting config (n + 1))) p [] [] restores fits in
      let bytes : joined X chunks ≡ f ++ [] =
        cut
        ∙ finished-written W (fresh_writer stream config) config.quic.outbound_channel_capacity
            queue made turns over clear
        ∙ ap (λ b. b ++ frames_of W (infos sent)) unwritten
        ∙ ap (λ l. frames_of W (infos l)) alone
        ∙ ap (λ o. o.1 ++ []) sends in
      read_next_client_frame-chunks X chunks [] filled ∙ ap (client_decode X) bytes ∙ reads
