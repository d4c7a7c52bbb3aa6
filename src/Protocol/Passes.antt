-- ===== src/Protocol/Passes.antt =====
-- The first integration test of crates/server/tests/protocol.rs against the server of the model.
use ocypode.Prelude.{
  ℕ, ◌+◌, ◌^◌, ◌≤◌, ◌<◌, ◌≡◌, refl, Bool, true, some, List, [], map, All, arith, Bytes, length,
  lt→ltb, bytes_eq, Result, ok,
}
use ocypode.Identity.{counter_after}
use ocypode.Config.{new_config}
use ocypode.Parser.{Crates, maximum_payload_bytes, info_frame, OutboundMessage}
use ocypode.Parser.Code.{default_info, client_connect}
use ocypode.Parser.Framed.{FramedWrite}
use ocypode.Parser.Exchange.{Restores}
use ocypode.Parser.Reader
use ocypode.Parser.Reader.{
  Read, Reading, read_next_client_frame, write_client_frame, after_decode, outcome, bytes_of,
  joined, NonEmpty,
}
use ocypode.Client.{Authenticator, ClientError, Item}
use ocypode.Client.Channel.{Mpsc, finished, Outbound, opened, Turns}
use ocypode.Client.Conversation.{greeting, fresh_writer, info_arrives}
use ocypode.Client.Start.{Wiring, handle_bidirectional_stream}
use ocypode.Quic.{S2n}
use ocypode.Protocol.{Dialer, test_config, verify_info, open_stream, info_then_connect_over_quic}
use ocypode.Protocol.Reads.{read_empties, write-connect}

module _ {X : Crates} (Q : S2n) (D : Dialer X Q.SocketAddr) {P : Type 0} where
  -- INFO of the server passes the assertions, whatever the number of the client.
  verify-greeting :
      {L : Type 0} (info_level : L) (seconds n : ℕ)
      → verify_info Q D {P = P} (greeting (test_config info_level seconds) (n + 1)) ≡ ok tt
  unfolding test_config new_config default_info bytes_eq
  verify-greeting info_level seconds n = rw (lt→ltb 0 (n + 1) (omega arith)) refl

module _ {X : Crates} {E L P : Type 0} (Q : S2n) (D : Dialer X Q.SocketAddr)
    (parse : Bytes → Result Q.Error Q.SocketAddr) (try_exists : Bytes → Result P Bool)
    (info_level : L) (T : Wiring) (M : Mpsc) (W : FramedWrite X E T.FramedWrite) where
  -- `info_then_connect_over_quic` passes, if the following holds. The server of the test is up, and
  -- the stream of the client is open. The server's handler of it, n clients after the start, where
  -- n + 1 is below 2^64, can make its channel and ends somehow; its writer starts with nothing
  -- written, takes turns with the sender in any order, and has finished. The client gets what was
  -- written, in any pieces that are not empty, and its writes and its closing succeed. prost restores
  -- INFO from at most 1 MiB, and CONNECT from less than 4 GiB.
  pub info_then_connect_passes :
      (link : D.Stream) (stream : T.Transport) (authenticator : Authenticator) (n : ℕ)
      (timely : Bool) (items : List (Item X)) (queue : M.Queue) (sent : List OutboundMessage)
      (r : Result (ClientError X) (Unit {0})) (s : Outbound M T.FramedWrite) (p q : Bytes)
      (chunks : List Bytes)
      → n + 1 < 2 ^ 64
      → M.channel (test_config info_level 5).quic.outbound_channel_capacity ≡ some queue
      → handle_bidirectional_stream T M stream
          (test_config info_level 5)
          authenticator
          (counter_after n)
          true
          timely
          items
        ≡ some (sent, r)
      → (W.written (fresh_writer T M W stream (test_config info_level 5)) ≡ [])
        × (W.buffered (fresh_writer T M W stream (test_config info_level 5)) ≡ [])
      → Turns W.feed W.flush
          (opened queue (fresh_writer T M W stream (test_config info_level 5)))
          sent
          s
      → s.writer ≡ finished
      → Restores X X.info (greeting (test_config info_level 5) (n + 1)) p
      → length p ≤ maximum_payload_bytes
      → All (NonEmpty X) chunks
      → joined X chunks ≡ W.written s.sink
      → open_stream X Q D parse try_exists info_level 5 ≡ ok link
      → D.reads link ≡ map Reader.received chunks
      → Restores X X.connect (client_connect 1 true) q
      → length q < 2 ^ 32
      → ((i : ℕ) (b : Bytes) → D.write_all link i b ≡ ok tt)
      → D.close link ≡ ok tt
      → info_then_connect_over_quic X Q D parse try_exists info_level ≡ ok true
  unfolding info_then_connect_over_quic
  info_then_connect_passes link stream authenticator n timely items queue sent r s p q chunks small
        made handled new_writer turns over restores fits filled cut reached reads written short
        writes closed =
      let greeted =
        info_arrives T M W stream (test_config info_level 5) authenticator n timely items queue sent
          r s p chunks small made handled new_writer turns over restores fits filled cut in
      let read =
        read_empties X chunks (info_frame (greeting (test_config info_level 5) (n + 1))) filled
          greeted in
      rw
        (
          reached,
          reads,
          read,
          verify-greeting Q D {P = P} info_level 5 n,
          write-connect X (D.write_all link 0) (client_connect 1 true) q written short (writes 0),
          write-connect X (D.write_all link 1) (client_connect 1 true) q written short (writes 1),
          closed,
        )
        refl
