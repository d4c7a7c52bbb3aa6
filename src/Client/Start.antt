-- ===== src/Client/Start.antt =====
-- `Client::new` of crates/server/src/client.rs, and `handle_bidirectional_stream` of
-- crates/server/src/quic.rs. The framed halves of tokio-util and the transport are parameters.
use ocypode.Prelude.{
  ℕ, ◌+◌, ◌^◌, ◌<◌, ◌≡◌, ap, ◌∙◌, Bool, true, Option, none, some, List, [], ◌∷◌, arith, Result,
}
use ocypode.Identity.{ClientId, next_client_id, counter_after, counter_after_lem}
use ocypode.Config.{ServerConfig}
use ocypode.Parser.{Crates, OutboundMessage, outbound_info}
use ocypode.Client.{Authenticator, ClientError, Item, run}
use ocypode.Client.Channel.{Mpsc, Outbound, opened}
use ocypode.Client.Pipeline.{run_greets}

-- `Transport`, and what `new` uses of tokio-util.
pub record Wiring : Type 1 where
  pub Transport : Type 0
  pub Reader : Type 0
  pub Writer : Type 0
  pub FramedRead : Type 0
  pub FramedWrite : Type 0
  pub into_split : Transport → Reader × Writer
  pub framed_read : Reader → ℕ → FramedRead
  pub framed_write : Writer → ℕ → FramedWrite

-- The sender end is that of the channel whose state is with the writer task.
pub record Client (T : Wiring) (L : Type 0) : Type 0 where
  pub client_id : ClientId
  pub framed_read : T.FramedRead
  pub authenticator : Authenticator
  pub config : ServerConfig L

module _ (T : Wiring) (M : Mpsc) {L : Type 0} where
  abbrev wired :
      T.Transport
      → Authenticator
      → ServerConfig L
      → ClientId × ℕ
      → Option M.Queue
      → Option (Client T L × Outbound M T.FramedWrite × ℕ)
  wired transport authenticator config (client_id, counter) none = none
  wired transport authenticator config (client_id, counter) (some queue) =
      let (reader, writer) = T.into_split transport in
      some (
        record {
          client_id = client_id;
          framed_read = T.framed_read reader config.quic.read_buffer_size;
          authenticator = authenticator;
          config = config;
        },
        opened queue (T.framed_write writer config.quic.write_buffer_size),
        counter,
      )

  -- `Client::new`: the client, its writer task, and the counter; `none` is a panic.
  unfoldable pub new_client :
      T.Transport
      → Authenticator
      → ServerConfig L
      → ℕ
      → Option (Client T L × Outbound M T.FramedWrite × ℕ)
  unfolding next_client_id
  new_client transport authenticator config counter =
      wired transport authenticator config (next_client_id counter)
        (M.channel config.quic.outbound_channel_capacity)

  module _ {X : Crates} where
    abbrev ran :
        Bool
        → Bool
        → List (Item X)
        → Option (Client T L × Outbound M T.FramedWrite × ℕ)
        → Option (List OutboundMessage × Result (ClientError X) (Unit {0}))
    ran open_writer timely items none = none
    ran open_writer timely items (some (c, w, counter)) =
        some (run c.config c.client_id c.authenticator open_writer timely items)

    -- `handle_bidirectional_stream`: what is sent, and the result.
    unfoldable pub handle_bidirectional_stream :
        T.Transport
        → ServerConfig L
        → Authenticator
        → ℕ
        → Bool
        → Bool
        → List (Item X)
        → Option (List OutboundMessage × Result (ClientError X) (Unit {0}))
    unfolding new_client run
    handle_bidirectional_stream stream config authenticator counter open_writer timely items =
        ran open_writer timely items (new_client stream authenticator config counter)

    -- The handler of a stream, when n clients were made before it and its channel can be made, greets
    -- with INFO alone, whose client identifier is n + 1 and so is not 0, for every n below 2^64 - 1.
    pub handle_bidirectional_stream_greets :
        (stream : T.Transport) (config : ServerConfig L) (authenticator : Authenticator) (n : ℕ)
        (timely : Bool) (items : List (Item X)) (queue : M.Queue)
        → n + 1 < 2 ^ 64
        → M.channel config.quic.outbound_channel_capacity ≡ some queue
        → (r : Result (ClientError X) (Unit {0})) × (handle_bidirectional_stream stream config
              authenticator
              (counter_after n)
              true
              timely
              items
            ≡ some (
              outbound_info (record {
                version = 1;
                server_id = config.server_id;
                server_name = config.server_name;
                max_payload = 1048576;
                client_id = n + 1;
                requires_auth = config.requires_auth;
                tls_verify = config.tls_verify;
              })
                  ∷ [],
              r,
            ))
    unfolding handle_bidirectional_stream new_client next_client_id
    handle_bidirectional_stream_greets stream config authenticator n timely items queue small made =
        let id : ClientId = record { value = counter_after n } in
        let counted : counter_after n ≡ n + 1 = counter_after_lem n ∙ omega arith in
        (
          (run config id authenticator true timely items).1,
          ap
                (λ q.
                  ran true timely items
                    (wired stream authenticator config (next_client_id (counter_after n)) q))
                made
              ∙ ap (λ s. some (s, (run config id authenticator true timely items).1))
                  ((run_greets config id authenticator timely items).0
                    ∙ ap
                        (λ k.
                          outbound_info (record {
                            version = 1;
                            server_id = config.server_id;
                            server_name = config.server_name;
                            max_payload = 1048576;
                            client_id = k;
                            requires_auth = config.requires_auth;
                            tls_verify = config.tls_verify;
                          })
                          ∷ [])
                        counted),
        )
