-- ===== src/Client/Examples.antt =====
-- A run of crates/server/src/client.rs on items, and the theorems at concrete inputs.
use ocypode.Prelude.{◌≡◌, refl, ◌↔◌, true, false, none, some, List, [], ◌∷◌, ok, err, panic}
use ocypode.Parser.{error, server_codec, Frame, connect_frame, unsubscribe_frame, outbound_info}
use ocypode.Parser.Code.{client_connect, default_info}
use ocypode.Parser.Fixtures.{crates}
use ocypode.Client.Fixtures.{config, client_id, keep, mark, delivery}
use ocypode.Client.{no_auth_authenticator, codec_failed, Item, received, failed, run}
use ocypode.Client.Pipeline.{Served, run_ok_iff}
use ocypode.Client.Failures.{Fails, run_err_iff}
use ocypode.Client.Writer.{
  Batch, run_outbound_writer, flushed, infos_of, run_outbound_writer-flushed,
}

abbrev leaving : Frame
leaving = unsubscribe_frame (record { subscription_id = 7 })

abbrev items : List (Item crates)
items = received (connect_frame (client_connect 1 false)) ∷ received leaving ∷ []

handshake_then_frames : (run config client_id no_auth_authenticator true true items).1 ≡ ok tt
unfolding run no_auth_authenticator
handshake_then_frames = refl

run_ok_iff_example :
    ((run config client_id no_auth_authenticator true true items).1 ≡ ok tt)
    ↔ ((true ≡ true) × (true ≡ true) × Served config client_id no_auth_authenticator items [])
run_ok_iff_example = run_ok_iff config client_id no_auth_authenticator true true items

abbrev broken : List (Item crates)
broken =
    received (connect_frame (client_connect 1 false))
    ∷ received leaving
    ∷ failed (server_codec error)
    ∷ received leaving
    ∷ []

run_err_iff_example :
    (((run config client_id no_auth_authenticator true true broken).1
        ≡ err (codec_failed (server_codec error)))
      ↔ Fails no_auth_authenticator true true broken (codec_failed (server_codec error)))
    × ¬ ((run config client_id no_auth_authenticator true true broken).1 ≡ panic)
run_err_iff_example =
    run_err_iff config client_id no_auth_authenticator true true broken
      (codec_failed (server_codec error))

abbrev batches : List Batch
batches =
    record { message = outbound_info default_info; queued = delivery ∷ [] }
    ∷ record { message = delivery; queued = outbound_info default_info ∷ [] }
    ∷ []

written :
    run_outbound_writer keep mark batches []
    ≡ none ∷ some default_info ∷ none ∷ some default_info ∷ []
unfolding run_outbound_writer
written = refl

run_outbound_writer-flushed_example :
    run_outbound_writer keep mark batches [] ≡ flushed keep mark (infos_of batches) []
run_outbound_writer-flushed_example = run_outbound_writer-flushed keep mark batches []
