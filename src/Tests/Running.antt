-- ===== src/Tests/Running.antt =====
-- A node that starts on an empty database, takes a message from a client, hears from the modem,
-- and starts again.
use rfmpd.Base.{Bytes, List, Option, [], none, refl, some, ℕ, ◌∷◌, ◌≡◌, ◌≤◌}
use rfmpd.Text.{text, text_eq, trim_prefix}
use rfmpd.Message.{generate_message_id, id_to_hex}
use rfmpd.Message.Hex.{hex_encode}
use rfmpd.Daemon.{own_callsign}
use rfmpd.Wire.{encode_msg_raw, msg_to_pb}
use rfmpd.Fragments.{new_fragmenter, fragment_message, fragment_bytes}
use rfmpd.Daemon.Handlers.{queue_message}
use rfmpd.Direwolf
use rfmpd.Config.{default_config}
use rfmpd.Storage.{
  update_user_stats, mark_seen, queue_transmission, count_message, migrate, empty_database,
  save_message_with_seq,
}
use rfmpd.Storage.Messages.{new_row, MessageRow, clock_of, conflicts, max_seq, find_message}
use rfmpd.Storage.Evolution.{content}
use rfmpd.Frames.{Msg}
use rfmpd.Daemon.Sending.{send_saved, sent_data, new_msg, send_message, finish_message}
use rfmpd.Api.{new_daemon, Server, post, get, answer, one_message}
use rfmpd.Api.Requests.{all_bytes, path_param}
use rfmpd.Api.Messages.{handle_messages, post_message, post_decoded, handle_message_by_id}
use rfmpd.System.{
  Event, messages, request, modem, cleaning, sync, restarted, start, run, step, serve,
}
use rfmpd.System.Changes.{IsSound}
use rfmpd.System.Invariant.{run-IsSound}
use rfmpd.System.History.{run-handle_message_by_id, run-clock_of}
use rfmpd.Tests.Data.{print_msg, field, json, proto}
use rfmpd.Tests.Node.{delay}
use rfmpd.Tests.Web.{config, request as post_request, six_bytes}

abbrev path : Bytes
path = text "/etc/rfmpd/config.yaml"

abbrev begun : Server ℕ
begun = start config path empty_database

begun-IsSound : IsSound begun
unfolding start new_daemon migrate default_config Direwolf.new_client
begun-IsSound = record {
  database = record { table = tt; queued = tt; cache = tt };
  callsign = refl;
  ssid = refl;
  modem_callsign = refl;
  modem_ssid = refl;
  connection = refl;
}

abbrev delays : Bytes → ℕ → ℕ
delays id i = 7

abbrev posting : Event ℕ
posting = request 1700000000 delay (messages post ([], [], []) (some post_request))

abbrev later : List (Event ℕ)
later =
    modem 1700000001 delay delays Direwolf.dialed
    ∷ cleaning 1700003600
    ∷ sync 1700003601 0
    ∷ restarted config path
    ∷ []

abbrev or_begun : Option (Server ℕ) → Server ℕ
or_begun none = begun
or_begun (some s) = s

abbrev posted : Server ℕ
posted = or_begun (run json proto six_bytes (posting ∷ []) begun)

run-posted : run json proto six_bytes (posting ∷ []) begun ≡ some posted
unfolding run step serve
run-posted = refl

abbrev ended : Server ℕ
ended = or_begun (run json proto six_bytes later posted)

run-ended : run json proto six_bytes later posted ≡ some ended
unfolding run step serve handle_messages post_message post_decoded all_bytes send_message
    finish_message save_message_with_seq conflicts start new_daemon migrate default_config
run-ended = refl

run-IsSound_example : IsSound ended
run-IsSound_example =
    run-IsSound json proto six_bytes later posted ended
      (run-IsSound json proto six_bytes (posting ∷ []) begun posted begun-IsSound run-posted)
      run-ended

-- the message that is stored
abbrev stored : Msg
stored =
    new_msg json proto six_bytes 1700000000 (text "general") (text "hi") none (some (text "bob"))
      begun.daemon 1

abbrev row : MessageRow
row = new_row 1700000000 (sent_data json proto none (some (text "bob")) stored) (some 1)

abbrev message_path : Bytes
message_path = text "/messages/010203040506"

answer-posted : handle_message_by_id get message_path posted ≡ answer 200 (one_message row)
unfolding handle_message_by_id path_param find_message trim_prefix run step serve handle_messages
    post_message post_decoded all_bytes send_message finish_message save_message_with_seq conflicts
    start new_daemon migrate send_saved update_user_stats mark_seen queue_message queue_transmission
    fragment_message fragment_bytes encode_msg_raw msg_to_pb print_msg field new_fragmenter
    sent_data new_msg default_config count_message text_eq generate_message_id max_seq own_callsign
    Direwolf.full_callsign id_to_hex hex_encode
answer-posted = refl

run-handle_message_by_id_example :
    (q : MessageRow) × (handle_message_by_id get message_path ended ≡ answer 200 (one_message q))
    × (content q ≡ content row)
run-handle_message_by_id_example =
    run-handle_message_by_id json proto six_bytes later posted ended message_path row run-ended
      answer-posted

run-clock_of_example :
    clock_of (text "N0CALL") posted.daemon.db.messages
    ≤ clock_of (text "N0CALL") ended.daemon.db.messages
run-clock_of_example =
    run-clock_of json proto six_bytes later posted ended (text "N0CALL") run-ended
