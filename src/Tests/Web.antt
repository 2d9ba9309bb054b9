-- ===== src/Tests/Web.antt =====
-- The handlers of the API, with natural numbers for floating-point ones.
use rfmpd.Base.{
  All, Bytes, [], arith, false, length, none, refl, some, true, ℕ, ◌<◌, ◌∷◌, ◌≡◌, ◌≢◌, ◌≤◌,
}
use rfmpd.Base.Int.{pos}
use rfmpd.Text.{itoa, text, to_upper, trim_space, trim_left, trim_right}
use rfmpd.Message.{generate_message_id}
use rfmpd.Frames.{Msg, msg_to_dict}
use rfmpd.Wire.{
  encode, msg_value, encoded, encode_error, nil_dereference, encode_msg_raw, msg_to_pb,
}
use rfmpd.Fragments.{fragment_message, fragment_bytes, new_fragmenter}
use rfmpd.Direwolf.{not_connected, send_frame, written, bad_address, connect, full_callsign}
use rfmpd.Ax25.{create_ui_frame, parse_address, ssid_out_of_range}
use rfmpd.Storage.{empty_database, save_message_with_seq}
use rfmpd.Storage.Messages.{conflicts, max_seq}
use rfmpd.Config.{Config, default_config}
use rfmpd.Daemon.{Daemon, own_callsign, set_callsign}
use rfmpd.Daemon.Sending.{send_message, finish_message, new_msg}
use rfmpd.Daemon.Transmit.{crashed, transmit_step}
use rfmpd.Daemon.Transmit
use rfmpd.Api.{Server, Response, post, answer, sent_message, new_daemon}
use rfmpd.Api.Requests.{all_bytes, is_channel_name, is_callsign_name}
use rfmpd.Api.Messages.{PostRequest, post_message, post_decoded, finish_post}
use rfmpd.Api.Settings.{
  handle_callsign, post_callsign, store_callsign, save_path, merge_config, put_config,
}
use rfmpd.Api.Posting.{post_message-ne-crashed, post_message-sent}
use rfmpd.Api.Callsigns.{handle_callsign-send_frame}
use rfmpd.Api.Unchecked.{put_config_unchecked}
use rfmpd.Tests.Data.{print_frame, proto, json, json_back, field, print_msg}
use rfmpd.Tests.Node.{client, node, delay}

abbrev pub config : Config ℕ
config = default_config 1 1

abbrev pub server : Server ℕ
server = record {
  daemon = node;
  config = config;
  config_path = text "/etc/rfmpd/config.yaml";
  written = none;
  restarting = false;
  halting = false;
}

abbrev pub request : PostRequest
request = record {
  channel = text "general";
  body = text "hi";
  reply_to = none;
  author = some (text "bob");
}

-- In place of SHA-256, which is a parameter.
abbrev pub six_bytes : Bytes → Bytes
six_bytes bs = 1 ∷ 2 ∷ 3 ∷ 4 ∷ 5 ∷ 6 ∷ []

six_bytes-bytes : (bs : Bytes) → (6 ≤ length (six_bytes bs)) × All (λ b. b < 256) (six_bytes bs)
six_bytes-bytes bs = (
  omega arith,
  (omega arith, (omega arith, (omega arith, (omega arith, (omega arith, (omega arith, tt)))))),
)

abbrev pub sent : Msg
sent =
    new_msg json proto six_bytes 1700000000 (text "general") (text "hi") none (some (text "bob"))
      node 1

abbrev posted : Server ℕ × Response ℕ
posted = post_message json proto six_bytes 1700000000 delay (some request) server

posted-sent : posted ≡ (posted.0, answer 201 (sent_message sent))
unfolding post_message post_decoded is_channel_name all_bytes finish_post send_message
    finish_message save_message_with_seq conflicts max_seq
posted-sent = refl

post_message-ne-crashed_example : transmit_step json proto 1700000007 true posted.0.daemon ≢ crashed
unfolding fragment_message fragment_bytes encode_msg_raw msg_to_pb print_msg field new_fragmenter
    max_seq own_callsign full_callsign new_msg generate_message_id
post_message-ne-crashed_example =
    post_message-ne-crashed json proto six_bytes 1700000000 1700000007 delay true (some request)
      server posted.0 sent six_bytes-bytes (omega arith) (omega arith) posted-sent refl refl
      (json_back (msg_to_dict sent)) (omega arith)

abbrev sent_bytes : Bytes
sent_bytes = elim (encode proto (msg_value (some sent))) [
  | encoded bs ↦ bs
  | encode_error ↦ []
  | nil_dereference ↦ []
]

abbrev sent_frame : Bytes
sent_frame = elim (send_frame client sent_bytes) [
  | not_connected ↦ []
  | bad_address e ↦ []
  | written ws ↦ ws
]

encode-sent : encode proto (msg_value (some sent)) ≡ encoded sent_bytes
unfolding encode print_frame
encode-sent = refl

send_frame-sent : send_frame client sent_bytes ≡ written sent_frame
unfolding send_frame full_callsign itoa create_ui_frame parse_address
send_frame-sent = refl

post_message-sent_example :
    (e : Daemon) × (transmit_step json proto 1700000007 true posted.0.daemon
      ≡ Transmit.sent e sent_frame)
unfolding fragment_message fragment_bytes encode_msg_raw msg_to_pb print_msg field new_fragmenter
    max_seq own_callsign full_callsign new_msg generate_message_id
post_message-sent_example =
    post_message-sent json proto six_bytes 1700000000 1700000007 delay (some request) server
      posted.0 sent sent_bytes sent_frame six_bytes-bytes (omega arith) (omega arith) posted-sent
      refl refl (json_back (msg_to_dict sent)) (omega arith) encode-sent send_frame-sent

handle_callsign-send_frame_example :
    (bs : Bytes) × (send_frame
        (handle_callsign post (some (text " n0call", pos 15)) server).0.daemon.direwolf
        (1 ∷ 2 ∷ [])
      ≡ written bs)
unfolding handle_callsign post_callsign is_callsign_name all_bytes to_upper trim_space trim_left
    trim_right store_callsign set_callsign
handle_callsign-send_frame_example =
    handle_callsign-send_frame (some (text " n0call", pos 15)) server (1 ∷ 2 ∷ []) refl refl

abbrev wrong_ssid : Config ℕ
wrong_ssid = record config { node = record (config.node) { ssid = pos 16 } }

put_config_unchecked_example :
    (c : Config ℕ) × ((put_config wrong_ssid server).0.written ≡ some c)
    × ((put_config wrong_ssid server).1.code ≡ 200)
    × (send_frame (connect (new_daemon c empty_database).direwolf) (1 ∷ [])
        ≡ bad_address ssid_out_of_range)
unfolding save_path merge_config default_config to_upper trim_space trim_left trim_right
put_config_unchecked_example =
    put_config_unchecked wrong_ssid server empty_database 16 (1 ∷ []) refl refl (ground arith) refl
      (omega arith) (omega arith)
