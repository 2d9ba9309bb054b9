-- ===== src/Tests/Node.antt =====
-- Fragments put together, and messages through the daemon.
use rfmpd.Base.{
  All, Bytes, List, Option, [], arith, concat, length, none, refl, some, true, ℕ, ◌∷◌, ◌≡◌, ◌≤◌,
}
use rfmpd.Base.Int.{pos}
use rfmpd.Text.{text, text_eq, itoa}
use rfmpd.Message.Timestamp.{Time}
use rfmpd.Frames.{Frag, msg_to_dict, is_valid_channel, Msg}
use rfmpd.Wire.{encode_msg_raw, msg_to_pb, encode, msg_value, encoded}
use rfmpd.Fragments.{
  Fragmenter, new_fragmenter, fragment_size, fragment_bytes, fragment_message, chunk,
}
use rfmpd.Fragments.Chunks.{IsPart, payloads, fragment_bytes_lem}
use rfmpd.Kiss.{new_kiss_protocol}
use rfmpd.Direwolf.{DirewolfClient, send_frame, written, full_callsign, not_connected, bad_address}
use rfmpd.Storage.{empty_database, save_message_with_seq}
use rfmpd.Daemon.{Daemon, own_callsign}
use rfmpd.Daemon.Handlers.{handle_msg, handle_received}
use rfmpd.Daemon.Sending.{send_message, finish_message}
use rfmpd.Daemon.Transmit.{crashed, transmit_step}
use rfmpd.Daemon.Relay.{handle_msg-again, handle_msg-send_message}
use rfmpd.Daemon.Queued.{Arrives, transmit_step_crashes}
use rfmpd.Wire.RoundTrip.{FitsWire, decode-encode_msg}
use rfmpd.Storage.Seen.{is_seen}
use rfmpd.Storage.Messages.{conflicts}
use rfmpd.Tests.Data.{
  proto, message, loud_message, id_one, json, json_back, field, print_msg, print_frame,
}
use rfmpd.Tests.Wires.{loud-IsMsg, message_bytes}

-- fragments of at most 25 bytes
abbrev sender : Fragmenter
sender = record { threshold = 40; collectors = [] }

abbrev raw : Bytes
raw = encode_msg_raw proto message

length-raw : length raw ≡ 47
unfolding encode_msg_raw msg_to_pb print_msg field
length-raw = refl

fragment_bytes_lem_example :
    (concat (payloads (fragment_bytes 40 id_one raw)) ≡ raw)
    × All
        (IsPart id_one raw (fragment_size 40) (length (fragment_bytes 40 id_one raw)))
        (fragment_bytes 40 id_one raw)
    × All (λ f. length f.payload ≤ fragment_size 40) (fragment_bytes 40 id_one raw)
fragment_bytes_lem_example = fragment_bytes_lem 40 id_one raw (omega (arith, length-raw))

abbrev part : ℕ → Frag
part i = record { message_id = id_one; idx = i; total = 2; payload = chunk raw 25 i }

-- the second fragment arrives twice, and then the first
abbrev arrivals : List (Time × Frag)
arrivals = (100, part 1) ∷ (120, part 1) ∷ []

abbrev pub client : DirewolfClient
client = record {
  callsign = text "K1";
  ssid = pos 2;
  conn = true;
  connected = true;
  kiss = new_kiss_protocol 0;
}

abbrev pub node : Daemon
node = record {
  db = empty_database;
  fragmenter = new_fragmenter 200;
  callsign = text "K1";
  ssid = pos 2;
  direwolf = client;
  broadcasts = [];
  transmissions = 0;
}

-- a rebroadcast after seven seconds
abbrev pub delay : ℕ → ℕ
delay i = 7

abbrev delays : Bytes → ℕ → ℕ
delays id i = 7

handle_msg-again_example :
    handle_msg json proto 150 delay message (handle_msg json proto 100 delay message node)
    ≡ handle_msg json proto 100 delay message node
handle_msg-again_example = handle_msg-again json proto 100 150 delay delay message message node refl

abbrev loud_bytes : Bytes
loud_bytes = 1 ∷ print_msg (msg_to_pb loud_message)

encode-loud : encode proto (msg_value (some loud_message)) ≡ encoded loud_bytes
unfolding encode print_frame
encode-loud = refl

loud-FitsWire : FitsWire loud_message
loud-FitsWire = record {
  id_six = refl;
  time_from = omega arith;
  time_lt = omega arith;
  reply_six = refl;
  seq_fits = (omega arith, omega arith);
}

loud-Arrives : Arrives json proto node loud_bytes loud_message
unfolding fragment_message fragment_bytes encode_msg_raw msg_to_pb print_msg field new_fragmenter
    text_eq full_callsign itoa is_seen own_callsign
loud-Arrives = record {
  decoded = decode-encode_msg proto loud_message loud_bytes loud-FitsWire encode-loud;
  is_new = refl;
  foreign = refl;
  whole = refl;
  no_queue = refl;
  json_back = json_back (msg_to_dict loud_message);
  msg_ok = loud-IsMsg;
}

abbrev sent_frame : Bytes
sent_frame = elim (send_frame client message_bytes) [
  | not_connected ↦ []
  | bad_address e ↦ []
  | written bs ↦ bs
]

transmit_step_crashes_example :
    transmit_step json proto 107 true (handle_received json proto 100 delay delays loud_bytes node)
    ≡ crashed
unfolding is_valid_channel
transmit_step_crashes_example =
    transmit_step_crashes json proto 100 107 delay delays true node loud_bytes loud_message
      loud-Arrives (omega arith) refl

-- In place of SHA-256, which is a parameter.
abbrev digest : Bytes → Bytes
digest bs = bs

abbrev sending : Option (Daemon × Msg)
sending =
    send_message json proto digest 1700000000 delay (text "general") (text "hi") none
      (some (text "bob")) node

abbrev after_sending : Daemon × Msg
after_sending = elim sending [ none ↦ (node, message) | some p ↦ p ]

sending-after : sending ≡ some (after_sending.0, after_sending.1)
unfolding send_message finish_message save_message_with_seq conflicts
sending-after = refl

handle_msg-send_message_example :
    handle_msg json proto 150 delay (record message { id = after_sending.1.id }) after_sending.0
    ≡ after_sending.0
handle_msg-send_message_example =
    handle_msg-send_message json proto digest 1700000000 150 delay delay (text "general")
      (text "hi") none (some (text "bob")) node after_sending.0 after_sending.1
      (record message { id = after_sending.1.id }) sending-after refl
