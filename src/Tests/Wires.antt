-- ===== src/Tests/Wires.antt =====
-- Frames, dictionaries, IDs and timestamps.
use rfmpd.Base.{Bytes, [], arith, if◌then◌else◌, leb, none, refl, some, ◌<◌, ◌∷◌, ◌≡◌}
use rfmpd.Message.{IsId}
use rfmpd.Message.Timestamp.{civil}
use rfmpd.Message.Calendar.{year-civil}
use rfmpd.Frames.{Frag, msg_to_dict, msg_from_dict, is_valid_channel}
use rfmpd.Frames.RoundTrip.{IsMsg, msg_from-to_dict}
use rfmpd.Wire.{
  msg, frag, msg_value, frag_value, encode, decode, encoded, msg_to_pb, frag_to_pb, max_fragments,
}
use rfmpd.Wire.RoundTrip.{FitsWire, decode-encode_msg, decode-encode_frag}
use rfmpd.Tests.Data.{proto, message, loud_message, id_one, print_msg, print_frag, print_frame}

pub message-FitsWire : FitsWire message
message-FitsWire = record {
  id_six = refl;
  time_from = omega arith;
  time_lt = omega arith;
  reply_six = refl;
  seq_fits = (omega arith, omega arith);
}

abbrev pub message_bytes : Bytes
message_bytes = 1 ∷ print_msg (msg_to_pb message)

pub encode-message : encode proto (msg_value (some message)) ≡ encoded message_bytes
unfolding encode print_frame
encode-message = refl

decode-encode_msg_example : decode proto message_bytes ≡ some (msg message)
decode-encode_msg_example =
    decode-encode_msg proto message message_bytes message-FitsWire encode-message

abbrev fragment : Frag
fragment = record { message_id = id_one; idx = 255; total = 300; payload = 0 ∷ 255 ∷ [] }

abbrev fragment_wire : Bytes
fragment_wire = 2 ∷ print_frag (frag_to_pb fragment)

encode-fragment : encode proto (frag_value (some fragment)) ≡ encoded fragment_wire
unfolding encode print_frame
encode-fragment = refl

-- one of too many fragments
decode-encode_frag_example :
    decode proto fragment_wire
    ≡ (if leb fragment.total max_fragments then some (frag fragment) else none)
decode-encode_frag_example =
    decode-encode_frag proto fragment fragment_wire refl (omega arith) (omega arith) encode-fragment

id_one-IsId : IsId id_one
id_one-IsId = (refl, ground arith)

message_year : (civil message.time).year < 10000
message_year = year-civil message.time (omega arith)

pub loud-IsMsg : IsMsg loud_message
loud-IsMsg = record {
  id_ok = id_one-IsId;
  year_ok = message_year;
  reply_ok = (refl, ground arith);
  seq_ok = (omega arith, omega arith);
}

pub message-IsMsg : IsMsg message
message-IsMsg = record {
  id_ok = id_one-IsId;
  year_ok = message_year;
  reply_ok = (refl, ground arith);
  seq_ok = (omega arith, omega arith);
}

msg_from-to_dict_example :
    msg_from_dict (msg_to_dict message)
    ≡ (if is_valid_channel message.channel then some message else none)
msg_from-to_dict_example = msg_from-to_dict message message-IsMsg
