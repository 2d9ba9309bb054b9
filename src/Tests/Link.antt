-- ===== src/Tests/Link.antt =====
-- The link: KISS, AX.25 and the client of the TNC.
use rfmpd.Base.{
  Bytes, List, [], append-nil, arith, drop, refl, some, take, take-append-drop, true, ◌++◌, ◌∷◌,
  ◌≡◌,
}
use rfmpd.Base.Int.{pos}
use rfmpd.Text.{text}
use rfmpd.Kiss.{KissFrame, fend, kiss_data_frame, new_kiss_protocol, decode_frames}
use rfmpd.Kiss.Scan.{outside, scan, buffer_of}
use rfmpd.Kiss.{decode_loop, split_at_fend, decode}
use rfmpd.Kiss.Stream.{decode_loop_ends, completed, decode_frames-append, decode_frames-scan}
use rfmpd.Kiss.Sequence.{decode_frames-encode_all, decode_frames_stray_fend, encode_all}
use rfmpd.Ax25.{Ax25Address, Ax25Frame, encode_frame, decode_frame}
use rfmpd.Ax25.Address.{IsAddress}
use rfmpd.Ax25.Frame.{IsFrame, decode-encode_frame}
use rfmpd.Direwolf.{DirewolfClient, run}
use rfmpd.Direwolf.Delivery.{IsStation, run-sent_bytes, sent_bytes, reads}

-- a payload with both bytes that are escaped
abbrev frame_one : KissFrame
frame_one = record { port = 2; command = kiss_data_frame; payload = 0xC0 ∷ 0xDB ∷ 7 ∷ [] }

abbrev frame_two : KissFrame
frame_two = record { port = 2; command = kiss_data_frame; payload = text "abc" }

abbrev frames : List KissFrame
frames = frame_one ∷ frame_two ∷ []

decode_frames-append_example :
    decode_frames (new_kiss_protocol 2) ((0xC0 ∷ 0x00 ∷ 5 ∷ []) ++ 6 ∷ 0xC0 ∷ []) ≡ (
      (decode_frames (new_kiss_protocol 2) (0xC0 ∷ 0x00 ∷ 5 ∷ [])).0
          ++ (decode_frames
              (decode_frames (new_kiss_protocol 2) (0xC0 ∷ 0x00 ∷ 5 ∷ [])).1
              (6 ∷ 0xC0 ∷ [])).0,
      (decode_frames
          (decode_frames (new_kiss_protocol 2) (0xC0 ∷ 0x00 ∷ 5 ∷ [])).1
          (6 ∷ 0xC0 ∷ [])).1,
    )
decode_frames-append_example =
    decode_frames-append (new_kiss_protocol 2) (0xC0 ∷ 0x00 ∷ 5 ∷ []) (6 ∷ 0xC0 ∷ [])

decode_frames-scan_example :
    decode_frames (record { port = 2; buffer = 0xC0 ∷ 0x00 ∷ [] }) (5 ∷ 0xC0 ∷ 9 ∷ 0xC0 ∷ 7 ∷ [])
    ≡ (
      (scan completed outside (0xC0 ∷ 0x00 ∷ 5 ∷ 0xC0 ∷ 9 ∷ 0xC0 ∷ 7 ∷ [])).0,
      record {
        port = 2;
        buffer = buffer_of (scan completed outside (0xC0 ∷ 0x00 ∷ 5 ∷ 0xC0 ∷ 9 ∷ 0xC0 ∷ 7 ∷ [])).1;
      },
    )
decode_frames-scan_example =
    decode_frames-scan (record { port = 2; buffer = 0xC0 ∷ 0x00 ∷ [] })
      (5 ∷ 0xC0 ∷ 9 ∷ 0xC0 ∷ 7 ∷ [])

-- a frame, and one that is not over yet
abbrev cut_short : Bytes
cut_short = 0xC0 ∷ 0x00 ∷ 5 ∷ 0xC0 ∷ 9 ∷ 0xC0 ∷ 7 ∷ []

decode_loop_ends_example :
    (decode_loop 20 cut_short ≡ decode_loop 8 cut_short)
    × (decode_loop 30 (decode_loop 20 cut_short).1 ≡ ([], (decode_loop 20 cut_short).1))
unfolding decode_loop split_at_fend decode
decode_loop_ends_example = decode_loop_ends 20 30 cut_short (omega arith) (omega arith)

decode_frames-encode_all_example :
    (decode_frames (new_kiss_protocol 2) (encode_all frames)).0 ≡ frames
decode_frames-encode_all_example =
    decode_frames-encode_all 2 frames ((omega arith, refl), ((omega arith, refl), tt))

decode_frames_stray_fend_example :
    (decode_frames (new_kiss_protocol 2) (fend ∷ encode_all frames)).0 ≡ []
decode_frames_stray_fend_example = decode_frames_stray_fend 2 frames

abbrev station : Ax25Address
station = record { callsign = text "N0CALL"; ssid = 1 }

abbrev relay : Ax25Address
relay = record { callsign = text "K1"; ssid = 15 }

abbrev ax25_frame : Ax25Frame
ax25_frame = record {
  destination = relay;
  source = station;
  digipeaters = relay ∷ station ∷ [];
  control = 0x03;
  pid = 0xF0;
  info = text "hi";
}

station-IsAddress : IsAddress station
station-IsAddress = record {
  callsign_bytes = ground arith;
  callsign_le = omega arith;
  ssid_lt = omega arith;
}

relay-IsAddress : IsAddress relay
relay-IsAddress = record {
  callsign_bytes = ground arith;
  callsign_le = omega arith;
  ssid_lt = omega arith;
}

ax25_frame-IsFrame : IsFrame ax25_frame
ax25_frame-IsFrame = record {
  destination_ok = relay-IsAddress;
  source_ok = station-IsAddress;
  digipeaters_ok = (relay-IsAddress, (station-IsAddress, tt));
}

decode-encode_frame_example : decode_frame (encode_frame ax25_frame) ≡ some ax25_frame
decode-encode_frame_example = decode-encode_frame ax25_frame ax25_frame-IsFrame

abbrev client : DirewolfClient
client = record {
  callsign = text "N0CALL";
  ssid = pos 1;
  conn = true;
  connected = true;
  kiss = new_kiss_protocol 0;
}

client-IsStation : IsStation client 1
client-IsStation = record {
  name = ground arith;
  bytes = ground arith;
  short = omega arith;
  ssid_is = refl;
  ssid_lt = omega arith;
}

abbrev infos : List Bytes
infos = text "one" ∷ text "two" ∷ []

-- the bytes arrive in two reads, cut after the fifth
run-sent_bytes_example :
    (run client
      (reads (take 5 (sent_bytes client infos) ∷ drop 5 (sent_bytes client infos) ∷ []))).1
    ≡ infos
unfolding new_kiss_protocol
run-sent_bytes_example =
    run-sent_bytes client client 1 infos (take 5 (sent_bytes client infos))
      (drop 5 (sent_bytes client infos) ∷ []) client-IsStation refl (omega arith) refl refl
      (rw (append-nil (drop 5 (sent_bytes client infos)))
        (take-append-drop 5 (sent_bytes client infos)))
