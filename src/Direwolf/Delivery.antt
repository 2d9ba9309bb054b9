-- ===== src/Direwolf/Delivery.antt =====
-- From `SendFrame` of one station to `OnFrame` of another.
use rfmpd.Base.{
  All, Bytes, List, [], ap, append-nil, append_assoc, arith, concat, length, map, refl, true, ℕ,
  ◌++◌, ◌<◌, ◌∙◌, ◌∷◌, ◌≡◌, ◌≤◌,
}
use rfmpd.Base.Int.{pos}
use rfmpd.Kiss.{KissFrame, kiss_data_frame, encode, new_kiss_protocol, encode_data, decode_frames}
use rfmpd.Kiss.Stream.{decode_frames-append}
use rfmpd.Kiss.Sequence.{decode_frames-encode_all, encode_all, IsDataFrame}
use rfmpd.Ax25.{
  Ax25Address, Ax25Frame, ok, parse_address, address_string, encode_frame, create_ui_frame,
}
use rfmpd.Ax25.Address.{IsCallsignByte}
use rfmpd.Ax25.Names.{IsName, parse-address_string}
use rfmpd.Ax25.Frame.{IsFrame, decode-encode_frame}
use rfmpd.Direwolf.{
  DirewolfClient, full_callsign, rfmp_address, ui_info, dispatch, receive, read_bytes, Event, read,
  step, run, SendResult, written, send_frame,
}

-- A station name that an AX.25 header and the textual form can both hold.
pub record IsStation (c : DirewolfClient) (ssid : ℕ) : Type 0 where
  pub name : IsName c.callsign
  pub bytes : All IsCallsignByte c.callsign
  pub short : length c.callsign ≤ 6
  pub ssid_is : c.ssid ≡ pos ssid
  pub ssid_lt : ssid < 16

abbrev pub own_address : DirewolfClient → ℕ → Ax25Address
own_address c ssid = record { callsign = c.callsign; ssid = ssid }

abbrev pub rfmp : Ax25Address
rfmp = record { callsign = rfmp_address; ssid = 0 }

abbrev pub ui_frame : DirewolfClient → ℕ → Bytes → Ax25Frame
ui_frame c ssid info = record {
  destination = rfmp;
  source = own_address c ssid;
  digipeaters = [];
  control = 0x03;
  pid = 0xF0;
  info = info;
}

-- `fullCallsign` is the printed form of the station's address.
full_callsign-address_string :
    (c : DirewolfClient) (ssid : ℕ)
    → c.ssid ≡ pos ssid
    → full_callsign c.callsign c.ssid ≡ address_string (own_address c ssid)
full_callsign-address_string c ssid e = rw e (unfold full_callsign address_string in refl)

parse_rfmp : parse_address rfmp_address ≡ ok rfmp
unfolding parse_address
parse_rfmp = refl

module _ (c : DirewolfClient) (ssid : ℕ) (v : IsStation c ssid) where
  create_own_frame :
      (info : Bytes)
      → create_ui_frame (full_callsign c.callsign c.ssid) rfmp_address info
        ≡ ok (ui_frame c ssid info)
  create_own_frame info =
      let e : parse_address (full_callsign c.callsign c.ssid) ≡ ok (own_address c ssid) =
        rw (full_callsign-address_string c ssid v.ssid_is)
          (parse-address_string (own_address c ssid) v.name v.short v.ssid_lt) in
      unfold create_ui_frame in rw (e, parse_rfmp)

  ui_frame-IsFrame : (info : Bytes) → IsFrame (ui_frame c ssid info)
  ui_frame-IsFrame info = record {
    destination_ok = record {
      callsign_bytes = ground arith;
      callsign_le = omega arith;
      ssid_lt = omega arith;
    };
    source_ok = record { callsign_bytes = v.bytes; callsign_le = v.short; ssid_lt = v.ssid_lt };
    digipeaters_ok = tt;
  }

  -- The KISS frame that carries an information field.
  abbrev pub data_frame : Bytes → KissFrame
  data_frame info = record {
    port = c.kiss.port;
    command = kiss_data_frame;
    payload = encode_frame (ui_frame c ssid info);
  }

  pub send_frame-written :
      (info : Bytes) → c.conn ≡ true → send_frame c info ≡ written (encode (data_frame info))
  send_frame-written info h = unfold send_frame encode_data in rw (h, create_own_frame info)

  dispatch-data_frames : (infos : List Bytes) → dispatch (map data_frame infos) ≡ infos
  unfolding dispatch ui_info
  dispatch-data_frames [] = refl
  dispatch-data_frames (i ∷ is) =
      rw (decode-encode_frame (ui_frame c ssid i) (ui_frame-IsFrame i), dispatch-data_frames is)

  data_frames-IsDataFrame :
      (infos : List Bytes) → c.kiss.port < 16 → All IsDataFrame (map data_frame infos)
  data_frames-IsDataFrame [] h = tt
  data_frames-IsDataFrame (i ∷ is) h = ((h, refl), data_frames-IsDataFrame is h)

abbrev bytes_of : SendResult → Bytes
bytes_of (written bs) = bs
bytes_of _ = []

-- The bytes on the wire after a station has sent each information field in turn.
pub sent_bytes : DirewolfClient → List Bytes → Bytes
sent_bytes c [] = []
sent_bytes c (i ∷ is) = bytes_of (send_frame c i) ++ sent_bytes c is

-- The events of reading the chunks in turn.
abbrev pub reads : List Bytes → List Event
reads = map (λ b. read (read_bytes b))

dispatch-append : (xs ys : List KissFrame) → dispatch (xs ++ ys) ≡ dispatch xs ++ dispatch ys
unfolding dispatch
dispatch-append [] ys = refl
dispatch-append (x ∷ xs) ys = rw (dispatch-append xs ys, append_assoc)

step_read :
    (c : DirewolfClient) (b : Bytes)
    → c.conn ≡ true
    → step c (read (read_bytes b))
      ≡ (record c { kiss = (decode_frames c.kiss b).1 }, dispatch (decode_frames c.kiss b).0)
unfolding step receive
step_read c b h = rw h

-- Reading chunk by chunk hands over what reading all at once would.
run-reads :
    (chunks : List Bytes) (c : DirewolfClient) (b : Bytes)
    → c.conn ≡ true
    → (run c (reads (b ∷ chunks))).1 ≡ dispatch (decode_frames c.kiss (b ++ concat chunks)).0
unfolding run
run-reads [] c b h =
    rw (step_read c b h, append-nil (dispatch (decode_frames c.kiss b).0), append-nil b)
run-reads (b' ∷ chunks) c b h =
    let later = run-reads chunks (record c { kiss = (decode_frames c.kiss b).1 }) b' h in
    rw (step_read c b h, decode_frames-append c.kiss b (b' ++ concat chunks), dispatch-append)
      (ap (◌++◌ (dispatch (decode_frames c.kiss b).0)) later)

sent_bytes-encode_all :
    (c : DirewolfClient) (ssid : ℕ) (v : IsStation c ssid) (infos : List Bytes)
    → c.conn ≡ true
    → sent_bytes c infos ≡ encode_all (map (data_frame c ssid v) infos)
unfolding sent_bytes
sent_bytes-encode_all c ssid v [] h = refl
sent_bytes-encode_all c ssid v (i ∷ is) h =
    rw (send_frame-written c ssid v i h, sent_bytes-encode_all c ssid v is h)

-- A connected station sends some information fields. A second client, connected and with an
-- empty receive buffer, is handed exactly these, in order, however the bytes on the wire are cut
-- into chunks.
pub run-sent_bytes :
    (c r : DirewolfClient) (ssid : ℕ) (infos : List Bytes) (b : Bytes) (chunks : List Bytes)
    → IsStation c ssid
    → c.conn ≡ true
    → c.kiss.port < 16
    → r.conn ≡ true
    → r.kiss ≡ new_kiss_protocol r.kiss.port
    → b ++ concat chunks ≡ sent_bytes c infos
    → (run r (reads (b ∷ chunks))).1 ≡ infos
run-sent_bytes c r ssid infos b chunks v hc hp hr hk e =
    run-reads chunks r b hr
    ∙ ap (λ w. dispatch (decode_frames r.kiss w).0) (e ∙ sent_bytes-encode_all c ssid v infos hc)
    ∙ ap (λ k. dispatch (decode_frames k (encode_all (map (data_frame c ssid v) infos))).0) hk
    ∙ ap dispatch (
        decode_frames-encode_all r.kiss.port (map (data_frame c ssid v) infos)
          (data_frames-IsDataFrame c ssid v infos hp))
    ∙ dispatch-data_frames c ssid v infos
