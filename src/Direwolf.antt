-- ===== src/Direwolf.antt =====
-- internal/network/direwolf.go: the client of the Direwolf TNC.
-- The network is a list of events: what `DialContext` and `conn.Read` return, and the end of the
-- context. `Delivery` proves what a receiver is handed, `Connection` the connection flags.
pub mod Delivery
pub mod Connection
use rfmpd.Base.{
  Bool, Bytes, List, Option, [], false, if◌then◌else◌, none, some, true, ◌&&◌, ◌++◌, ◌==◌, ◌∷◌,
}
use rfmpd.Base.Int.{ℤ, pos, negsuc}
use rfmpd.Text.{itoa}
use rfmpd.Kiss.{KissFrame, KissProtocol, new_kiss_protocol, reset, encode_data, decode_frames}
use rfmpd.Ax25.{
  Ax25Frame, AddressError, Result, ok, err, encode_frame, decode_frame, create_ui_frame,
}

-- `conn` is `conn != nil`. `OnFrame` is set by the daemon before `Run`; its calls are the result.
pub record DirewolfClient : Type 0 where
  pub callsign : Bytes
  pub ssid : ℤ
  pub conn : Bool
  pub connected : Bool
  pub kiss : KissProtocol

unfoldable pub new_client : Bytes → ℤ → DirewolfClient
unfolding new_kiss_protocol
new_client callsign ssid = record {
  callsign = callsign;
  ssid = ssid;
  conn = false;
  connected = false;
  kiss = new_kiss_protocol 0;
}

abbrev pub is_zero : ℤ → Bool
is_zero (pos n) = n == 0
is_zero (negsuc n) = false

-- `fullCallsign` here, and `FullCallsign` of the configuration.
unfoldable pub full_callsign : Bytes → ℤ → Bytes
unfolding itoa
full_callsign callsign ssid = if is_zero ssid then callsign else callsign ++ (b'-' ∷ itoa ssid)

-- `connect`, when `DialContext` succeeds
unfoldable pub connect : DirewolfClient → DirewolfClient
connect c = record c { conn = true; connected = true; kiss = reset c.kiss }

unfoldable pub close : DirewolfClient → DirewolfClient
close c = record c { conn = false; connected = false }

-- the information fields of the UI frames with no layer 3 protocol
unfoldable pub ui_info : Option Ax25Frame → List Bytes
ui_info none = []
ui_info (some f) = if f.control == 0x03 && f.pid == 0xF0 then f.info ∷ [] else []

unfoldable pub dispatch : List KissFrame → List Bytes
dispatch [] = []
dispatch (f ∷ fs) = ui_info (decode_frame f.payload) ++ dispatch fs

-- what `conn.Read` returns
pub data ReadResult : Type 0 where
  read_timeout read_error : ReadResult
  read_bytes : Bytes → ReadResult

-- One round of `receiveLoop` on an open connection, with the calls of `OnFrame`.
unfoldable pub receive : DirewolfClient → ReadResult → DirewolfClient × List Bytes
receive c read_timeout = (c, [])
receive c read_error = (close c, [])
receive c (read_bytes bs) =
    let r = decode_frames c.kiss bs in (record c { kiss = r.1 }, dispatch r.0)

pub data Event : Type 0 where
  dial_failed dialed cancelled : Event
  read : ReadResult → Event

-- `Run` dials while there is no connection, and else stays in `receiveLoop`. An event that the
-- client does not wait for in its state changes nothing.
unfoldable pub step : DirewolfClient → Event → DirewolfClient × List Bytes
step c dial_failed = (c, [])
step c dialed = if c.conn then (c, []) else (connect c, [])
step c cancelled = (close c, [])
step c (read r) = if c.conn then receive c r else (c, [])

unfoldable pub run : DirewolfClient → List Event → DirewolfClient × List Bytes
run c [] = (c, [])
run c (e ∷ es) = let rest = run (step c e).0 es in (rest.0, (step c e).1 ++ rest.1)

pub data SendResult : Type 0 where
  not_connected : SendResult
  bad_address : AddressError → SendResult
  -- the bytes handed to `conn.Write`
  written : Bytes → SendResult

-- "RFMP"
abbrev pub rfmp_address : Bytes
rfmp_address = b'R' ∷ b'F' ∷ b'M' ∷ b'P' ∷ []

abbrev write_frame : DirewolfClient → Result Ax25Frame → SendResult
write_frame c (err e) = bad_address e
write_frame c (ok f) = written (encode_data c.kiss (encode_frame f))

unfoldable pub send_frame : DirewolfClient → Bytes → SendResult
send_frame c info =
    if c.conn
    then write_frame c (create_ui_frame (full_callsign c.callsign c.ssid) rfmp_address info)
    else not_connected
