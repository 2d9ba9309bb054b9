-- ===== src/Ax25.antt =====
-- internal/network/ax25.go: AX.25 addresses and UI frames.
-- `Address` proves the laws of addresses, `Frame` the round trip of frames.
pub mod Address
pub mod Frame
pub mod Names
use Prim.Native.Nat.{bit_and, bit_or}
use rfmpd.Base.{
  Bool, Bytes, List, Option, [], drop, false, get_or, if◌then◌else◌, is_empty, leb, length, ltb,
  map, none, replicate, some, suc, take, true, zero, ℕ, ◌%◌, ◌*◌, ◌++◌, ◌-◌, ◌/◌, ◌==◌, ◌>>=◌, ◌∷◌,
}
use rfmpd.Base.Int.{ℤ, pos, negsuc, to_ℕ}
use rfmpd.Text.{to_upper, cut, atoi, itoa_ℕ}

-- `AX25Address`. Both functions that make one keep the SSID in 0-15, so it is never negative.
pub record Ax25Address : Type 0 where
  pub callsign : Bytes
  pub ssid : ℕ

pub data AddressError : Type 0 where
  callsign_too_long bad_ssid ssid_out_of_range : AddressError

pub data Result {ℓ} (A : Type ℓ) : Type ℓ where
  ok : A → Result A
  err : AddressError → Result A

-- the test `ssid < 0 || ssid > 15`
abbrev pub in_ssid_range : ℤ → Bool
in_ssid_range (pos n) = leb n 15
in_ssid_range (negsuc n) = false

unfoldable pub new_address : Bytes → ℤ → Result Ax25Address
unfolding to_upper
new_address callsign ssid =
    if ltb 6 (length (to_upper callsign))
    then err callsign_too_long
    else if in_ssid_range ssid
    then ok (record { callsign = to_upper callsign; ssid = to_ℕ ssid })
    else err ssid_out_of_range

abbrev parse_ssid : Bytes → Option ℤ → Result Ax25Address
parse_ssid callsign none = err bad_ssid
parse_ssid callsign (some ssid) =
    if in_ssid_range ssid then new_address callsign ssid else err ssid_out_of_range

abbrev parse_cut : Bytes → Option (Bytes × Bytes) → Result Ax25Address
parse_cut s none = new_address s (pos 0)
parse_cut s (some (callsign, ssid_str)) = parse_ssid callsign (atoi ssid_str)

unfoldable pub parse_address : Bytes → Result Ax25Address
unfolding new_address cut atoi
parse_address s = parse_cut s (cut b'-' s)

-- `String`
unfoldable pub address_string : Ax25Address → Bytes
unfolding itoa_ℕ
address_string a = if a.ssid == 0 then a.callsign else a.callsign ++ (b'-' ∷ itoa_ℕ a.ssid)

-- The callsign, padded with blanks up to six bytes.
unfoldable pub padded : Bytes → Bytes
padded callsign = callsign ++ replicate (6 - length callsign) b' '

unfoldable pub ssid_byte : ℕ → Bool → ℕ
ssid_byte ssid is_last =
    let b = bit_or 0x60 ((ssid * 2) % 256) in if is_last then bit_or b 0x01 else b

unfoldable pub encode_address : Ax25Address → Bool → Bytes
unfolding padded ssid_byte
encode_address a is_last =
    map (λ c. (c * 2) % 256) (take 6 (padded a.callsign)) ++ ssid_byte a.ssid is_last ∷ []

-- the loop over the six shifted characters
unfoldable pub read_chars : Bytes → Bytes
read_chars [] = []
read_chars (b ∷ bs) = let c = b / 2 in if c == b' ' then read_chars bs else c ∷ read_chars bs

unfoldable pub decode_address : Bytes → Option Ax25Address
unfolding read_chars
decode_address bs =
    if length bs == 7
    then some
        (record { callsign = read_chars (take 6 bs); ssid = bit_and (get_or bs 6 0 / 2) 0x0F })
    else none

pub record Ax25Frame : Type 0 where
  pub destination : Ax25Address
  pub source : Ax25Address
  pub digipeaters : List Ax25Address
  pub control : ℕ
  pub pid : ℕ
  pub info : Bytes

unfoldable pub encode_digipeaters : List Ax25Address → Bytes
unfolding encode_address
encode_digipeaters [] = []
encode_digipeaters (d ∷ []) = encode_address d true
encode_digipeaters (d ∷ e ∷ ds) = encode_address d false ++ encode_digipeaters (e ∷ ds)

unfoldable pub encode_frame : Ax25Frame → Bytes
unfolding encode_digipeaters
encode_frame f =
    encode_address f.destination false
    ++ (encode_address f.source (is_empty f.digipeaters)
        ++ (encode_digipeaters f.digipeaters ++ (f.control ∷ f.pid ∷ f.info)))

-- The `for` loop over digipeaters, from `idx` on; each round takes seven bytes.
unfoldable pub read_digipeaters : ℕ → Bytes → List Ax25Address × Bytes
unfolding decode_address
read_digipeaters zero bs = ([], bs)
read_digipeaters (suc fuel) bs =
    let rest = read_digipeaters fuel (drop 7 bs) in
    elim (leb 7 (length bs)) [
      | false ↦ ([], bs)
      | true ↦ elim (decode_address (take 7 bs)) [
        | none ↦ ([], bs)
        | some digi ↦
            if bit_and (get_or bs 6 0) 0x01 == 0
            then (digi ∷ rest.0, rest.1)
            else (digi ∷ [], drop 7 bs)
      ]
    ]

-- control, PID and info, with the two range checks
unfoldable pub finish_frame :
    Ax25Address → Ax25Address → List Ax25Address → Bytes → Option Ax25Frame
finish_frame dest src digis [] = none
finish_frame dest src digis (control ∷ []) = none
finish_frame dest src digis (control ∷ pid ∷ info) = some (record {
  destination = dest;
  source = src;
  digipeaters = digis;
  control = control;
  pid = pid;
  info = info;
})

unfoldable pub decode_frame : Bytes → Option Ax25Frame
unfolding read_digipeaters finish_frame
decode_frame bs = if ltb (length bs) 16 then none else do
  dest ← decode_address (take 7 bs)
  src ← decode_address (take 7 (drop 7 bs))
  let digis =
      if bit_and (get_or bs 13 0) 0x01 == 0
      then read_digipeaters (length bs) (drop 14 bs)
      else ([], drop 14 bs)
  finish_frame dest src digis.0 digis.1

abbrev then_ok {ℓ κ} : {A : Type ℓ} {B : Type κ} → Result A → (A → Result B) → Result B
then_ok (ok a) f = f a
then_ok (err e) f = err e

unfoldable pub create_ui_frame : Bytes → Bytes → Bytes → Result Ax25Frame
create_ui_frame source destination info = then_ok (parse_address source) λ src.
    then_ok (parse_address destination) λ dst. ok (record {
      destination = dst;
      source = src;
      digipeaters = [];
      control = 0x03;
      pid = 0xF0;
      info = info;
    })
