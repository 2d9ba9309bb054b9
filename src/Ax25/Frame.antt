-- ===== src/Ax25/Frame.antt =====
-- The round trip of AX.25 frames, with any number of digipeaters.
use Prim.Native.Nat.{bit_and}
use rfmpd.Base.{
  All, Bool, Bytes, List, [], ap, append_assoc, arith, drop, drop-drop, drop-length-append, false,
  get_or, get_or-drop, if◌then◌else◌, is_empty, leb, length, length-append, le→leb, ltb, refl, some,
  suc, sym, take, take-length-append, true, zero, ℕ, ◌++◌, ◌+◌, ◌<◌, ◌==◌, ◌∙◌, ◌∷◌, ◌≡◌, ◌≤◌,
}
use rfmpd.Ax25.{
  Ax25Address, Ax25Frame, encode_address, decode_address, encode_digipeaters, encode_frame,
  read_digipeaters, finish_frame, decode_frame,
}
use rfmpd.Ax25.Address.{
  IsAddress, ssid_byte_lem, length-encode_address, get_or-encode_address, decode-encode_address,
}

-- Every address of the frame can be held by an AX.25 header.
pub record IsFrame (f : Ax25Frame) : Type 0 where
  pub destination_ok : IsAddress f.destination
  pub source_ok : IsAddress f.source
  pub digipeaters_ok : All IsAddress f.digipeaters

-- What the decoder sees at the front of an encoded address.
module _ (a : Ax25Address) (last : Bool) (rest : Bytes) (v : IsAddress a) where
  take-encode_address : take 7 (encode_address a last ++ rest) ≡ encode_address a last
  take-encode_address =
      rw (length-encode_address a last v) at (take-length-append (encode_address a last) rest)

  drop-encode_address : drop 7 (encode_address a last ++ rest) ≡ rest
  drop-encode_address =
      rw (length-encode_address a last v) at (drop-length-append (encode_address a last) rest)

  extension_bit :
      bit_and (get_or (encode_address a last ++ rest) 6 0) 0x01 ≡ (if last then 1 else 0)
  extension_bit = rw (get_or-encode_address a last rest v) ((ssid_byte_lem a.ssid last v.ssid_lt).1)

  length-encode_address-append : length (encode_address a last ++ rest) ≡ 7 + length rest
  length-encode_address-append =
      omega (arith, length-append (encode_address a last) rest, length-encode_address a last v)

-- One round of the loop over the digipeaters.
module _ (fuel : ℕ) (d : Ax25Address) (rest : Bytes) (v : IsAddress d) where
  round_last : read_digipeaters (suc fuel) (encode_address d true ++ rest) ≡ (d ∷ [], rest)
  unfolding read_digipeaters
  round_last =
      let l : leb 7 (length (encode_address d true ++ rest)) ≡ true =
        le→leb _ _ (omega (arith, length-encode_address-append d true rest v)) in
      ground (
        arith,
        l,
        take-encode_address d true rest v,
        decode-encode_address d true v,
        extension_bit d true rest v,
        drop-encode_address d true rest v,
      )

  round_more :
      read_digipeaters (suc fuel) (encode_address d false ++ rest)
      ≡ (d ∷ (read_digipeaters fuel rest).0, (read_digipeaters fuel rest).1)
  unfolding read_digipeaters
  round_more =
      let l : leb 7 (length (encode_address d false ++ rest)) ≡ true =
        le→leb _ _ (omega (arith, length-encode_address-append d false rest v)) in
      ground (
        arith,
        l,
        take-encode_address d false rest v,
        decode-encode_address d false v,
        extension_bit d false rest v,
        drop-encode_address d false rest v,
      )

read_digipeaters-encode :
    (fuel : ℕ) (d : Ax25Address) (ds : List Ax25Address) (rest : Bytes)
    → All IsAddress (d ∷ ds)
    → length ds < fuel
    → read_digipeaters fuel (encode_digipeaters (d ∷ ds) ++ rest) ≡ (d ∷ ds, rest)
read_digipeaters-encode zero d ds rest v h = absurd (omega arith)
read_digipeaters-encode (suc fuel) d [] rest v h =
    unfold encode_digipeaters in round_last fuel d rest v.0
read_digipeaters-encode (suc fuel) d (e ∷ ds) rest v h =
    step (read_digipeaters-encode fuel e ds rest v.1 (omega arith))
  where
    step :
        read_digipeaters fuel (encode_digipeaters (e ∷ ds) ++ rest) ≡ (e ∷ ds, rest)
        → read_digipeaters (suc fuel) (encode_digipeaters (d ∷ e ∷ ds) ++ rest) ≡ (d ∷ e ∷ ds, rest)
    step r =
        unfold encode_digipeaters in
        rw (
          append_assoc (encode_address d false) (encode_digipeaters (e ∷ ds)) rest,
          round_more fuel d (encode_digipeaters (e ∷ ds) ++ rest) v.0,
          r,
        )

-- What stands behind the two first addresses.
abbrev trailer : Ax25Frame → Bytes
trailer f = encode_digipeaters f.digipeaters ++ (f.control ∷ f.pid ∷ f.info)

-- Behind the source: its extension bit says whether digipeaters follow.
read_trailer :
    (bit : ℕ) (digis : List Ax25Address) (tail : Bytes) (fuel : ℕ)
    → bit ≡ (if is_empty digis then 1 else 0)
    → All IsAddress digis
    → length digis ≤ fuel
    → (if bit == 0
        then read_digipeaters fuel (encode_digipeaters digis ++ tail)
        else ([], encode_digipeaters digis ++ tail))
      ≡ (digis, tail)
read_trailer bit [] tail fuel e v h = rw e (unfold encode_digipeaters in refl)
read_trailer bit (d ∷ ds) tail fuel e v h =
    rw e (read_digipeaters-encode fuel d ds tail v (omega arith))

length-encode_digipeaters :
    (ds : List Ax25Address) → All IsAddress ds → length ds ≤ length (encode_digipeaters ds)
unfolding encode_digipeaters
length-encode_digipeaters [] v = omega arith
length-encode_digipeaters (d ∷ []) v = omega (arith, length-encode_address d true v.0)
length-encode_digipeaters (d ∷ e ∷ ds) v = omega (
  arith,
  length-encode_digipeaters (e ∷ ds) v.1,
  length-encode_address-append d false (encode_digipeaters (e ∷ ds)) v.0,
)

decode_frame_parts :
    (bs tail : Bytes) (d s : Ax25Address) (digis : List Ax25Address)
    → ltb (length bs) 16 ≡ false
    → decode_address (take 7 bs) ≡ some d
    → decode_address (take 7 (drop 7 bs)) ≡ some s
    → (if bit_and (get_or bs 13 0) 0x01 == 0
        then read_digipeaters (length bs) (drop 14 bs)
        else ([], drop 14 bs))
      ≡ (digis, tail)
    → decode_frame bs ≡ finish_frame d s digis tail
unfolding decode_frame
decode_frame_parts bs tail d s digis l p q r = ground arith

-- Every frame whose addresses fit the header is decoded to itself: addresses, digipeaters in
-- order, control, PID and all bytes of the information field.
pub decode-encode_frame : (f : Ax25Frame) → IsFrame f → decode_frame (encode_frame f) ≡ some f
unfolding encode_frame finish_frame
decode-encode_frame f v =
    let t = trailer f in
    let st = encode_address f.source (is_empty f.digipeaters) ++ t in
    let whole = encode_address f.destination false ++ st in
    let dest = take-encode_address f.destination false st v.destination_ok in
    let rest = drop-encode_address f.destination false st v.destination_ok in
    let src = take-encode_address f.source (is_empty f.digipeaters) t v.source_ok in
    let rest' = drop-encode_address f.source (is_empty f.digipeaters) t v.source_ok in
    let behind : drop 14 whole ≡ t = sym (drop-drop 7 7 whole) ∙ ap (drop 7) rest ∙ rest' in
    let bit = extension_bit f.source (is_empty f.digipeaters) t v.source_ok in
    let ext : bit_and (get_or whole 13 0) 0x01 ≡ (if is_empty f.digipeaters then 1 else 0) =
      rw (← get_or-drop 7 6 whole 0) (rw rest bit) in
    let fields = f.control ∷ f.pid ∷ f.info in
    let n : length whole ≡ 14 + (length (encode_digipeaters f.digipeaters) + (2 + length f.info)) =
      omega (
        arith,
        length-encode_address-append f.destination false st v.destination_ok,
        length-encode_address-append f.source (is_empty f.digipeaters) t v.source_ok,
        length-append (encode_digipeaters f.digipeaters) fields,
      ) in
    let long : ltb (length whole) 16 ≡ false = ground arith in
    decode_frame_parts whole fields f.destination f.source f.digipeaters long
      (ap decode_address dest ∙ decode-encode_address f.destination false v.destination_ok)
      (ap decode_address (ap (take 7) rest ∙ src)
        ∙ decode-encode_address f.source (is_empty f.digipeaters) v.source_ok)
      (rw behind (
        read_trailer _ f.digipeaters fields (length whole) ext v.digipeaters_ok
          (omega (arith, n, length-encode_digipeaters f.digipeaters v.digipeaters_ok))))
