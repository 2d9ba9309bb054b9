-- ===== src/Ax25/Address.antt =====
-- Addresses: the wire form and the text form are read back.
use Prim.Native.Nat.{bit_and}
use rfmpd.Base.{
  All, Bool, Bytes, [], holds_below, holds_below_at, ap, append_assoc, arith, false, get_or,
  get_or-length-append, if◌then◌else◌, length, length-append, length-replicate, map, refl,
  replicate, some, suc, take, take-length-append, take_all, true, zero, ℕ, ◌%◌, ◌&&◌, ◌*◌, ◌++◌,
  ◌-◌, ◌/◌, ◌<◌, ◌==◌, ◌∷◌, ◌≡◌, ◌≢◌, ◌≤◌,
}
use rfmpd.Ax25.{Ax25Address, padded, ssid_byte, encode_address, read_chars, decode_address}

-- A callsign byte that survives the shift by one bit: 7 bits, and not the padding.
abbrev pub IsCallsignByte : ℕ → Type 0
IsCallsignByte c = (c < 128) × (c ≢ b' ')

-- An address that an AX.25 header can hold.
pub record IsAddress (a : Ax25Address) : Type 0 where
  pub callsign_bytes : All IsCallsignByte a.callsign
  pub callsign_le : length a.callsign ≤ 6
  pub ssid_lt : a.ssid < 16

abbrev shifted : Bytes → Bytes
shifted = map (λ c. (c * 2) % 256)

abbrev ssid_ok : ℕ → Bool
ssid_ok s =
    bit_and (ssid_byte s true / 2) 0x0F == s
    && bit_and (ssid_byte s false / 2) 0x0F == s
    && bit_and (ssid_byte s true) 0x01 == 1
    && bit_and (ssid_byte s false) 0x01 == 0

ssid_table : holds_below ssid_ok 16 ≡ true
unfolding holds_below ssid_byte
ssid_table = refl

-- The SSID byte gives the SSID back, and its lowest bit says whether the address is the last.
pub ssid_byte_lem :
    (s : ℕ) (last : Bool)
    → s < 16
    → (bit_and (ssid_byte s last / 2) 0x0F ≡ s)
      × (bit_and (ssid_byte s last) 0x01 ≡ (if last then 1 else 0))
ssid_byte_lem s true h = let t = holds_below_at ssid_ok 16 s h ssid_table in ground arith
ssid_byte_lem s false h = let t = holds_below_at ssid_ok 16 s h ssid_table in ground arith

read_chars_padding : (n : ℕ) → read_chars (shifted (replicate n b' ')) ≡ []
unfolding read_chars
read_chars_padding zero = refl
read_chars_padding (suc n) = read_chars_padding n

read_chars-shifted :
    (cs : Bytes) (n : ℕ)
    → All IsCallsignByte cs
    → read_chars (shifted (cs ++ replicate n b' ')) ≡ cs
unfolding read_chars
read_chars-shifted [] n h = read_chars_padding n
read_chars-shifted (c ∷ cs) n h = ground (arith, read_chars-shifted cs n h.1)

length-shifted : (cs : Bytes) → length (shifted cs) ≡ length cs
length-shifted [] = refl
length-shifted (c ∷ cs) = ap suc (length-shifted cs)

length-padded : (cs : Bytes) → length cs ≤ 6 → length (padded cs) ≡ 6
unfolding padded
length-padded cs h = omega (
  arith,
  length-append cs (replicate (6 - length cs) b' '),
  length-replicate {A = ℕ} (6 - length cs) b' ',
)

-- The six shifted characters, where the callsign is not too long.
take-padded : (cs : Bytes) → length cs ≤ 6 → take 6 (padded cs) ≡ padded cs
take-padded cs h = take_all 6 (padded cs) (omega (arith, length-padded cs h))

-- The two parts of an encoded address: six characters, and the SSID byte.
record Encoded (a : Ax25Address) (last : Bool) : Type 0 where
  six : Bytes
  is_append : encode_address a last ≡ six ++ ssid_byte a.ssid last ∷ []
  length_six : length six ≡ 6
  chars : read_chars six ≡ a.callsign

encode_address-Encoded : (a : Ax25Address) (last : Bool) → IsAddress a → Encoded a last
encode_address-Encoded a last v = record {
  six = shifted (take 6 (padded a.callsign));
  is_append = unfold encode_address in refl;
  length_six =
      rw (take-padded a.callsign v.callsign_le, length-shifted) (length-padded _ v.callsign_le);
  chars =
      rw (take-padded a.callsign v.callsign_le)
        (unfold padded in read_chars-shifted a.callsign _ v.callsign_bytes);
}

pub length-encode_address :
    (a : Ax25Address) (last : Bool) → IsAddress a → length (encode_address a last) ≡ 7
length-encode_address a last v =
    let e = encode_address-Encoded a last v in
    omega
      (arith, ap length e.is_append, length-append e.six (ssid_byte a.ssid last ∷ []), e.length_six)

-- The byte that the decoder tests for the end of the address field.
pub get_or-encode_address :
    (a : Ax25Address) (last : Bool) (rest : Bytes)
    → IsAddress a
    → get_or (encode_address a last ++ rest) 6 0 ≡ ssid_byte a.ssid last
get_or-encode_address a last rest v =
    let e = encode_address-Encoded a last v in
    rw (e.is_append, append_assoc e.six (ssid_byte a.ssid last ∷ []) rest)
      (rw e.length_six at (get_or-length-append e.six rest (ssid_byte a.ssid last) 0))

decode_address_parts :
    (six : Bytes) (b : ℕ)
    → length six ≡ 6
    → decode_address (six ++ b ∷ [])
      ≡ some (record { callsign = read_chars six; ssid = bit_and (b / 2) 0x0F })
decode_address_parts six b h =
    let n : length (six ++ b ∷ []) ≡ 7 = omega (arith, length-append six (b ∷ []), h) in
    let t : take 6 (six ++ b ∷ []) ≡ six = rw h at (take-length-append six (b ∷ [])) in
    let g : get_or (six ++ b ∷ []) 6 0 ≡ b = rw h at (get_or-length-append six [] b 0) in
    unfold decode_address in rw (n, t, g)

-- An encoded address is decoded to itself, with either extension bit.
pub decode-encode_address :
    (a : Ax25Address) (last : Bool) → IsAddress a → decode_address (encode_address a last) ≡ some a
decode-encode_address a last v =
    let e = encode_address-Encoded a last v in
    rw (
      e.is_append,
      decode_address_parts e.six (ssid_byte a.ssid last) e.length_six,
      e.chars,
      (ssid_byte_lem a.ssid last v.ssid_lt).0,
    )
