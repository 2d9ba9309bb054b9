-- ===== src/Kiss.antt =====
-- internal/network/kiss.go: KISS frames, their escaping, and the decoder's receive buffer.
-- `Codec` proves the frame round trip, `Stream` and `Sequence` the behaviour of
-- the buffered decoder.
pub mod Codec
pub mod Scan
pub mod Stream
pub mod Sequence
use Prim.Native.Nat.{bit_and, bit_or}
use rfmpd.Base.{
  ℕ, zero, suc, ◌+◌, ◌*◌, ◌/◌, ◌%◌, Bool, true, false, ◌||◌, List, [], ◌∷◌, ◌++◌, Option, none,
  some, ◌==◌, if◌then◌else◌, ◌>>=◌, Bytes, length,
}

abbrev pub fend : ℕ
fend = 0xC0

abbrev pub fesc : ℕ
fesc = 0xDB

abbrev pub tfend : ℕ
tfend = 0xDC

abbrev pub tfesc : ℕ
tfesc = 0xDD

-- `KISSCommand`, the low half of the first byte.
abbrev pub kiss_data_frame : ℕ
kiss_data_frame = 0x00

unfoldable pub is_valid_kiss_command : ℕ → Bool
is_valid_kiss_command b =
    b == 0x00
    || b == 0x01
    || b == 0x02
    || b == 0x03
    || b == 0x04
    || b == 0x05
    || b == 0x06
    || b == 0x0F

pub record KissFrame : Type 0 where
  pub port : ℕ
  pub command : ℕ
  pub payload : Bytes

-- the loop over `content`
unfoldable pub escape : Bytes → Bytes
escape [] = []
escape (b ∷ bs) =
    (if b == fend then fesc ∷ tfend ∷ [] else if b == fesc then fesc ∷ tfesc ∷ [] else b ∷ [])
    ++ escape bs

unfoldable pub command_byte : KissFrame → ℕ
command_byte f = bit_or ((f.port * 16) % 256) f.command

unfoldable pub encode : KissFrame → Bytes
encode f = fend ∷ (escape (command_byte f ∷ f.payload) ++ fend ∷ [])

-- the two delimiter strips of `DecodeKISSFrame`
unfoldable pub strip_last_fend : Bytes → Bytes
strip_last_fend [] = []
strip_last_fend (b ∷ []) = if b == fend then [] else b ∷ []
strip_last_fend (b ∷ c ∷ rest) = b ∷ strip_last_fend (c ∷ rest)

abbrev pub prepend : ℕ → Option Bytes → Option Bytes
prepend b none = none
prepend b (some bs) = some (b ∷ bs)

-- the loop over the escaped bytes; `none` is an incomplete or an invalid escape
unfoldable pub unescape : Bytes → Option Bytes
unescape [] = some []
unescape (b ∷ []) = if b == fesc then none else some (b ∷ [])
unescape (b ∷ e ∷ rest) = elim (b == fesc) [
  | true ↦ elim (e == tfend) [
    | true ↦ prepend fend (unescape rest)
    | false ↦ elim (e == tfesc) [ true ↦ prepend fesc (unescape rest) | false ↦ none ]
  ]
  | false ↦ prepend b (unescape (e ∷ rest))
]

unfoldable pub decode_content : Bytes → Option KissFrame
unfolding is_valid_kiss_command
decode_content [] = none
decode_content (cmd ∷ rest) =
    if is_valid_kiss_command (bit_and cmd 0x0F)
    then some
        (record { port = bit_and (cmd / 16) 0x0F; command = bit_and cmd 0x0F; payload = rest })
    else none

-- the part behind the strips
unfoldable pub decode_stripped : Bytes → Option KissFrame
unfolding unescape decode_content
decode_stripped [] = none
decode_stripped (b ∷ bs) = unescape (b ∷ bs) >>= decode_content

unfoldable pub decode : Bytes → Option KissFrame
unfolding strip_last_fend decode_stripped
decode [] = none
decode (b ∷ bs) = decode_stripped (strip_last_fend (if b == fend then bs else b ∷ bs))

-- `KISSProtocol`
pub record KissProtocol : Type 0 where
  pub port : ℕ
  pub buffer : Bytes

unfoldable pub new_kiss_protocol : ℕ → KissProtocol
new_kiss_protocol port = record { port = port; buffer = [] }

unfoldable pub encode_data : KissProtocol → Bytes → Bytes
unfolding encode
encode_data kp bs = encode (record { port = kp.port; command = kiss_data_frame; payload = bs })

unfoldable pub reset : KissProtocol → KissProtocol
reset kp = record kp { buffer = [] }

-- The bytes before the first FEND, and those after it.
unfoldable pub split_at_fend : Bytes → Option (Bytes × Bytes)
split_at_fend [] = none
split_at_fend (b ∷ bs) =
    if b == fend then some ([], bs) else (split_at_fend bs >>= λ (pre, post). some (b ∷ pre, post))

-- a decoded frame is kept if it is a data frame
unfoldable pub keep_data : Option KissFrame → List KissFrame
keep_data none = []
keep_data (some f) = if f.command == kiss_data_frame then f ∷ [] else []

-- One round of the `for` loop takes at least two bytes from the buffer.
unfoldable pub decode_loop : ℕ → Bytes → List KissFrame × Bytes
unfolding split_at_fend decode keep_data
decode_loop zero buf = ([], buf)
decode_loop (suc fuel) buf = elim (split_at_fend buf) [
  | none ↦ ([], [])
  | some (garbage, rest) ↦ elim (split_at_fend rest) [
    | none ↦ ([], fend ∷ rest)
    | some (body, rest') ↦
        let r = decode_loop fuel rest' in
        (keep_data (decode (fend ∷ (body ++ fend ∷ []))) ++ r.0, r.1)
  ]
]

unfoldable pub decode_frames : KissProtocol → Bytes → List KissFrame × KissProtocol
unfolding decode_loop
decode_frames kp bs =
    let r = decode_loop (suc (length (kp.buffer ++ bs))) (kp.buffer ++ bs) in
    (r.0, record kp { buffer = r.1 })
