-- ===== src/Kiss/Codec.antt =====
-- The round trip of one KISS frame.
use Prim.Native.Nat.{bit_and, bit_or}
use rfmpd.Base.{
  ℕ, ◌*◌, ◌%◌, ◌/◌, ◌+◌, ◌<◌, Bool, true, ◌&&◌, [], ◌∷◌, ◌++◌, some, ◌==◌, ◌≡◌, ◌≢◌, refl, ap,
  arith, Bytes, holds_below, holds_below_at, ◌>>=◌,
}
use rfmpd.Kiss.{
  KissFrame, fend, fesc, tfend, tfesc, is_valid_kiss_command, escape, command_byte, encode,
  strip_last_fend, unescape, decode_content, decode_stripped, decode, prepend,
}

-- No FEND is left in an escaped text.
abbrev pub HasNoFend : Bytes → Type 0
HasNoFend [] = Unit
HasNoFend (b ∷ bs) = (b ≢ fend) × HasNoFend bs

pub escape-HasNoFend : (bs : Bytes) → HasNoFend (escape bs)
unfolding escape
escape-HasNoFend [] = tt
escape-HasNoFend (b ∷ bs) = ground (arith, escape-HasNoFend bs)

unescape_plain : (b : ℕ) (bs : Bytes) → b ≢ fesc → unescape (b ∷ bs) ≡ prepend b (unescape bs)
unfolding unescape
unescape_plain b [] h = ground arith
unescape_plain b (e ∷ rest) h = ground arith

unescape-fend : (bs : Bytes) → unescape (fesc ∷ tfend ∷ bs) ≡ prepend fend (unescape bs)
unfolding unescape
unescape-fend bs = refl

unescape-fesc : (bs : Bytes) → unescape (fesc ∷ tfesc ∷ bs) ≡ prepend fesc (unescape bs)
unfolding unescape
unescape-fesc bs = refl

unescape-nil : unescape [] ≡ some []
unfolding unescape
unescape-nil = refl

unescape-escape : (bs : Bytes) → unescape (escape bs) ≡ some bs
unfolding escape
unescape-escape [] = unescape-nil
unescape-escape (b ∷ bs) = ground (
  arith,
  unescape-escape bs,
  unescape-fend (escape bs),
  unescape-fesc (escape bs),
  unescape_plain b (escape bs),
)

-- The closing delimiter is stripped.
pub strip_last_fend-append : (bs : Bytes) → strip_last_fend (bs ++ fend ∷ []) ≡ bs
unfolding strip_last_fend
strip_last_fend-append [] = refl
strip_last_fend-append (b ∷ []) = refl
strip_last_fend-append (b ∷ c ∷ bs) = ap (◌∷◌ b) (strip_last_fend-append (c ∷ bs))

abbrev command_byte_ok : ℕ → Bool
command_byte_ok x =
    bit_and (bit_or ((x / 16 * 16) % 256) (x % 16) / 16) 0x0F == x / 16
    && bit_and (bit_or ((x / 16 * 16) % 256) (x % 16)) 0x0F == x % 16

command_byte_table : holds_below command_byte_ok 256 ≡ true
unfolding holds_below
command_byte_table = refl

-- A port and a command below 16 share a byte and are read back from it.
command_byte_nibbles :
    (p c : ℕ)
    → p < 16
    → c < 16
    → (bit_and (bit_or ((p * 16) % 256) c / 16) 0x0F ≡ p)
      × (bit_and (bit_or ((p * 16) % 256) c) 0x0F ≡ c)
command_byte_nibbles p c hp hc =
    let q : (p * 16 + c) / 16 ≡ p = omega arith in
    let r : (p * 16 + c) % 16 ≡ c = omega arith in rw (q, r) at (nibbles (p * 16 + c) (omega arith))
  where
    nibbles :
        (x : ℕ)
        → x < 256
        → (bit_and (bit_or ((x / 16 * 16) % 256) (x % 16) / 16) 0x0F ≡ x / 16)
          × (bit_and (bit_or ((x / 16 * 16) % 256) (x % 16)) 0x0F ≡ x % 16)
    nibbles x h = let t = holds_below_at command_byte_ok 256 x h command_byte_table in ground arith

is_valid-lt : (c : ℕ) → is_valid_kiss_command c ≡ true → c < 16
unfolding is_valid_kiss_command
is_valid-lt c h = ground arith

decode_content-command_byte :
    (f : KissFrame)
    → f.port < 16
    → is_valid_kiss_command f.command ≡ true
    → decode_content (command_byte f ∷ f.payload) ≡ some f
unfolding decode_content command_byte
decode_content-command_byte f hp hc =
    let (p, c) = command_byte_nibbles f.port f.command hp (is_valid-lt f.command hc) in
    rw (p, c, hc)

decode_stripped-unescape :
    (bs : Bytes) → bs ≢ [] → decode_stripped bs ≡ (unescape bs >>= decode_content)
unfolding decode_stripped
decode_stripped-unescape bs h = ground arith

escape-ne-nil : (b : ℕ) (bs : Bytes) → escape (b ∷ bs) ≢ []
unfolding escape
escape-ne-nil b bs = ground arith

-- Every frame with a 4-bit port and a known command is decoded to itself, whatever its bytes are.
pub decode-encode :
    (f : KissFrame)
    → f.port < 16
    → is_valid_kiss_command f.command ≡ true
    → decode (encode f) ≡ some f
unfolding decode encode
decode-encode f hp hc =
    rw
      (
        strip_last_fend-append,
        decode_stripped-unescape (escape (command_byte f ∷ f.payload)) (escape-ne-nil _ _),
        unescape-escape (command_byte f ∷ f.payload),
      )
      (decode_content-command_byte f hp hc)
