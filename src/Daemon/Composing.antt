-- ===== src/Daemon/Composing.antt =====
-- What `SendMessage` composes is a message as `Frames.RoundTrip` wants it.
use rfmpd.Base.{
  ==_iff, All, All-take, Bool, Bytes, Option, [], arith, false, if◌then◌else◌, length, length-take,
  none, refl, some, take, true, ℕ, ◌*◌, ◌+◌, ◌<◌, ◌==◌, ◌>>=◌, ◌∷◌, ◌≡◌, ◌≤◌,
}
use rfmpd.Text.{int_max}
use rfmpd.Message.{IsId, id_from_hex, generate_message_id}
use rfmpd.Message.Hex.{hex_decode, hex_value}
use rfmpd.Message.Timestamp.{unix_zero}
use rfmpd.Message.Calendar.{year-civil}
use rfmpd.Frames.RoundTrip.{IsMsg, IsReply}
use rfmpd.Wire.{Proto}
use rfmpd.Daemon.{Json, Daemon}
use rfmpd.Daemon.Handlers.{reply_or_null}
use rfmpd.Daemon.Sending.{new_msg}

abbrev Bounded : Option Bytes → Type 0
Bounded none = Unit
Bounded (some bs) = All (λ b. b < 256) bs

abbrev IsNibble : Option ℕ → Type 0
IsNibble none = Unit
IsNibble (some n) = n < 16

hex_value-IsNibble : (c : ℕ) → IsNibble (hex_value c)
hex_value-IsNibble c = ground arith

join_nibbles :
    (a b : Option ℕ) (o : Option Bytes)
    → IsNibble a
    → IsNibble b
    → Bounded o
    → Bounded (a >>= λ hi. b >>= λ lo. o >>= λ bs. some ((hi * 16 + lo) ∷ bs))
join_nibbles none b o p q r = tt
join_nibbles (some x) none o p q r = tt
join_nibbles (some x) (some y) none p q r = tt
join_nibbles (some x) (some y) (some bs) p q r = (omega arith, r)

hex_decode-Bounded : (s : Bytes) → Bounded (hex_decode s)
unfolding hex_decode
hex_decode-Bounded [] = tt
hex_decode-Bounded (c ∷ []) = tt
hex_decode-Bounded (c ∷ d ∷ cs) =
    join_nibbles (hex_value c) (hex_value d) (hex_decode cs) (hex_value-IsNibble c)
      (hex_value-IsNibble d) (hex_decode-Bounded cs)

some_if-IsReply :
    (t : Bool) (b : Bytes)
    → (t ≡ true → length b ≡ 6)
    → All (λ c. c < 256) b
    → IsReply (if t then some b else none)
some_if-IsReply true b h k = (h refl, k)
some_if-IsReply false b h k = tt

check_id-IsReply :
    (o : Option Bytes) → Bounded o → IsReply (o >>= λ b. if length b == 6 then some b else none)
check_id-IsReply none h = tt
check_id-IsReply (some b) h = some_if-IsReply (length b == 6) b (==_iff (length b) 6).0 h

take-IsId : (xs : Bytes) → 6 ≤ length xs → All (λ b. b < 256) xs → IsId (take 6 xs)
take-IsId xs h k = (omega (arith, length-take 6 xs), All-take (λ b. b < 256) 6 xs k)

module _ (json : Json) (proto : Proto) where
  reply_or_null-IsReply : (o : Option Bytes) → IsReply (reply_or_null json proto o)
  reply_or_null-IsReply none = tt
  reply_or_null-IsReply (some s) =
      unfold id_from_hex in check_id-IsReply (hex_decode s) (hex_decode-Bounded s)

  -- `IsMsg` of what `SendMessage` makes
  pub new_msg-IsMsg :
      (sha256 : Bytes → Bytes) (now : ℕ) (channel body : Bytes) (reply_to author : Option Bytes)
      (d : Daemon) (seq : ℕ)
      → ((bs : Bytes) → (6 ≤ length (sha256 bs)) × All (λ b. b < 256) (sha256 bs))
      → unix_zero + now < 315360000000
      → 1 ≤ seq
      → seq < int_max
      → IsMsg (new_msg json proto sha256 now channel body reply_to author d seq)
  unfolding new_msg generate_message_id
  new_msg-IsMsg sha256 now channel body reply_to author d seq digest early lo hi = record {
    id_ok = take-IsId _ (digest _).0 (digest _).1;
    year_ok = year-civil (unix_zero + now) early;
    reply_ok = reply_or_null-IsReply reply_to;
    seq_ok = (lo, hi);
  }
