-- ===== src/Frames/RoundTrip.antt =====
-- Dictionaries are read back as the frames that they were made from.
use rfmpd.Base.{
  All, Bool-cases, Bytes, Option, [], arith, false, if◌then◌else◌, inl, inr, length, ltb, lt→ltb,
  none, refl, some, ℕ, ◌<◌, ◌>>=◌, ◌∷◌, ◌≡◌, ◌≤◌,
}
use rfmpd.Text.{atoi, itoa_ℕ, int_max}
use rfmpd.Text.Decimal.{atoi-itoa, itoa_ℕ-cons}
use rfmpd.Message.{MessageId, IsId, id_to_hex, id_from_hex, id_from_hex-id_to_hex}
use rfmpd.Message.Hex.{hex_encode, hex_decode-hex_encode, length-hex_encode}
use rfmpd.Message.Timestamp.{civil}
use rfmpd.Message.Calendar.{parse-format_timestamp}
use rfmpd.Frames.{
  Msg, Frag, Key, find, msg_to_dict, msg_from_dict, frag_to_dict, frag_from_dict, is_valid_channel,
  read_reply, reply_hex, read_seq, seq_entry, check_seq,
}

abbrev pub IsReply : Option MessageId → Type 0
IsReply none = Unit
IsReply (some r) = IsId r

abbrev pub IsSeq : Option ℕ → Type 0
IsSeq none = Unit
IsSeq (some n) = (1 ≤ n) × (n < int_max)

-- A message as the daemon makes them: six-byte IDs, a four-digit year, and a positive sequence
-- number, if any.
pub record IsMsg (m : Msg) : Type 0 where
  pub id_ok : IsId m.id
  pub year_ok : (civil m.time).year < 10000
  pub reply_ok : IsReply m.reply_to
  pub seq_ok : IsSeq m.seq

read_reply_long : (s : Bytes) → 2 ≤ length s → read_reply s ≡ (id_from_hex s >>= λ i. some (some i))
read_reply_long [] h = absurd (omega arith)
read_reply_long (c ∷ []) h = absurd (omega arith)
read_reply_long (c ∷ d ∷ cs) h = refl

id_from_hex-hex_encode : (r : MessageId) → IsId r → id_from_hex (hex_encode r) ≡ some r
id_from_hex-hex_encode r v = unfold id_to_hex in id_from_hex-id_to_hex r v

read_reply-reply_hex : (r : Option MessageId) → IsReply r → read_reply (reply_hex r) ≡ some r
read_reply-reply_hex none v = refl
read_reply-reply_hex (some r) v = rw (
  read_reply_long (hex_encode r) (omega (arith, length-hex_encode r, v.0)),
  id_from_hex-hex_encode r v,
)

read_seq_digits :
    (s : Bytes) (c : ℕ) (cs : Bytes) → s ≡ c ∷ cs → read_seq (some s) ≡ (atoi s >>= check_seq)
read_seq_digits s c cs e = rw e

read_seq-seq_entry : (o : Option ℕ) → IsSeq o → read_seq (find Key.k_seq (seq_entry o)) ≡ some o
read_seq-seq_entry none v = refl
read_seq-seq_entry (some n) v =
    let (c, cs, e, d) = itoa_ℕ-cons n in
    let z : ltb n 1 ≡ false = ground arith in
    rw (read_seq_digits (itoa_ℕ n) c cs e, atoi-itoa n v.1, z)

-- Dictionaries lose nothing: a message with a valid channel is read back whole. One whose
-- channel has an upper-case letter or a byte above 127 is refused.
pub msg_from-to_dict :
    (m : Msg)
    → IsMsg m
    → msg_from_dict (msg_to_dict m) ≡ (if is_valid_channel m.channel then some m else none)
msg_from-to_dict m v = elim (Bool-cases (is_valid_channel m.channel)) [
  | inl e ↦
      unfold msg_from_dict msg_to_dict in
      rw (
        id_from_hex-id_to_hex m.id v.id_ok,
        e,
        parse-format_timestamp m.time v.year_ok,
        read_reply-reply_hex m.reply_to v.reply_ok,
        read_seq-seq_entry m.seq v.seq_ok,
      )
  | inr e ↦ unfold msg_from_dict msg_to_dict in rw (id_from_hex-id_to_hex m.id v.id_ok, e)
]

-- A fragment with a valid index is read back from its dictionary.
frag_from-to_dict :
    (f : Frag)
    → IsId f.message_id
    → f.idx < f.total
    → f.total < int_max
    → All (λ b. b < 256) f.payload
    → frag_from_dict (frag_to_dict f) ≡ some f
unfolding frag_from_dict frag_to_dict
frag_from-to_dict f i h t p = rw (
  id_from_hex-id_to_hex f.message_id i,
  atoi-itoa f.idx (omega arith),
  atoi-itoa f.total t,
  lt→ltb f.idx f.total h,
  hex_decode-hex_encode f.payload p,
)
