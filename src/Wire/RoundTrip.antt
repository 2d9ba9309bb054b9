-- ===== src/Wire/RoundTrip.antt =====
-- Frames through protobuf and back.
use rfmpd.Base.{
  Bytes, Option, Option-cases, [], arith, if◌then◌else◌, inl, inr, leb, length, ltb, lt→ltb, none,
  refl, some, ℕ, ◌%◌, ◌+◌, ◌<◌, ◌==◌, ◌>>=◌, ◌≡◌, ◌≢◌, ◌≤◌,
}
use rfmpd.Message.{MessageId}
use rfmpd.Message.Timestamp.{u32_mod, unix_zero, to_epoch, from_epoch}
use rfmpd.Frames.{Msg, Frag}
use rfmpd.Wire.{
  PbPayload, pb_none, pb_msg, pb_frag, pb_svec, Proto, msg_to_pb, msg_from_pb, frag_to_pb,
  frag_from_pb, max_fragments, Frame, msg, frag, svec, msg_value, frag_value, encoded, encode,
  decode_payload, decode, encode_msg_raw, decode_msg_raw, bytes_or_nil, seq_or_zero, from_marshal,
}

abbrev pub HasSix : Option MessageId → Type 0
HasSix none = Unit
HasSix (some r) = length r ≡ 6

abbrev pub FitsSeq : Option ℕ → Type 0
FitsSeq none = Unit
FitsSeq (some n) = (1 ≤ n) × (n < u32_mod)

-- A message whose fields the wire format holds: six-byte IDs, a time from 1970 to 2106, and a
-- sequence number from 1 to 2^32 - 1, if any.
pub record FitsWire (m : Msg) : Type 0 where
  pub id_six : length m.id ≡ 6
  pub time_from : unix_zero ≤ m.time
  pub time_lt : m.time < unix_zero + u32_mod
  pub reply_six : HasSix m.reply_to
  pub seq_fits : FitsSeq m.seq

from_epoch-to_epoch :
    (t : ℕ) → unix_zero ≤ t → t < unix_zero + u32_mod → from_epoch (to_epoch t) ≡ t
unfolding from_epoch to_epoch
from_epoch-to_epoch t lo hi = omega arith

reply_back :
    (r : Option MessageId)
    → HasSix r
    → (if length (bytes_or_nil r) == 6 then some (bytes_or_nil r) else none) ≡ r
reply_back none h = refl
reply_back (some r) h = rw h

seq_back :
    (n : Option ℕ) → FitsSeq n → (if ltb 0 (seq_or_zero n) then some (seq_or_zero n) else none) ≡ n
seq_back none h = refl
seq_back (some n) h = let e : n % u32_mod ≡ n = omega arith in rw (e, lt→ltb 0 n h.0)

pub msg_from-to_pb : (m : Msg) → FitsWire m → msg_from_pb (msg_to_pb m) ≡ some m
unfolding msg_from_pb msg_to_pb
msg_from-to_pb m v = rw (
  v.id_six,
  from_epoch-to_epoch m.time v.time_from v.time_lt,
  reply_back m.reply_to v.reply_six,
  seq_back m.seq v.seq_fits,
)

pub frag_from-to_pb :
    (f : Frag)
    → length f.message_id ≡ 6
    → f.idx < f.total
    → f.total < u32_mod
    → frag_from_pb (frag_to_pb f) ≡ (if leb f.total max_fragments then some f else none)
unfolding frag_from_pb frag_to_pb
frag_from-to_pb f i h t =
    let e : f.idx % u32_mod ≡ f.idx = omega arith in
    let g : f.total % u32_mod ≡ f.total = omega arith in rw (i, e, g) (ground arith)

from_marshal-encoded : (o : Option Bytes) (bs : Bytes) → from_marshal o ≡ encoded bs → o ≡ some bs
from_marshal-encoded o bs e = ground arith

-- What every decoded frame satisfies.
abbrev pub IsDecoded : Frame → Type 0
IsDecoded (msg m) = (length m.id ≡ 6) × HasSix m.reply_to
IsDecoded (frag f) = (length f.message_id ≡ 6) × (f.idx < f.total) × (f.total ≤ max_fragments)
IsDecoded (svec s) = Unit

abbrev Decodes : Option Frame → Type 0
Decodes none = Unit
Decodes (some f) = IsDecoded f

decode_payload-Decodes : (proto : Proto) (p : PbPayload) → Decodes (decode_payload proto p)
unfolding decode_payload msg_from_pb frag_from_pb
decode_payload-Decodes proto pb_none = tt
decode_payload-Decodes proto (pb_msg p) = ground arith
decode_payload-Decodes proto (pb_frag p) = ground arith
decode_payload-Decodes proto (pb_svec p) = tt

bind-Decodes : (proto : Proto) (o : Option PbPayload) → Decodes (o >>= decode_payload proto)
bind-Decodes proto none = tt
bind-Decodes proto (some p) = decode_payload-Decodes proto p

module _ (proto : Proto) where
  marshalled :
      (m : Msg) (bs : Bytes)
      → encode proto (msg_value (some m)) ≡ encoded bs
      → proto.marshal_frame (pb_msg (msg_to_pb m)) ≡ some bs
  unfolding encode
  marshalled m bs e = from_marshal-encoded _ bs e

  -- A message that fits the wire format is decoded as it was before it was encoded.
  pub decode-encode_msg :
      (m : Msg) (bs : Bytes)
      → FitsWire m
      → encode proto (msg_value (some m)) ≡ encoded bs
      → decode proto bs ≡ some (msg m)
  unfolding decode decode_payload
  decode-encode_msg m bs v e =
      rw (proto.frame_msg (msg_to_pb m) bs (marshalled m bs e), msg_from-to_pb m v)

  marshalled_frag :
      (f : Frag) (bs : Bytes)
      → encode proto (frag_value (some f)) ≡ encoded bs
      → proto.marshal_frame (pb_frag (frag_to_pb f)) ≡ some bs
  unfolding encode
  marshalled_frag f bs e = from_marshal-encoded _ bs e

  -- A fragment with a six-byte message ID, an index below its total and a total below 2^32, once it
  -- is encoded, is decoded as it was if the total is at most 255, and refused if not.
  pub decode-encode_frag :
      (f : Frag) (bs : Bytes)
      → length f.message_id ≡ 6
      → f.idx < f.total
      → f.total < u32_mod
      → encode proto (frag_value (some f)) ≡ encoded bs
      → decode proto bs ≡ (if leb f.total max_fragments then some (frag f) else none)
  unfolding decode decode_payload
  decode-encode_frag f bs i h t e =
      rw (proto.frame_frag (frag_to_pb f) bs (marshalled_frag f bs e), frag_from-to_pb f i h t)
        (ground arith)

  -- Whatever bytes arrive, a decoded message has six-byte IDs, and a decoded fragment has an
  -- index below its total, which is at most 255.
  decode-IsDecoded : (bs : Bytes) (f : Frame) → decode proto bs ≡ some f → IsDecoded f
  unfolding decode
  decode-IsDecoded bs f e = rw e at (bind-Decodes proto (proto.unmarshal_frame bs))

  pub decode_msg_raw-encode_msg_raw :
      (m : Msg)
      → FitsWire m
      → encode_msg_raw proto m ≢ []
      → decode_msg_raw proto (encode_msg_raw proto m) ≡ some m
  unfolding decode_msg_raw encode_msg_raw
  decode_msg_raw-encode_msg_raw m v n = elim (Option-cases (proto.marshal_msg (msg_to_pb m))) [
    | inl e ↦ absurd (n (rw e))
    | inr (bs, e) ↦ rw e (rw (proto.msg_back (msg_to_pb m) bs e) (msg_from-to_pb m v))
  ]
