-- ===== src/Wire.antt =====
-- internal/protocol/parser.go: frames to and from protobuf messages. The generated messages of
-- internal/protocol/pb are records; `proto.Marshal` and `proto.Unmarshal` are the parameter
-- `Proto`. `RoundTrip` proves what the two directions give.
pub mod RoundTrip
use rfmpd.Base.{
  Bytes, List, Option, [], if◌then◌else◌, leb, length, ltb, map, none, some, ℕ, ◌%◌, ◌-◌, ◌==◌,
  ◌>>=◌, ◌||◌, ◌≡◌,
}
use rfmpd.Base.Int.{ℤ, pos, negsuc}
use rfmpd.Message.{MessageId}
use rfmpd.Message.Timestamp.{u32_mod, to_epoch, from_epoch}
use rfmpd.Frames.{Msg, Frag, Svec, Vector}

-- The generated structs `pb.Msg`, `pb.Frag`, `pb.Svec` and the oneof of `pb.Frame`.
pub record PbMsg : Type 0 where
  pub id : Bytes
  pub from_node : Bytes
  pub timestamp : ℕ
  pub channel : Bytes
  pub reply_to : Bytes
  pub body : Bytes
  pub seq : ℕ
  pub author : Bytes

pub record PbFrag : Type 0 where
  pub msg_id : Bytes
  pub idx : ℕ
  pub total : ℕ
  pub payload : Bytes

pub record PbSvec : Type 0 where
  pub from_node : Bytes
  pub vector : List (Bytes × ℕ)

pub data PbPayload : Type 0 where
  pb_none : PbPayload
  pb_msg : PbMsg → PbPayload
  pb_frag : PbFrag → PbPayload
  pb_svec : PbSvec → PbPayload

-- google.golang.org/protobuf: `none` is an error. What is marshalled is unmarshalled to itself;
-- a map may come back in another order, so nothing is said of SVEC payloads.
pub record Proto : Type 0 where
  pub marshal_frame : PbPayload → Option Bytes
  pub unmarshal_frame : Bytes → Option PbPayload
  pub marshal_msg : PbMsg → Option Bytes
  pub unmarshal_msg : Bytes → Option PbMsg
  pub frame_msg :
      (p : PbMsg) (bs : Bytes)
      → marshal_frame (pb_msg p) ≡ some bs
      → unmarshal_frame bs ≡ some (pb_msg p)
  pub frame_frag :
      (p : PbFrag) (bs : Bytes)
      → marshal_frame (pb_frag p) ≡ some bs
      → unmarshal_frame bs ≡ some (pb_frag p)
  pub msg_back : (p : PbMsg) (bs : Bytes) → marshal_msg p ≡ some bs → unmarshal_msg bs ≡ some p

-- `uint32(v)`
abbrev pub to_u32 : ℤ → ℕ
to_u32 (pos n) = n % u32_mod
to_u32 (negsuc n) = (u32_mod - 1 - n % u32_mod) % u32_mod

abbrev pub bytes_or_nil : Option MessageId → Bytes
bytes_or_nil none = []
bytes_or_nil (some b) = b

abbrev pub seq_or_zero : Option ℕ → ℕ
seq_or_zero none = 0
seq_or_zero (some n) = n % u32_mod

unfoldable pub msg_to_pb : Msg → PbMsg
msg_to_pb m = record {
  id = m.id;
  from_node = m.from_node;
  timestamp = to_epoch m.time;
  channel = m.channel;
  reply_to = bytes_or_nil m.reply_to;
  body = m.body;
  seq = seq_or_zero m.seq;
  author = m.author;
}

-- `none` is `ErrInvalidFrame`.
unfoldable pub msg_from_pb : PbMsg → Option Msg
msg_from_pb p =
    if length p.id == 6
    then some (record {
      id = p.id;
      from_node = p.from_node;
      time = from_epoch p.timestamp;
      channel = p.channel;
      reply_to = if length p.reply_to == 6 then some p.reply_to else none;
      body = p.body;
      seq = if ltb 0 p.seq then some p.seq else none;
      author = p.author;
    })
    else none

unfoldable pub frag_to_pb : Frag → PbFrag
frag_to_pb f = record {
  msg_id = f.message_id;
  idx = f.idx % u32_mod;
  total = f.total % u32_mod;
  payload = f.payload;
}

-- `MaxFragments`
abbrev pub max_fragments : ℕ
max_fragments = 255

unfoldable pub frag_from_pb : PbFrag → Option Frag
frag_from_pb p =
    if length p.msg_id == 6
    then (if ltb p.total 1 || ltb max_fragments p.total || leb p.total p.idx
        then none
        else some
            (record { message_id = p.msg_id; idx = p.idx; total = p.total; payload = p.payload }))
    else none

unfoldable pub svec_to_pb : Svec → PbSvec
svec_to_pb s = record { from_node = s.from_node; vector = map (λ (k, v). (k, to_u32 v)) s.vector }

unfoldable pub svec_from_pb : PbSvec → Svec
svec_from_pb p = record { from_node = p.from_node; vector = map (λ (k, v). (k, pos v)) p.vector }

-- A decoded frame.
pub data Frame : Type 0 where
  msg : Msg → Frame
  frag : Frag → Frame
  svec : Svec → Frame

-- A value of the Go interface `Frame`: nil, or a pointer of one of the three types. Such a
-- pointer may itself be nil, and the interface value is not nil then.
pub data FrameValue : Type 0 where
  nil_frame : FrameValue
  msg_value : Option Msg → FrameValue
  frag_value : Option Frag → FrameValue
  svec_value : Option Svec → FrameValue

pub data Encoded : Type 0 where
  encoded : Bytes → Encoded
  encode_error : Encoded
  -- the conversion reads a field through a nil pointer
  nil_dereference : Encoded

abbrev pub from_marshal : Option Bytes → Encoded
from_marshal none = encode_error
from_marshal (some bs) = encoded bs

module _ (proto : Proto) where
  open proto use {marshal_frame, unmarshal_frame, marshal_msg, unmarshal_msg}

  unfoldable pub encode : FrameValue → Encoded
  encode nil_frame = encode_error
  encode (msg_value none) = nil_dereference
  encode (msg_value (some m)) = from_marshal (marshal_frame (pb_msg (msg_to_pb m)))
  encode (frag_value none) = nil_dereference
  encode (frag_value (some f)) = from_marshal (marshal_frame (pb_frag (frag_to_pb f)))
  encode (svec_value none) = nil_dereference
  encode (svec_value (some s)) = from_marshal (marshal_frame (pb_svec (svec_to_pb s)))

  unfoldable pub decode_payload : PbPayload → Option Frame
  decode_payload pb_none = none
  decode_payload (pb_msg p) = msg_from_pb p >>= λ m. some (msg m)
  decode_payload (pb_frag p) = frag_from_pb p >>= λ f. some (frag f)
  decode_payload (pb_svec p) = some (svec (svec_from_pb p))

  unfoldable pub decode : Bytes → Option Frame
  decode bs = unmarshal_frame bs >>= decode_payload

  -- A marshalling error gives the nil slice.
  unfoldable pub encode_msg_raw : Msg → Bytes
  encode_msg_raw m = bytes_or_nil (marshal_msg (msg_to_pb m))

  unfoldable pub decode_msg_raw : Bytes → Option Msg
  decode_msg_raw bs = unmarshal_msg bs >>= msg_from_pb
