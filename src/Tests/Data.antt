-- ===== src/Tests/Data.antt =====
-- Concrete data of the tests, and a concrete protobuf library: every field is written behind its
-- length.
use rfmpd.Base.{
  Bytes, List, Option, [], ap, arith, drop, drop-length-append, get_or, length, none, refl, some,
  suc, take, take-length-append, zero, ℕ, ◌++◌, ◌+◌, ◌∷◌, ◌≡◌,
}
use rfmpd.Text.{text}
use rfmpd.Message.{MessageId}
use rfmpd.Message.Timestamp.{unix_zero}
use rfmpd.Frames.{
  Msg, Dict, Key, k_id, k_from, k_time, k_chan, k_reply, k_body, k_author, k_seq, k_msgid, k_idx,
  k_total, k_data, k_vec, key_code,
}
use rfmpd.Daemon.{Json}
use rfmpd.Wire.{PbMsg, PbFrag, PbPayload, pb_none, pb_msg, pb_frag, pb_svec, Proto}

unfoldable pub field : Bytes → Bytes → Bytes
field xs rest = length xs ∷ (xs ++ rest)

unfoldable pub first : Bytes → Bytes
first [] = []
first (n ∷ bs) = take n bs

unfoldable pub behind : Bytes → Bytes
behind [] = []
behind (n ∷ bs) = drop n bs

first-field : (xs rest : Bytes) → first (field xs rest) ≡ xs
unfolding first field
first-field xs rest = take-length-append xs rest

behind-field : (xs rest : Bytes) → behind (field xs rest) ≡ rest
unfolding behind field
behind-field xs rest = drop-length-append xs rest

unfoldable pub number : Bytes → ℕ
number bs = get_or bs 0 0

unfoldable pub print_msg : PbMsg → Bytes
print_msg p = field p.id (
    field p.from_node (
      field (p.timestamp ∷ []) (
        field p.channel
          (field p.reply_to (field p.body (field (p.seq ∷ []) (field p.author [])))))))

unfoldable pub read_msg : Bytes → PbMsg
read_msg bs =
    let r1 = behind bs in
    let r2 = behind r1 in
    let r3 = behind r2 in
    let r4 = behind r3 in
    let r5 = behind r4 in
    let r6 = behind r5 in
    let r7 = behind r6 in
    record {
      id = first bs;
      from_node = first r1;
      timestamp = number (first r2);
      channel = first r3;
      reply_to = first r4;
      body = first r5;
      seq = number (first r6);
      author = first r7;
    }

read-print_msg : (p : PbMsg) → read_msg (print_msg p) ≡ p
unfolding read_msg print_msg number
read-print_msg p = simp (first-field, behind-field)

unfoldable pub print_frag : PbFrag → Bytes
print_frag p = field p.msg_id (field (p.idx ∷ []) (field (p.total ∷ []) (field p.payload [])))

unfoldable pub read_frag : Bytes → PbFrag
read_frag bs =
    let r1 = behind bs in
    let r2 = behind r1 in
    let r3 = behind r2 in
    record {
      msg_id = first bs;
      idx = number (first r1);
      total = number (first r2);
      payload = first r3;
    }

read-print_frag : (p : PbFrag) → read_frag (print_frag p) ≡ p
unfolding read_frag print_frag number
read-print_frag p = simp (first-field, behind-field)

unfoldable pub print_frame : PbPayload → Option Bytes
print_frame pb_none = some []
print_frame (pb_msg p) = some (1 ∷ print_msg p)
print_frame (pb_frag p) = some (2 ∷ print_frag p)
print_frame (pb_svec p) = none

unfoldable pub read_frame : Bytes → Option PbPayload
read_frame [] = some pb_none
read_frame (suc zero ∷ bs) = some (pb_msg (read_msg bs))
read_frame (suc (suc zero) ∷ bs) = some (pb_frag (read_frag bs))
read_frame (n ∷ bs) = none

pub frame_msg_back :
    (p : PbMsg) (bs : Bytes) → print_frame (pb_msg p) ≡ some bs → read_frame bs ≡ some (pb_msg p)
unfolding print_frame read_frame
frame_msg_back p bs e =
    let e' : 1 ∷ print_msg p ≡ bs = ground arith in
    rw (← e') (ap (λ q. some (pb_msg q)) (read-print_msg p))

pub frame_frag_back :
    (p : PbFrag) (bs : Bytes) → print_frame (pb_frag p) ≡ some bs → read_frame bs ≡ some (pb_frag p)
unfolding print_frame read_frame
frame_frag_back p bs e =
    let e' : 2 ∷ print_frag p ≡ bs = ground arith in
    rw (← e') (ap (λ q. some (pb_frag q)) (read-print_frag p))

pub msg_only_back :
    (p : PbMsg) (bs : Bytes) → some (print_msg p) ≡ some bs → some (read_msg bs) ≡ some p
msg_only_back p bs e =
    let e' : print_msg p ≡ bs = ground arith in rw (← e') (ap some (read-print_msg p))

abbrev pub proto : Proto
proto = record {
  marshal_frame = print_frame;
  unmarshal_frame = read_frame;
  marshal_msg = λ p. some (print_msg p);
  unmarshal_msg = λ bs. some (read_msg bs);
  frame_msg = frame_msg_back;
  frame_frag = frame_frag_back;
  msg_back = msg_only_back;
}

abbrev all_keys : List Key
all_keys =
    k_id ∷ k_from ∷ k_time ∷ k_chan ∷ k_reply ∷ k_body ∷ k_author ∷ k_seq ∷ k_msgid ∷ k_idx
    ∷ k_total ∷ k_data ∷ k_vec ∷ []

abbrev key_at : ℕ → List Key → Key
key_at i [] = k_id
key_at zero (k ∷ ks) = k
key_at (suc i) (k ∷ ks) = key_at i ks

key_at-key_code : (k : Key) → key_at (key_code k) all_keys ≡ k
key_at-key_code k_id = refl
key_at-key_code k_from = refl
key_at-key_code k_time = refl
key_at-key_code k_chan = refl
key_at-key_code k_reply = refl
key_at-key_code k_body = refl
key_at-key_code k_author = refl
key_at-key_code k_seq = refl
key_at-key_code k_msgid = refl
key_at-key_code k_idx = refl
key_at-key_code k_total = refl
key_at-key_code k_data = refl
key_at-key_code k_vec = refl

print_entries : Dict → Bytes
print_entries [] = []
print_entries ((k, v) ∷ d) = key_code k ∷ field v (print_entries d)

read_entries : ℕ → Bytes → Dict
read_entries zero bs = []
read_entries (suc n) bs =
    (key_at (number bs) all_keys, first (drop 1 bs)) ∷ read_entries n (behind (drop 1 bs))

print_dict : Dict → Bytes
print_dict d = length d ∷ print_entries d

read_dict : Bytes → Option Dict
read_dict [] = none
read_dict (n ∷ bs) = some (read_entries n bs)

pub json : Json
json = record { marshal = print_dict; unmarshal = read_dict }

read-print_entries : (d : Dict) → read_entries (length d) (print_entries d) ≡ d
unfolding read_entries print_entries number
read-print_entries [] = refl
read-print_entries ((k, v) ∷ d) = rw (
  key_at-key_code k,
  first-field v (print_entries d),
  behind-field v (print_entries d),
  read-print_entries d,
)

pub json_back : (d : Dict) → json.unmarshal (json.marshal d) ≡ some d
unfolding json read_dict print_dict
json_back d = ap some (read-print_entries d)

-- a message of N0CALL-1 in the channel "general", answering another one
abbrev pub id_one : MessageId
id_one = 1 ∷ 2 ∷ 3 ∷ 4 ∷ 5 ∷ 255 ∷ []

abbrev pub id_two : MessageId
id_two = 9 ∷ 8 ∷ 7 ∷ 6 ∷ 5 ∷ 4 ∷ []

abbrev pub message : Msg
message = record {
  id = id_one;
  from_node = text "N0CALL-1";
  time = unix_zero + 1700000000;
  channel = text "general";
  reply_to = some id_two;
  body = text "hello";
  seq = some 3;
  author = text "alice";
}

-- the same message in a channel with an upper-case letter
abbrev pub loud_message : Msg
loud_message = record message { channel = text "General" }
