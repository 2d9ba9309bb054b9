-- ===== src/Frames.antt =====
-- internal/protocol/frames.go: the three frame types, and their dictionaries of strings.
-- `RoundTrip` proves that dictionaries are read back.
pub mod RoundTrip
use rfmpd.Base.{
  Bool, Bytes, List, Option, [], false, if◌then◌else◌, is_empty, leb, ltb, map, none, some, true, ℕ,
  ◌&&◌, ◌++◌, ◌==◌, ◌>>=◌, ◌||◌, ◌∷◌,
}
use rfmpd.Base.Int.{ℤ, pos, negsuc, to_ℕ}
use rfmpd.Text.{atoi, itoa_ℕ, itoa, text_le, text_eq}
use rfmpd.Message.{MessageId, id_to_hex, id_from_hex}
use rfmpd.Message.Hex.{hex_encode, hex_decode}
use rfmpd.Message.Timestamp.{Time, format_timestamp, parse_timestamp}

-- `MSG`. A sequence number is never negative: every place that sets one sets at least 1.
pub record Msg : Type 0 where
  pub id : MessageId
  pub from_node : Bytes
  pub time : Time
  pub channel : Bytes
  pub reply_to : Option MessageId
  pub body : Bytes
  pub seq : Option ℕ
  pub author : Bytes

pub record Frag : Type 0 where
  pub message_id : MessageId
  pub idx : ℕ
  pub total : ℕ
  pub payload : Bytes

-- `map[string]int` as an association list, newest first; the order stands for the order in
-- which Go happens to iterate.
abbrev pub Vector : Type 0
Vector = List (Bytes × ℤ)

pub record Svec : Type 0 where
  pub from_node : Bytes
  pub vector : Vector

-- The keys of the dictionaries.
pub data Key : Type 0 where
  k_id k_from k_time k_chan k_reply k_body k_author k_seq : Key
  k_msgid k_idx k_total k_data k_vec : Key

abbrev pub key_code : Key → ℕ
key_code k_id = 0
key_code k_from = 1
key_code k_time = 2
key_code k_chan = 3
key_code k_reply = 4
key_code k_body = 5
key_code k_author = 6
key_code k_seq = 7
key_code k_msgid = 8
key_code k_idx = 9
key_code k_total = 10
key_code k_data = 11
key_code k_vec = 12

-- `map[string]string`
abbrev pub Dict : Type 0
Dict = List (Key × Bytes)

abbrev pub find : Key → Dict → Option Bytes
find k [] = none
find k ((j, v) ∷ d) = if key_code j == key_code k then some v else find k d

abbrev pub text_or_nil : Option Bytes → Bytes
text_or_nil none = []
text_or_nil (some v) = v

-- `d[key]`: the empty string where the key is missing.
abbrev pub get : Key → Dict → Bytes
get k d = text_or_nil (find k d)

abbrev pub reply_hex : Option MessageId → Bytes
reply_hex none = []
reply_hex (some r) = hex_encode r

abbrev pub seq_entry : Option ℕ → Dict
seq_entry none = []
seq_entry (some n) = (k_seq, itoa_ℕ n) ∷ []

unfoldable pub msg_to_dict : Msg → Dict
msg_to_dict m =
    (k_id, id_to_hex m.id)
    ∷ (k_from, m.from_node)
    ∷ (k_time, format_timestamp m.time)
    ∷ (k_chan, m.channel)
    ∷ (k_reply, reply_hex m.reply_to)
    ∷ (k_body, m.body)
    ∷ (k_author, m.author)
    ∷ seq_entry m.seq

-- A rune above 127 has a byte above 127, and so has an invalid byte.
unfoldable pub is_valid_channel : Bytes → Bool
is_valid_channel [] = true
is_valid_channel (c ∷ cs) =
    if ltb 127 c then false else if leb b'A' c && leb c b'Z' then false else is_valid_channel cs

abbrev pub is_dash : Bytes → Bool
is_dash (c ∷ []) = c == b'-'
is_dash _ = false

-- The reply of a dictionary: absent, present, or `none` if it is no ID.
abbrev pub read_reply : Bytes → Option (Option MessageId)
read_reply r = if is_empty r || is_dash r then some none else (id_from_hex r >>= λ i. some (some i))

abbrev pub check_seq : ℤ → Option (Option ℕ)
check_seq (pos n) = if ltb n 1 then none else some (some n)
check_seq (negsuc n) = none

abbrev pub read_seq : Option Bytes → Option (Option ℕ)
read_seq none = some none
read_seq (some []) = some none
read_seq (some (c ∷ cs)) = atoi (c ∷ cs) >>= check_seq

-- `none` is an error, with which the pointer is nil.
unfoldable pub msg_from_dict : Dict → Option Msg
msg_from_dict d = do
  id ← id_from_hex (get k_id d)
  ts ← (if is_valid_channel (get k_chan d) then parse_timestamp (get k_time d) else none)
  reply ← read_reply (get k_reply d)
  seq ← read_seq (find k_seq d)
  some (record {
    id = id;
    from_node = get k_from d;
    time = ts;
    channel = get k_chan d;
    reply_to = reply;
    body = get k_body d;
    seq = seq;
    author = get k_author d;
  })

unfoldable pub frag_to_dict : Frag → Dict
frag_to_dict f =
    (k_msgid, id_to_hex f.message_id)
    ∷ (k_idx, itoa_ℕ f.idx)
    ∷ (k_total, itoa_ℕ f.total)
    ∷ (k_data, hex_encode f.payload)
    ∷ []

-- `idx < 0 || idx >= total` is refused.
abbrev pub check_index : ℤ → ℤ → Option (ℕ × ℕ)
check_index (pos i) (pos t) = if ltb i t then some (i, t) else none
check_index _ _ = none

unfoldable pub frag_from_dict : Dict → Option Frag
frag_from_dict d = do
  id ← id_from_hex (get k_msgid d)
  idx ← atoi (get k_idx d)
  total ← atoi (get k_total d)
  (i, t) ← check_index idx total
  bs ← hex_decode (get k_data d)
  some (record { message_id = id; idx = i; total = t; payload = bs })

unfoldable pub lookup_vector : Bytes → Vector → Option ℤ
lookup_vector k [] = none
lookup_vector k ((j, v) ∷ m) = if text_eq j k then some v else lookup_vector k m

unfoldable pub insert_key : Bytes → List Bytes → List Bytes
insert_key k [] = k ∷ []
insert_key k (j ∷ js) = if text_le k j then k ∷ j ∷ js else j ∷ insert_key k js

unfoldable pub sort_keys : List Bytes → List Bytes
sort_keys [] = []
sort_keys (k ∷ ks) = insert_key k (sort_keys ks)

abbrev pub keys_of : Vector → List Bytes
keys_of [] = []
keys_of ((k, v) ∷ m) = k ∷ keys_of m

-- `sortedKeys`
unfoldable pub sorted_keys : Vector → List Bytes
sorted_keys m = sort_keys (keys_of m)

abbrev pub value_or_zero : Option ℤ → ℤ
value_or_zero none = pos 0
value_or_zero (some v) = v

abbrev pub entry : Vector → Bytes → Bytes
entry m k = k ++ (b':' ∷ itoa (value_or_zero (lookup_vector k m)))

-- `strings.Join` with a comma
unfoldable pub join : List Bytes → Bytes
join [] = []
join (s ∷ []) = s
join (s ∷ t ∷ ss) = s ++ (b',' ∷ join (t ∷ ss))

unfoldable pub svec_to_dict : Svec → Dict
svec_to_dict s =
    (k_from, s.from_node) ∷ (k_vec, join (map (entry s.vector) (sorted_keys s.vector))) ∷ []

abbrev pub onto_first : ℕ → List Bytes → List Bytes
onto_first c [] = (c ∷ []) ∷ []
onto_first c (s ∷ ss) = (c ∷ s) ∷ ss

-- `strings.Split` at commas
unfoldable pub split : Bytes → List Bytes
split [] = [] ∷ []
split (c ∷ cs) = if c == b',' then [] ∷ split cs else onto_first c (split cs)

-- The two slices around the last colon, if there is one.
unfoldable pub cut_last : Bytes → Option (Bytes × Bytes)
cut_last [] = none
cut_last (c ∷ cs) = elim (cut_last cs) [
  | none ↦ if c == b':' then some ([], cs) else none
  | some (pre, post) ↦ some (c ∷ pre, post)
]

-- `vector[callsign] = seq` for each entry; an entry with no colon is skipped.
unfoldable pub read_entries : Vector → List Bytes → Option Vector
read_entries m [] = some m
read_entries m (e ∷ es) = elim (cut_last e) [
  | none ↦ read_entries m es
  | some (callsign, seq_str) ↦ atoi seq_str >>= λ seq. read_entries ((callsign, seq) ∷ m) es
]

unfoldable pub svec_from_dict : Dict → Option Svec
svec_from_dict d =
    if is_empty (get k_from d)
    then none
    else if is_empty (get k_vec d)
    then some (record { from_node = get k_from d; vector = [] })
    else (read_entries [] (split (get k_vec d)) >>= λ m.
        some (record { from_node = get k_from d; vector = m }))
