-- ===== src/Storage/Messages.antt =====
-- The table `messages`.
use rfmpd.Base.{
  Bool, Bytes, List, Option, [], false, if◌then◌else◌, leb, ltb, map, max, none, not, some, take,
  true, ℕ, ◌&&◌, ◌+◌, ◌==◌, ◌||◌, ◌∷◌,
}
use rfmpd.Text.{text_eq}

pub record MessageRow : Type 0 where
  pub id : Bytes
  pub from_node : Bytes
  pub author : Option Bytes
  pub timestamp : Bytes
  pub channel : Bytes
  pub reply_to : Option Bytes
  pub body : Bytes
  pub received_at : ℕ
  pub transmitted_at : Option ℕ
  pub rebroadcast_count : ℕ
  pub seq : Option ℕ

-- The values of an insert, but for the sequence number and the clock.
pub record NewMessage : Type 0 where
  pub id : Bytes
  pub from_node : Bytes
  pub author : Option Bytes
  pub timestamp : Bytes
  pub channel : Bytes
  pub reply_to : Option Bytes
  pub body : Bytes

abbrev pub new_row : ℕ → NewMessage → Option ℕ → MessageRow
new_row now m seq = record {
  id = m.id;
  from_node = m.from_node;
  author = m.author;
  timestamp = m.timestamp;
  channel = m.channel;
  reply_to = m.reply_to;
  body = m.body;
  received_at = now;
  transmitted_at = none;
  rebroadcast_count = 0;
  seq = seq;
}

abbrev pub same_seq : Option ℕ → Option ℕ → Bool
same_seq (some n) (some m) = n == m
same_seq (some n) none = false
same_seq none o = false

-- The primary key, and the unique index on `(from_node, seq)` where `seq` is not NULL.
abbrev pub row_conflicts : NewMessage → Option ℕ → MessageRow → Bool
row_conflicts m seq r = text_eq r.id m.id || (text_eq r.from_node m.from_node && same_seq r.seq seq)

unfoldable pub conflicts : NewMessage → Option ℕ → List MessageRow → Bool
conflicts m seq [] = false
conflicts m seq (r ∷ rs) = row_conflicts m seq r || conflicts m seq rs

abbrev pub seq_of : Option ℕ → ℕ
seq_of none = 0
seq_of (some n) = n

-- `COALESCE(MAX(seq), 0)` of a node
unfoldable pub max_seq : Bytes → List MessageRow → ℕ
max_seq node [] = 0
max_seq node (r ∷ rs) =
    let rest = max_seq node rs in if text_eq r.from_node node then max (seq_of r.seq) rest else rest

unfoldable pub find_message : Bytes → List MessageRow → Option MessageRow
find_message id [] = none
find_message id (r ∷ rs) = if text_eq r.id id then some r else find_message id rs

unfoldable pub count_in_channel : Bytes → List MessageRow → ℕ
count_in_channel name [] = 0
count_in_channel name (r ∷ rs) =
    (if text_eq r.channel name then 1 else 0) + count_in_channel name rs

abbrev pub has_node : Bytes → Bytes → List MessageRow → Bool
has_node node channel [] = false
has_node node channel (r ∷ rs) =
    (text_eq r.from_node node && text_eq r.channel channel) || has_node node channel rs

-- `COUNT(DISTINCT from_node)` in a channel
unfoldable pub unique_nodes : Bytes → List MessageRow → ℕ
unique_nodes channel [] = 0
unique_nodes channel (r ∷ rs) =
    (if text_eq r.channel channel && not (has_node r.from_node channel rs) then 1 else 0)
    + unique_nodes channel rs

-- The numbers that are not NULL, of one node, in ascending order.
unfoldable pub insert_seq : ℕ → List ℕ → List ℕ
insert_seq n [] = n ∷ []
insert_seq n (m ∷ ms) = if leb n m then n ∷ m ∷ ms else m ∷ insert_seq n ms

abbrev pub with_seq : Option ℕ → List ℕ → List ℕ
with_seq none ns = ns
with_seq (some n) ns = insert_seq n ns

unfoldable pub seqs_of : Bytes → List MessageRow → List ℕ
seqs_of node [] = []
seqs_of node (r ∷ rs) =
    let rest = seqs_of node rs in if text_eq r.from_node node then with_seq r.seq rest else rest

-- The loop over the sequence numbers of a node.
unfoldable pub contiguous : ℕ → List ℕ → ℕ
contiguous c [] = c
contiguous c (s ∷ ss) = contiguous (if s == c + 1 then s else c) ss

-- The entry of a node in `GetVectorClock`, 0 where it has none.
unfoldable pub clock_of : Bytes → List MessageRow → ℕ
clock_of node rs = contiguous 0 (seqs_of node rs)

abbrev pub mem_text : Bytes → List Bytes → Bool
mem_text s [] = false
mem_text s (t ∷ ts) = text_eq t s || mem_text s ts

unfoldable pub nodes_of : List MessageRow → List Bytes
nodes_of [] = []
nodes_of (r ∷ rs) =
    let rest = nodes_of rs in if mem_text r.from_node rest then rest else r.from_node ∷ rest

abbrev pub clock_entries : List MessageRow → List Bytes → List (Bytes × ℕ)
clock_entries rs [] = []
clock_entries rs (n ∷ ns) =
    let rest = clock_entries rs ns in
    if ltb 0 (clock_of n rs) then (n, clock_of n rs) ∷ rest else rest

-- `GetVectorClock`
unfoldable pub vector_clock : List MessageRow → List (Bytes × ℕ)
unfolding nodes_of clock_of
vector_clock rs = clock_entries rs (nodes_of rs)

unfoldable pub insert_by_seq : MessageRow → List MessageRow → List MessageRow
insert_by_seq r [] = r ∷ []
insert_by_seq r (q ∷ qs) =
    if leb (seq_of r.seq) (seq_of q.seq) then r ∷ q ∷ qs else q ∷ insert_by_seq r qs

-- `from_node = ? AND seq > ?`; a comparison with NULL does not hold.
abbrev pub after_seq : Bytes → ℕ → MessageRow → Bool
after_seq node n r = text_eq r.from_node node && ltb n (seq_of r.seq)

-- `GetMessagesAfterSeq`
unfoldable pub messages_after : Bytes → ℕ → List MessageRow → List MessageRow
messages_after node n [] = []
messages_after node n (r ∷ rs) =
    let rest = messages_after node n rs in if after_seq node n r then insert_by_seq r rest else rest

unfoldable pub set_transmitted : ℕ → Bytes → List MessageRow → List MessageRow
set_transmitted now id =
    map (λ r. if text_eq r.id id then record r { transmitted_at = some now } else r)

unfoldable pub add_rebroadcast : Bytes → List MessageRow → List MessageRow
add_rebroadcast id =
    map
      (λ r. if text_eq r.id id then record r { rebroadcast_count = r.rebroadcast_count + 1 } else r)

abbrev pub matches : Option Bytes → Bytes → Bool
matches none s = true
matches (some t) s = text_eq t s

unfoldable pub insert_recent : MessageRow → List MessageRow → List MessageRow
insert_recent r [] = r ∷ []
insert_recent r (q ∷ qs) =
    if leb q.received_at r.received_at then r ∷ q ∷ qs else q ∷ insert_recent r qs

-- the filters of `GetRecentMessages`, latest first
unfoldable pub recent_all : Option Bytes → Option Bytes → List MessageRow → List MessageRow
recent_all channel from_node [] = []
recent_all channel from_node (r ∷ rs) =
    let rest = recent_all channel from_node rs in
    if matches channel r.channel && matches from_node r.from_node
    then insert_recent r rest
    else rest

unfoldable pub recent : ℕ → Option Bytes → Option Bytes → List MessageRow → List MessageRow
recent limit channel from_node rs = take limit (recent_all channel from_node rs)
