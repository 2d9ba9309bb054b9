-- ===== src/Fragments.antt =====
-- internal/protocol/fragmentation.go: cutting messages into fragments, and collecting fragments
-- until a message is complete. Calls hold the mutex throughout, so they are steps of one state.
pub mod Chunks
pub mod Collected
pub mod Holding
pub mod Adding
pub mod Reassembly
use rfmpd.Base.{
  Bool, Bytes, List, Option, [], drop, false, if◌then◌else◌, is_empty, leb, length, ltb, max, none,
  not, some, suc, take, true, zero, ℕ, ◌&&◌, ◌*◌, ◌++◌, ◌+◌, ◌-◌, ◌/◌, ◌==◌, ◌∷◌,
}
use rfmpd.Text.{text_eq}
use rfmpd.Message.{MessageId, id_to_hex}
use rfmpd.Message.Timestamp.{Time}
use rfmpd.Frames.{Msg, Frag}
use rfmpd.Wire.{Proto, max_fragments, encode_msg_raw, decode_msg_raw}

abbrev pub frag_overhead : ℕ
frag_overhead = 15

-- `map[int][]byte`
abbrev pub Pieces : Type 0
Pieces = List (ℕ × Bytes)

abbrev pub find_piece : ℕ → Pieces → Option Bytes
find_piece i [] = none
find_piece i ((j, b) ∷ ps) = if j == i then some b else find_piece i ps

-- `FragmentCollector`; the timeout is the constant below.
pub record Collector : Type 0 where
  pub message_id : MessageId
  pub total_fragments : ℕ
  pub fragments : Pieces
  pub first_seen : Time

-- five minutes
abbrev pub collector_timeout : ℕ
collector_timeout = 300

unfoldable pub new_collector : MessageId → ℕ → Time → Collector
new_collector id total now = record {
  message_id = id;
  total_fragments = total;
  fragments = [];
  first_seen = now;
}

abbrev pub is_some {ℓ} : {A : Type ℓ} → Option A → Bool
is_some none = false
is_some (some a) = true

unfoldable pub collector_add : Collector → Frag → Collector × Bool
collector_add c f =
    if not (text_eq f.message_id c.message_id)
    then (c, false)
    else if not (f.total == c.total_fragments)
    then (c, false)
    else if is_some (find_piece f.idx c.fragments)
    then (c, false)
    else (record c { fragments = (f.idx, f.payload) ∷ c.fragments }, true)

unfoldable pub is_complete : Collector → Bool
is_complete c = length c.fragments == c.total_fragments

unfoldable pub is_expired : Time → Collector → Bool
is_expired now c = ltb (c.first_seen + collector_timeout) now

-- the indexes from `i` on, `k` of them
unfoldable pub missing_from : Pieces → ℕ → ℕ → List ℕ
missing_from ps i zero = []
missing_from ps i (suc k) =
    let rest = missing_from ps (suc i) k in if is_some (find_piece i ps) then rest else i ∷ rest

unfoldable pub missing_indexes : Collector → List ℕ
unfolding missing_from
missing_indexes c = missing_from c.fragments 0 c.total_fragments

abbrev pub piece_or_nil : Option Bytes → Bytes
piece_or_nil none = []
piece_or_nil (some b) = b

unfoldable pub join_from : Pieces → ℕ → ℕ → Bytes
join_from ps i zero = []
join_from ps i (suc k) = piece_or_nil (find_piece i ps) ++ join_from ps (suc i) k

-- The nil slice is `[]`: appending empty fragments to nil leaves nil.
unfoldable pub reassemble : Collector → Bytes
reassemble c = if is_complete c then join_from c.fragments 0 c.total_fragments else []

-- `Fragmenter`. A threshold below 0 acts as 0.
pub record Fragmenter : Type 0 where
  pub threshold : ℕ
  pub collectors : List (Bytes × Collector)

unfoldable pub new_fragmenter : ℕ → Fragmenter
new_fragmenter threshold = record { threshold = threshold; collectors = [] }

unfoldable pub find_collector : Bytes → List (Bytes × Collector) → Option Collector
find_collector k [] = none
find_collector k ((j, c) ∷ cs) = if text_eq j k then some c else find_collector k cs

unfoldable pub set_collector :
    Bytes → Collector → List (Bytes × Collector) → List (Bytes × Collector)
set_collector k c [] = (k, c) ∷ []
set_collector k c ((j, d) ∷ cs) = if text_eq j k then (k, c) ∷ cs else (j, d) ∷ set_collector k c cs

unfoldable pub delete_collector : Bytes → List (Bytes × Collector) → List (Bytes × Collector)
delete_collector k [] = []
delete_collector k ((j, c) ∷ cs) =
    if text_eq j k then delete_collector k cs else (j, c) ∷ delete_collector k cs

abbrev pub fragment_size : ℕ → ℕ
fragment_size threshold = max 1 (threshold - frag_overhead)

-- `math.Ceil` of the quotient; exact in float64 for any length a message can have.
abbrev pub fragment_count : ℕ → ℕ → ℕ
fragment_count len size = (len + (size - 1)) / size

-- `encoded[start:end]` of fragment `i`
abbrev pub chunk : Bytes → ℕ → ℕ → Bytes
chunk bs size i = take size (drop (i * size) bs)

-- the loop from `i` on, with `k` rounds left
unfoldable pub fragments_from : MessageId → Bytes → ℕ → ℕ → ℕ → ℕ → List Frag
fragments_from id bs size total i zero = []
fragments_from id bs size total i (suc k) =
    record { message_id = id; idx = i; total = total; payload = chunk bs size i }
    ∷ fragments_from id bs size total (suc i) k

-- the fragments of an encoded message
unfoldable pub fragment_bytes : ℕ → MessageId → Bytes → List Frag
unfolding fragments_from
fragment_bytes threshold id bs =
    if leb (length bs) threshold
    then []
    else fragments_from id bs (fragment_size threshold)
        (fragment_count (length bs) (fragment_size threshold)) 0
        (fragment_count (length bs) (fragment_size threshold))

abbrev pub collector_or_new : Option Collector → Frag → Time → Collector
collector_or_new none f now = new_collector f.message_id f.total now
collector_or_new (some c) f now = c

unfoldable pub remove_expired :
    Time → List (Bytes × Collector) → List Bytes × List (Bytes × Collector)
remove_expired now [] = ([], [])
remove_expired now ((k, c) ∷ cs) =
    let r = remove_expired now cs in
    if is_expired now c then (k ∷ r.0, r.1) else (r.0, (k, c) ∷ r.1)

unfoldable pub cleanup_expired : Time → Fragmenter → List Bytes × Fragmenter
cleanup_expired now fr =
    let r = remove_expired now fr.collectors in (r.0, record fr { collectors = r.1 })

module _ (proto : Proto) where
  unfoldable pub fragment_message : Fragmenter → Msg → List Frag
  fragment_message fr m = fragment_bytes fr.threshold m.id (encode_msg_raw proto m)

  -- `DecodeMsgRaw` of the reassembled bytes, if there are any
  abbrev pub decode_complete : Collector → Option Msg
  decode_complete c =
      if is_complete c && not (is_empty (reassemble c))
      then decode_msg_raw proto (reassemble c)
      else none

  -- What follows `collector.AddFragment`, whose result is `added`.
  unfoldable pub finish_add : Bytes → Fragmenter → Collector × Bool → Fragmenter × Bool × Option Msg
  finish_add key fr added =
      let stored = set_collector key added.0 fr.collectors in
      elim (decode_complete added.0) [
        | none ↦ (record fr { collectors = stored }, added.1, none)
        | some m ↦ (record fr { collectors = delete_collector key stored }, added.1, some m)
      ]

  -- The collector of `key` takes the fragment.
  abbrev pub collected : Bytes → Fragmenter → Time → Frag → Collector × Bool
  collected key fr now f =
      collector_add (collector_or_new (find_collector key fr.collectors) f now) f

  -- The result is whether the fragment is new, and the message that it completes.
  unfoldable pub add_fragment : Time → Fragmenter → Frag → Fragmenter × Bool × Option Msg
  add_fragment now fr f =
      let key = id_to_hex f.message_id in
      if ltb max_fragments f.total
      then (fr, false, none)
      else finish_add key fr (collected key fr now f)
