-- ===== src/Daemon/Handlers.antt =====
-- The handlers of received frames.
use rfmpd.Base.{
  Bytes, List, Option, [], false, if◌then◌else◌, none, not, some, suc, true, ℕ, ◌++◌, ◌>>=◌, ◌∷◌,
}
use rfmpd.Base.Int.{pos, to_ℕ}
use rfmpd.Text.{text_eq}
use rfmpd.Message.{MessageId, id_to_hex, id_from_hex}
use rfmpd.Message.Timestamp.{format_timestamp, parse_timestamp}
use rfmpd.Frames.{Msg, Frag, Svec, Vector, msg_to_dict, frag_to_dict, lookup_vector}
use rfmpd.Wire.{Proto, Frame, msg, frag, svec, decode}
use rfmpd.Fragments.{fragment_message, add_fragment}
use rfmpd.Storage.{
  Database, save_message, mark_seen, mark_seen_if_new, save_fragment, queue_transmission,
  increment_rebroadcast_count, update_node_sync,
}
use rfmpd.Storage.Queue.{type_msg, type_frag}
use rfmpd.Storage.Messages.{MessageRow, NewMessage, vector_clock, messages_after}
use rfmpd.Daemon.{Json, Daemon, own_callsign}

abbrev author_or_null : Bytes → Option Bytes
author_or_null [] = none
author_or_null (c ∷ cs) = some (c ∷ cs)

abbrev pub hex_of : Option MessageId → Option Bytes
hex_of none = none
hex_of (some r) = some (id_to_hex r)

-- `msgData` of a received message
unfoldable pub message_data : Msg → NewMessage
message_data m = record {
  id = id_to_hex m.id;
  from_node = m.from_node;
  author = author_or_null m.author;
  timestamp = format_timestamp m.time;
  channel = m.channel;
  reply_to = hex_of m.reply_to;
  body = m.body;
}

module _ (json : Json) (proto : Proto) where
  -- the loop over fragments from index `i` on
  unfoldable pub queue_fragments : ℕ → (ℕ → ℕ) → ℕ → List Frag → Database → Database
  queue_fragments now delay i [] db = db
  queue_fragments now delay i (f ∷ fs) db =
      queue_fragments now delay (suc i) fs
        (queue_transmission now type_frag (json.marshal (frag_to_dict f)) (delay i) db)

  -- A message is queued as its fragments, or whole where it needs none.
  unfoldable pub queue_message : ℕ → (ℕ → ℕ) → Msg → List Frag → Database → Database
  queue_message now delay m [] db =
      queue_transmission now type_msg (json.marshal (msg_to_dict m)) (delay 0) db
  queue_message now delay m (f ∷ fs) db = queue_fragments now delay 0 (f ∷ fs) db

  -- `handleMSG` behind the check of the seen cache: the message is stored and shown to clients,
  unfoldable pub accept_msg : ℕ → Msg → Daemon → Daemon
  accept_msg now m d = record d {
    db = (save_message now (message_data m) m.seq d.db).0;
    broadcasts = message_data m ∷ d.broadcasts;
  }

  -- and queued for a rebroadcast.
  unfoldable pub rebroadcast : ℕ → (ℕ → ℕ) → Msg → Daemon → Daemon
  rebroadcast now delay m d = record d {
    db = increment_rebroadcast_count (id_to_hex m.id) (
        mark_seen now (id_to_hex m.id) none true
          (queue_message now delay m (fragment_message proto d.fragmenter m) d.db));
  }

  unfoldable pub handle_msg : ℕ → (ℕ → ℕ) → Msg → Daemon → Daemon
  handle_msg now delay m d =
      let marked = mark_seen_if_new now (id_to_hex m.id) none d.db in
      let accepted = accept_msg now m (record d { db = marked.0 }) in
      if not marked.1
      then d
      else if text_eq m.from_node (own_callsign d)
      then accepted
      else rebroadcast now delay m accepted

  abbrev pub handle_reassembled : ℕ → (ℕ → ℕ) → Option Msg → Daemon → Daemon
  handle_reassembled now delay none d = d
  handle_reassembled now delay (some m) d = handle_msg now delay m d

  unfoldable pub handle_frag : ℕ → (ℕ → ℕ) → Frag → Daemon → Daemon
  handle_frag now delay f d =
      let key = id_to_hex f.message_id in
      let marked = mark_seen_if_new now key (some f.idx) d.db in
      let added = add_fragment proto now d.fragmenter f in
      if not marked.1
      then d
      else handle_reassembled now delay added.2 (record d {
        db = save_fragment now key f.idx f.total f.payload marked.0;
        fragmenter = added.0;
      })

  abbrev pub reply_or_null : Option Bytes → Option MessageId
  reply_or_null none = none
  reply_or_null (some s) = id_from_hex s

  abbrev pub text_or_empty : Option Bytes → Bytes
  text_or_empty none = []
  text_or_empty (some s) = s

  -- `messageRowToFrame`: `none` if the ID or the timestamp cannot be read.
  unfoldable pub row_to_msg : MessageRow → Option Msg
  row_to_msg r = do
    id ← id_from_hex r.id
    ts ← parse_timestamp r.timestamp
    some (record {
      id = id;
      from_node = r.from_node;
      time = ts;
      channel = r.channel;
      reply_to = reply_or_null r.reply_to;
      body = r.body;
      seq = r.seq;
      author = text_or_empty r.author;
    })

  abbrev pub queue_opt : ℕ → (ℕ → ℕ) → Daemon → Option Msg → Database → Database
  queue_opt now delay d none db = db
  queue_opt now delay d (some m) db =
      queue_message now delay m (fragment_message proto d.fragmenter m) db

  -- Each row has its own random delays.
  unfoldable pub queue_rows : ℕ → (Bytes → ℕ → ℕ) → Daemon → List MessageRow → Database → Database
  queue_rows now delays d [] db = db
  queue_rows now delays d (r ∷ rs) db =
      queue_rows now delays d rs (queue_opt now (delays r.id) d (row_to_msg r) db)

  -- the nodes of our clock that the remote vector lacks, with the number 0
  unfoldable pub missing_nodes : Vector → List (Bytes × ℕ) → Vector
  missing_nodes v [] = []
  missing_nodes v ((node, n) ∷ clock) = elim (lookup_vector node v) [
    | none ↦ (node, pos 0) ∷ missing_nodes v clock
    | some s ↦ missing_nodes v clock
  ]

  -- the loop over `nodesToCheck`; a remote sequence number is never negative
  unfoldable pub answer_nodes : ℕ → (Bytes → ℕ → ℕ) → Daemon → Bytes → Vector → Database → Database
  answer_nodes now delays d from [] db = db
  answer_nodes now delays d from ((node, seq) ∷ rest) db = answer_nodes now delays d from rest (
      if text_eq node from
      then db
      else queue_rows now delays d (messages_after node (to_ℕ seq) db.messages) db)

  unfoldable pub handle_svec : ℕ → (Bytes → ℕ → ℕ) → Svec → Daemon → Daemon
  handle_svec now delays s d =
      let db = update_node_sync now s.from_node (mark_seen now s.from_node none false d.db) in
      let nodes = s.vector ++ missing_nodes s.vector (vector_clock db.messages) in
      record d { db = answer_nodes now delays d s.from_node nodes db }

  unfoldable pub handle_frame : ℕ → (ℕ → ℕ) → (Bytes → ℕ → ℕ) → Option Frame → Daemon → Daemon
  handle_frame now delay delays none d = d
  handle_frame now delay delays (some (msg m)) d = handle_msg now delay m d
  handle_frame now delay delays (some (frag f)) d = handle_frag now delay f d
  handle_frame now delay delays (some (svec s)) d = handle_svec now delays s d

  -- `handleReceivedFrame`; what cannot be decoded is dropped
  unfoldable pub handle_received : ℕ → (ℕ → ℕ) → (Bytes → ℕ → ℕ) → Bytes → Daemon → Daemon
  handle_received now delay delays info d = handle_frame now delay delays (decode proto info) d
