-- ===== src/Daemon/Sending.antt =====
-- Messages from the API, and the vector clock that the sync loop sends.
use rfmpd.Base.{Bytes, Option, [], false, map, none, some, ℕ, ◌+◌, ◌∷◌}
use rfmpd.Base.Int.{pos}
use rfmpd.Message.{id_to_hex, generate_message_id}
use rfmpd.Message.Timestamp.{unix_zero, to_epoch, format_timestamp}
use rfmpd.Frames.{Msg, Svec, svec_to_dict}
use rfmpd.Wire.{Proto}
use rfmpd.Fragments.{fragment_message}
use rfmpd.Storage.{
  Database, save_message_with_seq, mark_seen, queue_transmission, update_user_stats,
}
use rfmpd.Storage.Queue.{type_svec}
use rfmpd.Storage.Messages.{NewMessage, vector_clock}
use rfmpd.Daemon.{Json, Daemon, own_callsign}
use rfmpd.Daemon.Handlers.{queue_message, reply_or_null, text_or_empty}

-- the vector clock that `broadcastSVEC` sends
unfoldable pub own_svec : Daemon → Svec
own_svec d = record {
  from_node = own_callsign d;
  vector = map (λ (k, n). (k, pos n)) (vector_clock d.db.messages);
}

module _ (json : Json) (proto : Proto) where
  -- `broadcastSVEC`
  unfoldable pub broadcast_svec : ℕ → ℕ → Daemon → Daemon
  broadcast_svec now delay d = record d {
    db = queue_transmission now type_svec (json.marshal (svec_to_dict (own_svec d))) delay d.db;
  }

  abbrev sender_for_id : Bytes → Option Bytes → Bytes
  sender_for_id own none = own
  sender_for_id own (some []) = own
  sender_for_id own (some (c ∷ cs)) = c ∷ cs

  abbrev pub count_author : ℕ → Option Bytes → Database → Database
  count_author now none db = db
  count_author now (some []) db = db
  count_author now (some (c ∷ cs)) db = update_user_stats now (c ∷ cs) db

  -- The message that `SendMessage` makes at Unix time `now`, but for the sequence number.
  unfoldable pub new_msg :
      (Bytes → Bytes) → ℕ → Bytes → Bytes → Option Bytes → Option Bytes → Daemon → ℕ → Msg
  new_msg sha256 now channel body reply_to author d seq =
      let time = unix_zero + now in
      record {
        id =
            generate_message_id sha256 (sender_for_id (own_callsign d) author) (to_epoch time) body;
        from_node = own_callsign d;
        time = time;
        channel = channel;
        reply_to = reply_or_null json proto reply_to;
        body = body;
        seq = some seq;
        author = text_or_empty json proto author;
      }

  -- What `SendMessage` does once the message has its sequence number.
  unfoldable pub send_saved :
      ℕ → (ℕ → ℕ) → Option Bytes → NewMessage → Msg → Database → Daemon → Daemon
  send_saved now delay author row m db d = record d {
    db = count_author now author (
        mark_seen now row.id none false
          (queue_message json proto now delay m (fragment_message proto d.fragmenter m) db));
    broadcasts = row ∷ d.broadcasts;
  }

  -- `msgData` of a message that is sent
  unfoldable pub sent_data : Option Bytes → Option Bytes → Msg → NewMessage
  sent_data reply_to author m = record {
    id = id_to_hex m.id;
    from_node = m.from_node;
    author = author;
    timestamp = format_timestamp m.time;
    channel = m.channel;
    reply_to = reply_to;
    body = m.body;
  }

  -- What follows `SaveMessageWithSeq`, for its result.
  unfoldable pub finish_message :
      ℕ
      → (ℕ → ℕ)
      → Option Bytes
      → NewMessage
      → (ℕ → Msg)
      → Daemon
      → Option (Database × ℕ)
      → Option (Daemon × Msg)
  finish_message now delay author row m d none = none
  finish_message now delay author row m d (some (db, seq)) =
      some (send_saved now delay author row (m seq) db d, m seq)

  -- `SendMessage`: the new state and the message, or `none` if the row cannot be inserted.
  unfoldable pub send_message :
      (Bytes → Bytes)
      → ℕ
      → (ℕ → ℕ)
      → Bytes
      → Bytes
      → Option Bytes
      → Option Bytes
      → Daemon
      → Option (Daemon × Msg)
  send_message sha256 now delay channel body reply_to author d =
      let m = new_msg sha256 now channel body reply_to author d in
      let row = sent_data reply_to author (m 0) in
      finish_message now delay author row m d (save_message_with_seq now row d.db)
