-- ===== src/Daemon/Evolution.antt =====
-- What each step of the daemon does to the database, statement by statement.
use rfmpd.Base.{
  Bool, Bytes, List, Option, [], false, if◌then◌else◌, none, not, refl, some, subst, suc, true, ℕ,
  ◌++◌, ◌∷◌, ◌≡◌,
}
use rfmpd.Base.Int.{to_ℕ}
use rfmpd.Text.{text_eq}
use rfmpd.Message.{id_to_hex}
use rfmpd.Frames.{Msg, Frag, Svec, Vector, msg_to_dict, frag_to_dict}
use rfmpd.Wire.{Proto, Frame, msg, frag, svec, decode}
use rfmpd.Fragments.{fragment_message, add_fragment}
use rfmpd.Storage.{
  Database, save_message_with_seq, mark_seen, mark_seen_if_new, save_fragment, queue_transmission,
  increment_rebroadcast_count, update_node_sync,
}
use rfmpd.Storage.Messages.{MessageRow, NewMessage, vector_clock, messages_after}
use rfmpd.Storage.Queue.{type_msg, type_frag, type_svec}
use rfmpd.Storage.Statements.{
  Evolves, Evolves-refl, Evolves-trans, save_message-Evolves, save_message_with_seq-Evolves,
  mark_seen-Evolves, mark_seen_if_new-Evolves, save_fragment-Evolves, queue_transmission-Evolves,
  increment_rebroadcast_count-Evolves, update_node_sync-Evolves, update_user_stats-Evolves,
}
use rfmpd.Daemon.{Json, Daemon, own_callsign}
use rfmpd.Daemon.Handlers.{
  queue_fragments, queue_message, accept_msg, rebroadcast, handle_msg, handle_reassembled,
  handle_frag, queue_opt, queue_rows, missing_nodes, answer_nodes, handle_svec, handle_frame,
  handle_received, message_data, row_to_msg,
}
use rfmpd.Daemon.Sending.{
  broadcast_svec, count_author, send_saved, finish_message, send_message, new_msg, sent_data,
}

if-Evolves :
    (b : Bool) (db x y : Database) → Evolves db x → Evolves db y → Evolves db (if b then x else y)
if-Evolves true db x y p q = p
if-Evolves false db x y p q = q

module _ (json : Json) (proto : Proto) where
  queue_fragments-Evolves :
      (now : ℕ) (delay : ℕ → ℕ) (i : ℕ) (fs : List Frag) (db : Database)
      → Evolves db (queue_fragments json proto now delay i fs db)
  unfolding queue_fragments
  queue_fragments-Evolves now delay i [] db = Evolves-refl db
  queue_fragments-Evolves now delay i (f ∷ fs) db =
      let db' = queue_transmission now type_frag (json.marshal (frag_to_dict f)) (delay i) db in
      Evolves-trans db db' (queue_fragments json proto now delay (suc i) fs db')
        (queue_transmission-Evolves now type_frag (json.marshal (frag_to_dict f)) (delay i) db)
        (queue_fragments-Evolves now delay (suc i) fs db')

  pub queue_message-Evolves :
      (now : ℕ) (delay : ℕ → ℕ) (m : Msg) (fs : List Frag) (db : Database)
      → Evolves db (queue_message json proto now delay m fs db)
  unfolding queue_message
  queue_message-Evolves now delay m [] db =
      queue_transmission-Evolves now type_msg (json.marshal (msg_to_dict m)) (delay 0) db
  queue_message-Evolves now delay m (f ∷ fs) db = queue_fragments-Evolves now delay 0 (f ∷ fs) db

  rebroadcast-Evolves :
      (now : ℕ) (delay : ℕ → ℕ) (m : Msg) (d : Daemon)
      → Evolves d.db (rebroadcast json proto now delay m d).db
  unfolding rebroadcast
  rebroadcast-Evolves now delay m d =
      let q = queue_message json proto now delay m (fragment_message proto d.fragmenter m) d.db in
      let s = mark_seen now (id_to_hex m.id) none true q in
      Evolves-trans d.db q (increment_rebroadcast_count (id_to_hex m.id) s)
        (queue_message-Evolves now delay m (fragment_message proto d.fragmenter m) d.db)
        (Evolves-trans q s (increment_rebroadcast_count (id_to_hex m.id) s)
          (mark_seen-Evolves now (id_to_hex m.id) none true q)
          (increment_rebroadcast_count-Evolves (id_to_hex m.id) s))

  accept_msg-Evolves :
      (now : ℕ) (m : Msg) (d : Daemon) → Evolves d.db (accept_msg json proto now m d).db
  unfolding accept_msg
  accept_msg-Evolves now m d = save_message-Evolves now (message_data m) m.seq d.db

  if-db :
      (b : Bool) (db : Database) (x y : Daemon)
      → Evolves db x.db
      → Evolves db y.db
      → Evolves db (if b then x else y).db
  if-db true db x y p q = p
  if-db false db x y p q = q

  handle_msg-Evolves :
      (now : ℕ) (delay : ℕ → ℕ) (m : Msg) (d : Daemon)
      → Evolves d.db (handle_msg json proto now delay m d).db
  unfolding handle_msg
  handle_msg-Evolves now delay m d =
      let marked = mark_seen_if_new now (id_to_hex m.id) none d.db in
      let d' : Daemon = record d { db = marked.0 } in
      let accepted = accept_msg json proto now m d' in
      let p : Evolves d.db accepted.db =
        Evolves-trans d.db marked.0 accepted.db
          (mark_seen_if_new-Evolves now (id_to_hex m.id) none d.db) (accept_msg-Evolves now m d') in
      let q : Evolves d.db (rebroadcast json proto now delay m accepted).db =
        Evolves-trans d.db accepted.db (rebroadcast json proto now delay m accepted).db p
          (rebroadcast-Evolves now delay m accepted) in
      if-db (not marked.1) d.db d
        (if text_eq m.from_node (own_callsign d)
          then accepted
          else rebroadcast json proto now delay m accepted)
        (Evolves-refl d.db)
        (if-db (text_eq m.from_node (own_callsign d)) d.db accepted
          (rebroadcast json proto now delay m accepted) p q)

  handle_reassembled-Evolves :
      (now : ℕ) (delay : ℕ → ℕ) (o : Option Msg) (d : Daemon)
      → Evolves d.db (handle_reassembled json proto now delay o d).db
  handle_reassembled-Evolves now delay none d = Evolves-refl d.db
  handle_reassembled-Evolves now delay (some m) d = handle_msg-Evolves now delay m d

  handle_frag-Evolves :
      (now : ℕ) (delay : ℕ → ℕ) (f : Frag) (d : Daemon)
      → Evolves d.db (handle_frag json proto now delay f d).db
  unfolding handle_frag
  handle_frag-Evolves now delay f d =
      let key = id_to_hex f.message_id in
      let marked = mark_seen_if_new now key (some f.idx) d.db in
      let added = add_fragment proto now d.fragmenter f in
      let kept = save_fragment now key f.idx f.total f.payload marked.0 in
      let d' : Daemon = record d { db = kept; fragmenter = added.0 } in
      let done = handle_reassembled json proto now delay added.2 d' in
      if-db (not marked.1) d.db d done (Evolves-refl d.db) (
        Evolves-trans d.db marked.0 done.db (mark_seen_if_new-Evolves now key (some f.idx) d.db) (
          Evolves-trans marked.0 kept done.db
            (save_fragment-Evolves now key f.idx f.total f.payload marked.0)
            (handle_reassembled-Evolves now delay added.2 d')))

  queue_opt-Evolves :
      (now : ℕ) (delay : ℕ → ℕ) (d : Daemon) (o : Option Msg) (db : Database)
      → Evolves db (queue_opt json proto now delay d o db)
  queue_opt-Evolves now delay d none db = Evolves-refl db
  queue_opt-Evolves now delay d (some m) db =
      queue_message-Evolves now delay m (fragment_message proto d.fragmenter m) db

  queue_rows-Evolves :
      (now : ℕ) (delays : Bytes → ℕ → ℕ) (d : Daemon) (rs : List MessageRow) (db : Database)
      → Evolves db (queue_rows json proto now delays d rs db)
  unfolding queue_rows
  queue_rows-Evolves now delays d [] db = Evolves-refl db
  queue_rows-Evolves now delays d (r ∷ rs) db =
      let db' = queue_opt json proto now (delays r.id) d (row_to_msg json proto r) db in
      Evolves-trans db db' (queue_rows json proto now delays d rs db')
        (queue_opt-Evolves now (delays r.id) d (row_to_msg json proto r) db)
        (queue_rows-Evolves now delays d rs db')

  answer_nodes-Evolves :
      (now : ℕ) (delays : Bytes → ℕ → ℕ) (d : Daemon) (from : Bytes) (v : Vector) (db : Database)
      → Evolves db (answer_nodes json proto now delays d from v db)
  unfolding answer_nodes
  answer_nodes-Evolves now delays d from [] db = Evolves-refl db
  answer_nodes-Evolves now delays d from ((node, seq) ∷ rest) db =
      let rows = messages_after node (to_ℕ seq) db.messages in
      let q = queue_rows json proto now delays d rows db in
      let db' = if text_eq node from then db else q in
      Evolves-trans db db' (answer_nodes json proto now delays d from rest db')
        (if-Evolves (text_eq node from) db db q (Evolves-refl db)
          (queue_rows-Evolves now delays d rows db))
        (answer_nodes-Evolves now delays d from rest db')

  handle_svec-Evolves :
      (now : ℕ) (delays : Bytes → ℕ → ℕ) (s : Svec) (d : Daemon)
      → Evolves d.db (handle_svec json proto now delays s d).db
  unfolding handle_svec
  handle_svec-Evolves now delays s d =
      let marked = mark_seen now s.from_node none false d.db in
      let db = update_node_sync now s.from_node marked in
      let nodes = s.vector ++ missing_nodes json proto s.vector (vector_clock db.messages) in
      let done = answer_nodes json proto now delays d s.from_node nodes db in
      Evolves-trans d.db marked done (mark_seen-Evolves now s.from_node none false d.db) (
        Evolves-trans marked db done (update_node_sync-Evolves now s.from_node marked)
          (answer_nodes-Evolves now delays d s.from_node nodes db))

  handle_frame-Evolves :
      (now : ℕ) (delay : ℕ → ℕ) (delays : Bytes → ℕ → ℕ) (o : Option Frame) (d : Daemon)
      → Evolves d.db (handle_frame json proto now delay delays o d).db
  unfolding handle_frame
  handle_frame-Evolves now delay delays none d = Evolves-refl d.db
  handle_frame-Evolves now delay delays (some (msg m)) d = handle_msg-Evolves now delay m d
  handle_frame-Evolves now delay delays (some (frag f)) d = handle_frag-Evolves now delay f d
  handle_frame-Evolves now delay delays (some (svec s)) d = handle_svec-Evolves now delays s d

  pub handle_received-Evolves :
      (now : ℕ) (delay : ℕ → ℕ) (delays : Bytes → ℕ → ℕ) (info : Bytes) (d : Daemon)
      → Evolves d.db (handle_received json proto now delay delays info d).db
  unfolding handle_received
  handle_received-Evolves now delay delays info d =
      handle_frame-Evolves now delay delays (decode proto info) d

  pub broadcast_svec-Evolves :
      (now delay : ℕ) (d : Daemon) → Evolves d.db (broadcast_svec json proto now delay d).db
  unfolding broadcast_svec
  broadcast_svec-Evolves now delay d = queue_transmission-Evolves now type_svec _ delay d.db

  count_author-Evolves :
      (now : ℕ) (author : Option Bytes) (db : Database)
      → Evolves db (count_author json proto now author db)
  count_author-Evolves now none db = Evolves-refl db
  count_author-Evolves now (some []) db = Evolves-refl db
  count_author-Evolves now (some (c ∷ cs)) db = update_user_stats-Evolves now (c ∷ cs) db

  send_saved-Evolves :
      (now : ℕ) (delay : ℕ → ℕ) (author : Option Bytes) (row : NewMessage) (m : Msg) (db : Database)
      (d : Daemon)
      → Evolves db (send_saved json proto now delay author row m db d).db
  unfolding send_saved
  send_saved-Evolves now delay author row m db d =
      let q = queue_message json proto now delay m (fragment_message proto d.fragmenter m) db in
      let s = mark_seen now row.id none false q in
      Evolves-trans db q (count_author json proto now author s)
        (queue_message-Evolves now delay m (fragment_message proto d.fragmenter m) db)
        (Evolves-trans q s (count_author json proto now author s)
          (mark_seen-Evolves now row.id none false q) (count_author-Evolves now author s))

  finish_message-Evolves :
      (now : ℕ) (delay : ℕ → ℕ) (author : Option Bytes) (row : NewMessage) (k : ℕ → Msg)
      (d d' : Daemon) (m : Msg) (o : Option (Database × ℕ))
      → save_message_with_seq now row d.db ≡ o
      → finish_message json proto now delay author row k d o ≡ some (d', m)
      → Evolves d.db d'.db
  unfolding finish_message
  finish_message-Evolves now delay author row k d d' m none s e = absurd (cc)
  finish_message-Evolves now delay author row k d d' m (some (db, seq)) s e =
      let f : send_saved json proto now delay author row (k seq) db d ≡ d' = cc in
      subst (λ x. Evolves d.db x.db) f
        (Evolves-trans d.db db (send_saved json proto now delay author row (k seq) db d).db
          (save_message_with_seq-Evolves now row d.db db seq s)
          (send_saved-Evolves now delay author row (k seq) db d))

  pub send_message-Evolves :
      (sha256 : Bytes → Bytes) (now : ℕ) (delay : ℕ → ℕ) (channel body : Bytes)
      (reply_to author : Option Bytes) (d d' : Daemon) (m : Msg)
      → send_message json proto sha256 now delay channel body reply_to author d ≡ some (d', m)
      → Evolves d.db d'.db
  unfolding send_message
  send_message-Evolves sha256 now delay channel body reply_to author d d' m e =
      let k = new_msg json proto sha256 now channel body reply_to author d in
      let row = sent_data json proto reply_to author (k 0) in
      finish_message-Evolves now delay author row k d d' m (save_message_with_seq now row d.db) refl
        e
