-- ===== src/Daemon/Relay.antt =====
-- What becomes of a received message: handled once, and relayed from the transmission queue.
use rfmpd.Base.{
  Bool-cases, Bytes, Option, [], arith, false, inl, inr, none, refl, some, subst, sym, true, ℕ, ◌∷◌,
  ◌≡◌,
}
use rfmpd.Message.{id_to_hex}
use rfmpd.Frames.{Msg}
use rfmpd.Wire.{Proto}
use rfmpd.Storage.{
  update_user_stats, Database, save_message, count_message, mark_seen_if_new,
  increment_rebroadcast_count,
}
use rfmpd.Storage.Seen.{is_seen}
use rfmpd.Storage.Messages.{NewMessage}
use rfmpd.Storage.Once.{
  is_seen-mark_seen, is_seen-mark_seen_if_new, mark_seen_if_new_known, mark_seen_if_new_fresh,
}
use rfmpd.Daemon.{Json, Daemon}
use rfmpd.Daemon.Handlers.{message_data, accept_msg, rebroadcast, handle_msg}
use rfmpd.Daemon.Sending.{
  count_author, send_saved, send_message, new_msg, finish_message, sent_data,
}

save_message-seen_cache :
    (now : ℕ) (row : NewMessage) (seq : Option ℕ) (db : Database)
    → (save_message now row seq db).0.seen_cache ≡ db.seen_cache
unfolding save_message count_message
save_message-seen_cache now row seq db = ground arith

pub save_message-queue :
    (now : ℕ) (row : NewMessage) (seq : Option ℕ) (db : Database)
    → (save_message now row seq db).0.queue ≡ db.queue
unfolding save_message count_message
save_message-queue now row seq db = ground arith

module _ (json : Json) (proto : Proto) where
  known :
      (now : ℕ) (delay : ℕ → ℕ) (m : Msg) (d : Daemon)
      → is_seen (id_to_hex m.id) none d.db.seen_cache ≡ true
      → handle_msg json proto now delay m d ≡ d
  unfolding handle_msg
  known now delay m d e = rw (mark_seen_if_new_known now (id_to_hex m.id) none d.db e)

  is_seen-rebroadcast :
      (now : ℕ) (delay : ℕ → ℕ) (m : Msg) (d : Daemon)
      → is_seen (id_to_hex m.id) none (rebroadcast json proto now delay m d).db.seen_cache ≡ true
  unfolding rebroadcast increment_rebroadcast_count
  is_seen-rebroadcast now delay m d = is_seen-mark_seen now (id_to_hex m.id) none true _

  is_seen-accept_msg :
      (now : ℕ) (m : Msg) (d : Daemon)
      → is_seen (id_to_hex m.id) none d.db.seen_cache ≡ true
      → is_seen (id_to_hex m.id) none (accept_msg json proto now m d).db.seen_cache ≡ true
  unfolding accept_msg
  is_seen-accept_msg now m d e = rw (save_message-seen_cache now (message_data m) m.seq d.db) e

  is_seen-handle_msg :
      (now : ℕ) (delay : ℕ → ℕ) (m : Msg) (d : Daemon)
      → is_seen (id_to_hex m.id) none (handle_msg json proto now delay m d).db.seen_cache ≡ true
  unfolding handle_msg
  is_seen-handle_msg now delay m d =
      let key = id_to_hex m.id in
      elim (Bool-cases (is_seen key none d.db.seen_cache)) [
        | inl e ↦ rw (mark_seen_if_new_known now key none d.db e) e
        | inr e ↦
            let marked = mark_seen_if_new now key none d.db in
            let accepted =
              is_seen-accept_msg now m (record d { db = marked.0 })
                (is_seen-mark_seen_if_new now key none d.db) in
            let result =
              is_seen-rebroadcast now delay m
                (accept_msg json proto now m (record d { db = marked.0 })) in
            ground (arith, accepted, result, mark_seen_if_new_fresh now key none d.db e)
      ]

  -- In the state that the handling of a message leaves, at any later time, another message of the
  -- same ID changes nothing.
  pub handle_msg-again :
      (now later : ℕ) (delay delay' : ℕ → ℕ) (m m' : Msg) (d : Daemon)
      → m'.id ≡ m.id
      → handle_msg json proto later delay' m' (handle_msg json proto now delay m d)
        ≡ handle_msg json proto now delay m d
  handle_msg-again now later delay delay' m m' d e = known later delay' m' _ (
      subst
        (λ i. is_seen (id_to_hex i) none (handle_msg json proto now delay m d).db.seen_cache ≡ true)
        (sym e) (is_seen-handle_msg now delay m d))

  is_seen-count_author :
      (now : ℕ) (author : Option Bytes) (id : Bytes) (db : Database)
      → is_seen id none db.seen_cache ≡ true
      → is_seen id none (count_author json proto now author db).seen_cache ≡ true
  unfolding update_user_stats
  is_seen-count_author now none id db h = h
  is_seen-count_author now (some []) id db h = h
  is_seen-count_author now (some (c ∷ cs)) id db h = h

  is_seen-send_saved :
      (now : ℕ) (delay : ℕ → ℕ) (author : Option Bytes) (row : NewMessage) (m : Msg) (db : Database)
      (d : Daemon)
      → is_seen row.id none (send_saved json proto now delay author row m db d).db.seen_cache ≡ true
  unfolding send_saved
  is_seen-send_saved now delay author row m db d =
      is_seen-count_author now author row.id _ (is_seen-mark_seen now row.id none false _)

  -- the message of a successful `send_message` is in the seen cache
  abbrev Marked : Option (Daemon × Msg) → Type 0
  Marked none = Unit
  Marked (some (d, m)) = is_seen (id_to_hex m.id) none d.db.seen_cache ≡ true

  finish_message-Marked :
      (now : ℕ) (delay : ℕ → ℕ) (author : Option Bytes) (row : NewMessage) (m : ℕ → Msg)
      (d : Daemon) (o : Option (Database × ℕ))
      → ((seq : ℕ) → row.id ≡ id_to_hex (m seq).id)
      → Marked (finish_message json proto now delay author row m d o)
  unfolding finish_message
  finish_message-Marked now delay author row m d none h = tt
  finish_message-Marked now delay author row m d (some (db, seq)) h =
      rw (← h seq) (is_seen-send_saved now delay author row (m seq) db d)

  send_message-Marked :
      (sha256 : Bytes → Bytes) (now : ℕ) (delay : ℕ → ℕ) (channel body : Bytes)
      (reply_to author : Option Bytes) (d : Daemon)
      → Marked (send_message json proto sha256 now delay channel body reply_to author d)
  unfolding send_message sent_data new_msg
  send_message-Marked sha256 now delay channel body reply_to author d =
      finish_message-Marked now delay author _ _ d _ (λ seq. refl)

  -- In the state that a successful `SendMessage` leaves, at any later time, a received message of
  -- the ID that was sent changes nothing.
  pub handle_msg-send_message :
      (sha256 : Bytes → Bytes) (now later : ℕ) (delay delay' : ℕ → ℕ) (channel body : Bytes)
      (reply_to author : Option Bytes) (d d' : Daemon) (m m' : Msg)
      → send_message json proto sha256 now delay channel body reply_to author d ≡ some (d', m)
      → m'.id ≡ m.id
      → handle_msg json proto later delay' m' d' ≡ d'
  handle_msg-send_message sha256 now later delay delay' channel body reply_to author d d' m m' e i =
      known later delay' m' d' (
        subst (λ k. is_seen (id_to_hex k) none d'.db.seen_cache ≡ true) (sym i)
          (subst Marked e (send_message-Marked sha256 now delay channel body reply_to author d)))
