-- ===== src/Daemon/Sent.antt =====
-- A message that `SendMessage` takes, and the round of the transmission loop behind it.
use rfmpd.Base.{
  All, Bool, Bytes, Option, [], ap, arith, length, none, refl, some, subst, suc, sym, true, ℕ, ◌+◌,
  ◌<◌, ◌∙◌, ◌∷◌, ◌≡◌, ◌≤◌,
}
use rfmpd.Text.{int_max}
use rfmpd.Message.Timestamp.{unix_zero}
use rfmpd.Frames.{Msg, msg_to_dict, is_valid_channel}
use rfmpd.Frames.RoundTrip.{IsMsg}
use rfmpd.Wire.{Proto, msg_value, encode}
use rfmpd.Fragments.{fragment_message}
use rfmpd.Storage.{
  get_next_transmission, Database, save_message_with_seq, count_message, mark_seen,
  queue_transmission, update_user_stats,
}
use rfmpd.Storage.Messages.{NewMessage, max_seq}
use rfmpd.Storage.Queue.{QueueItem, new_item, type_msg}
use rfmpd.Daemon.{Json, Daemon, own_callsign}
use rfmpd.Daemon.Handlers.{queue_message}
use rfmpd.Daemon.Sending.{send_message, finish_message, send_saved, new_msg, sent_data}
use rfmpd.Daemon.Composing.{new_msg-IsMsg}
use rfmpd.Daemon.Transmit.{finish_encode, transmit_step}
use rfmpd.Daemon.Queued.{transmit_queued}

module _ (json : Json) (proto : Proto) where
  -- the queue behind `SendMessage`, when the message needs no fragments
  send_saved-queue :
      (now : ℕ) (delay : ℕ → ℕ) (author : Option Bytes) (row : NewMessage) (m : Msg) (db : Database)
      (d : Daemon)
      → fragment_message proto d.fragmenter m ≡ []
      → db.queue ≡ []
      → (send_saved json proto now delay author row m db d).db.queue
        ≡ new_item db.next_id type_msg (json.marshal (msg_to_dict m)) now (now + delay 0) ∷ []
  unfolding send_saved mark_seen queue_message queue_transmission update_user_stats
  send_saved-queue now delay none row m db d w q = rw (w, q)
  send_saved-queue now delay (some []) row m db d w q = rw (w, q)
  send_saved-queue now delay (some (c ∷ cs)) row m db d w q = rw (w, q)

  finish_message-some :
      (now : ℕ) (delay : ℕ → ℕ) (author : Option Bytes) (row : NewMessage) (m : ℕ → Msg)
      (d d' : Daemon) (m' : Msg) (o : Option (Database × ℕ))
      → finish_message json proto now delay author row m d o ≡ some (d', m')
      → (db : Database) × (seq : ℕ) × (o ≡ some (db, seq))
        × (d' ≡ send_saved json proto now delay author row m' db d)
        × (m' ≡ m seq)
  unfolding finish_message
  finish_message-some now delay author row m d d' m' none e = absurd (cc)
  finish_message-some now delay author row m d d' m' (some (db, seq)) e =
      let f : m' ≡ m seq = cc in (db, seq, refl, rw f (cc), f)

  saved-queue :
      (now : ℕ) (row : NewMessage) (db db' : Database) (seq : ℕ)
      → save_message_with_seq now row db ≡ some (db', seq)
      → (seq ≡ suc (max_seq row.from_node db.messages)) × (db'.queue ≡ db.queue)
  unfolding save_message_with_seq count_message
  saved-queue now row db db' seq e = (ground arith, ground arith)

  sent_data-node :
      (sha256 : Bytes → Bytes) (now : ℕ) (channel body : Bytes) (reply_to author : Option Bytes)
      (d : Daemon)
      → (sent_data json proto reply_to author
          (new_msg json proto sha256 now channel body reply_to author d 0)).from_node
        ≡ own_callsign d
  unfolding sent_data new_msg
  sent_data-node sha256 now channel body reply_to author d = refl

  new_msg-channel :
      (sha256 : Bytes → Bytes) (now : ℕ) (channel body : Bytes) (reply_to author : Option Bytes)
      (d : Daemon) (seq : ℕ)
      → (new_msg json proto sha256 now channel body reply_to author d seq).channel ≡ channel
  unfolding new_msg
  new_msg-channel sha256 now channel body reply_to author d seq = refl

  send_saved-direwolf :
      (now : ℕ) (delay : ℕ → ℕ) (author : Option Bytes) (row : NewMessage) (m : Msg) (db : Database)
      (d : Daemon)
      → (send_saved json proto now delay author row m db d).direwolf ≡ d.direwolf
  unfolding send_saved
  send_saved-direwolf now delay author row m db d = refl

  -- the round of the transmission loop behind `SendMessage`
  pub send_message-transmit_step :
      (sha256 : Bytes → Bytes) (now later : ℕ) (delay : ℕ → ℕ) (ok : Bool) (channel body : Bytes)
      (reply_to author : Option Bytes) (d d' : Daemon) (m : Msg)
      → ((bs : Bytes) → (6 ≤ length (sha256 bs)) × All (λ b. b < 256) (sha256 bs))
      → unix_zero + now < 315360000000
      → suc (max_seq (own_callsign d) d.db.messages) < int_max
      → is_valid_channel channel ≡ true
      → send_message json proto sha256 now delay channel body reply_to author d ≡ some (d', m)
      → d.db.queue ≡ []
      → fragment_message proto d.fragmenter m ≡ []
      → json.unmarshal (json.marshal (msg_to_dict m)) ≡ some (msg_to_dict m)
      → now + delay 0 ≤ later
      → (it : QueueItem) × (e : Daemon) × (e.direwolf ≡ d.direwolf)
        × (transmit_step json proto later ok d'
            ≡ finish_encode json proto later ok it
                (msg_to_dict m)
                (encode proto (msg_value (some m)))
                e)
  unfolding send_message
  send_message-transmit_step sha256 now later delay ok channel body reply_to author d d' m digest
        early few name e q w j h =
      let k = new_msg json proto sha256 now channel body reply_to author d in
      let row = sent_data json proto reply_to author (k 0) in
      let (db, seq, f, g, i) = finish_message-some now delay author row k d d' m _ e in
      let (n, p) = saved-queue now row d.db db seq f in
      let node = sent_data-node sha256 now channel body reply_to author d in
      let t : seq ≡ suc (max_seq (own_callsign d) d.db.messages) = rw (node) at n in
      let v : IsMsg m = subst IsMsg (sym i) (
        new_msg-IsMsg json proto sha256 now channel body reply_to author d seq digest early
          (rw t (omega arith)) (rw t few)) in
      let it = new_item db.next_id type_msg (json.marshal (msg_to_dict m)) now (now + delay 0) in
      let u : d'.db.queue ≡ it ∷ [] =
        ap (λ x. x.db.queue) g ∙ send_saved-queue now delay author row m db d w (p ∙ q) in
      let valid : is_valid_channel m.channel ≡ true =
        rw (i, new_msg-channel sha256 now channel body reply_to author d seq) name in
      let r = transmit_queued json proto later ok it m d' u refl refl h refl j v in
      (
        it,
        record d' { db = (get_next_transmission later d'.db).0 },
        ap (λ x. x.direwolf) g ∙ send_saved-direwolf now delay author row m db d,
        rw valid at r,
      )
