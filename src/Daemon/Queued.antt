-- ===== src/Daemon/Queued.antt =====
-- A message of another node, received by a daemon whose queue is empty, and the round of the
-- transmission loop that takes it from the queue.
use rfmpd.Base.{
  Bool, Bytes, Option, [], ap, arith, false, if◌then◌else◌, le→leb, none, refl, some, true, ℕ, ◌+◌,
  ◌∙◌, ◌∷◌, ◌≡◌, ◌≤◌,
}
use rfmpd.Text.{text_eq}
use rfmpd.Message.{id_to_hex}
use rfmpd.Frames.{Msg, msg_to_dict, is_valid_channel}
use rfmpd.Frames.RoundTrip.{IsMsg, msg_from-to_dict}
use rfmpd.Wire.{Proto, msg, decode, msg_value, encode, encoded}
use rfmpd.Fragments.{fragment_message}
use rfmpd.Direwolf.{send_frame, written}
use rfmpd.Storage.{
  Database, mark_seen, mark_seen_if_new, get_next_transmission, mark_transmitted,
  queue_transmission, increment_rebroadcast_count,
}
use rfmpd.Storage.Queue.{QueueItem, new_item, type_msg, earliest, pending}
use rfmpd.Storage.Seen.{is_seen}
use rfmpd.Storage.Once.{mark_seen_if_new_fresh}
use rfmpd.Daemon.{Json, Daemon, own_callsign}
use rfmpd.Daemon.Handlers.{
  message_data, queue_message, accept_msg, rebroadcast, handle_msg, handle_frame, handle_received,
}
use rfmpd.Daemon.Transmit.{
  sent, mark_sent_message, crashed, to_frame, finish_send, finish_encode, transmit_item,
  transmit_next, transmit_step,
}
use rfmpd.Daemon.Relay.{save_message-queue}

-- The info field decodes to a message that is new, of another node, and small enough to need no
-- fragments; the queue is empty, and JSON gives its dictionary back.
pub record Arrives (json : Json) (proto : Proto) (d : Daemon) (info : Bytes) (m : Msg)
    : Type 0 where
  pub decoded : decode proto info ≡ some (msg m)
  pub is_new : is_seen (id_to_hex m.id) none d.db.seen_cache ≡ false
  pub foreign : text_eq m.from_node (own_callsign d) ≡ false
  pub whole : fragment_message proto d.fragmenter m ≡ []
  pub no_queue : d.db.queue ≡ []
  pub json_back : json.unmarshal (json.marshal (msg_to_dict m)) ≡ some (msg_to_dict m)
  pub msg_ok : IsMsg m

next_earliest :
    (later : ℕ) (db : Database) (o : Option QueueItem)
    → earliest later db.queue ≡ o
    → (get_next_transmission later db).1 ≡ o
unfolding get_next_transmission
next_earliest later db none e = ground arith
next_earliest later db (some it) e = ground arith

earliest_one :
    (later : ℕ) (it : QueueItem)
    → it.status ≡ pending
    → it.scheduled_at ≤ later
    → earliest later (it ∷ []) ≡ some it
unfolding earliest
earliest_one later it s h = rw (s, le→leb it.scheduled_at later h)

next_of :
    (later : ℕ) (it : QueueItem) (db : Database)
    → db.queue ≡ it ∷ []
    → it.status ≡ pending
    → it.scheduled_at ≤ later
    → (get_next_transmission later db).1 ≡ some it
next_of later it db q s h =
    next_earliest later db (some it) (ap (earliest later) q ∙ earliest_one later it s h)

module _ (json : Json) (proto : Proto) where
  rebroadcast-queue :
      (now : ℕ) (delay : ℕ → ℕ) (m : Msg) (d : Daemon)
      → fragment_message proto d.fragmenter m ≡ []
      → d.db.queue ≡ []
      → (rebroadcast json proto now delay m d).db.queue
        ≡ new_item d.db.next_id type_msg (json.marshal (msg_to_dict m)) now (now + delay 0) ∷ []
  unfolding rebroadcast increment_rebroadcast_count mark_seen queue_message queue_transmission
  rebroadcast-queue now delay m d w q = rw (w, q)

  rebroadcast-direwolf :
      (now : ℕ) (delay : ℕ → ℕ) (m : Msg) (d : Daemon)
      → (rebroadcast json proto now delay m d).direwolf ≡ d.direwolf
  unfolding rebroadcast
  rebroadcast-direwolf now delay m d = refl

  -- the daemon when the message is queued
  stored : ℕ → Msg → Daemon → Daemon
  stored now m d =
      accept_msg json proto now m
        (record d { db = (mark_seen_if_new now (id_to_hex m.id) none d.db).0 })

  stored-queue :
      (now : ℕ) (m : Msg) (d : Daemon)
      → is_seen (id_to_hex m.id) none d.db.seen_cache ≡ false
      → (stored now m d).db.queue ≡ d.db.queue
  unfolding stored accept_msg
  stored-queue now m d e =
      save_message-queue now (message_data m) m.seq _
      ∙ rw (mark_seen_if_new_fresh now (id_to_hex m.id) none d.db e)

  stored-fragmenter : (now : ℕ) (m : Msg) (d : Daemon) → (stored now m d).fragmenter ≡ d.fragmenter
  unfolding stored accept_msg
  stored-fragmenter now m d = refl

  stored-direwolf : (now : ℕ) (m : Msg) (d : Daemon) → (stored now m d).direwolf ≡ d.direwolf
  unfolding stored accept_msg
  stored-direwolf now m d = refl

  handle_received-stored :
      (now : ℕ) (delay : ℕ → ℕ) (delays : Bytes → ℕ → ℕ) (d : Daemon) (info : Bytes) (m : Msg)
      → Arrives json proto d info m
      → handle_received json proto now delay delays info d
        ≡ rebroadcast json proto now delay m (stored now m d)
  unfolding handle_received handle_frame handle_msg stored
  handle_received-stored now delay delays d info m a =
      rw (a.decoded, mark_seen_if_new_fresh now (id_to_hex m.id) none d.db a.is_new, a.foreign)

  -- the round of the loop on the one item of the queue
  pub transmit_queued :
      (later : ℕ) (ok : Bool) (it : QueueItem) (m : Msg) (d : Daemon)
      → d.db.queue ≡ it ∷ []
      → it.status ≡ pending
      → it.type ≡ type_msg
      → it.scheduled_at ≤ later
      → it.text ≡ json.marshal (msg_to_dict m)
      → json.unmarshal (json.marshal (msg_to_dict m)) ≡ some (msg_to_dict m)
      → IsMsg m
      → transmit_step json proto later ok d
        ≡ finish_encode json proto later ok it
            (msg_to_dict m)
            (encode proto (msg_value (if is_valid_channel m.channel then some m else none)))
            (record d { db = (get_next_transmission later d.db).0 })
  unfolding transmit_step transmit_next transmit_item to_frame
  transmit_queued later ok it m d q s t h e j v =
      rw (next_of later it d.db q s h, e, j, t, msg_from-to_dict m v)

  -- the same, from the reception on
  transmit_received :
      (now later : ℕ) (delay : ℕ → ℕ) (delays : Bytes → ℕ → ℕ) (ok : Bool) (d : Daemon)
      (info : Bytes) (m : Msg)
      → Arrives json proto d info m
      → now + delay 0 ≤ later
      → (it : QueueItem) × (d' : Daemon) × (d'.direwolf ≡ d.direwolf)
        × (transmit_step json proto later ok (handle_received json proto now delay delays info d)
            ≡ finish_encode json proto later ok it
                (msg_to_dict m)
                (encode proto (msg_value (if is_valid_channel m.channel then some m else none)))
                d')
  transmit_received now later delay delays ok d info m a h =
      let st = stored now m d in
      let d' = rebroadcast json proto now delay m st in
      let it = new_item st.db.next_id type_msg (json.marshal (msg_to_dict m)) now (now + delay 0) in
      let q : d'.db.queue ≡ it ∷ [] =
        rebroadcast-queue now delay m st (rw (stored-fragmenter now m d) a.whole)
          (stored-queue now m d a.is_new ∙ a.no_queue) in
      (
        it,
        record d' { db = (get_next_transmission later d'.db).0 },
        rebroadcast-direwolf now delay m st ∙ stored-direwolf now m d,
        ap (transmit_step json proto later ok) (handle_received-stored now delay delays d info m a)
            ∙ transmit_queued later ok it m d' q refl refl h refl a.json_back a.msg_ok,
      )

  -- the end of a successful round
  pub finish-sent :
      (later : ℕ) (it : QueueItem) (m : Msg) (d : Daemon) (bs ws : Bytes)
      → send_frame d.direwolf bs ≡ written ws
      → (d' : Daemon) × (finish_encode json proto later true it (msg_to_dict m) (encoded bs) d
          ≡ sent d' ws)
  unfolding finish_encode finish_send
  finish-sent later it m d bs ws w = (
    record d {
      db = mark_sent_message later it.type (msg_to_dict m) (mark_transmitted it.id d.db);
      transmissions = d.transmissions + 1;
    },
    rw w,
  )

  -- A new message of another node arrives at a node whose queue is empty, needs no fragments and
  -- has a channel with an upper-case letter or a byte above 127. Once it is due, the next round
  -- of the loop dereferences a nil pointer, which ends the process.
  pub transmit_step_crashes :
      (now later : ℕ) (delay : ℕ → ℕ) (delays : Bytes → ℕ → ℕ) (ok : Bool) (d : Daemon)
      (info : Bytes) (m : Msg)
      → Arrives json proto d info m
      → now + delay 0 ≤ later
      → is_valid_channel m.channel ≡ false
      → transmit_step json proto later ok (handle_received json proto now delay delays info d)
        ≡ crashed
  transmit_step_crashes now later delay delays ok d info m a h c =
      let (it, d', p, q) = transmit_received now later delay delays ok d info m a h in
      q ∙ rw c (unfold encode finish_encode in refl)
