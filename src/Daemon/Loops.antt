-- ===== src/Daemon/Loops.antt =====
-- What the periodic loops do to the database.
use rfmpd.Base.{Bool, Option, false, none, some, subst, true, ℕ, ◌≡◌}
use rfmpd.Frames.{Dict, k_id, find}
use rfmpd.Wire.{Proto, encode, Encoded, encoded, encode_error, nil_dereference}
use rfmpd.Direwolf.{send_frame, SendResult, written, not_connected, bad_address}
use rfmpd.Storage.{
  Database, get_next_transmission, mark_transmitted, mark_message_transmitted, cleanup_seen_cache,
  cleanup_transmission_queue, cleanup_old_fragments,
}
use rfmpd.Storage.Queue.{QueueItem, FrameType, type_msg, type_frag, type_svec}
use rfmpd.Storage.Statements.{
  Evolves, Evolves-refl, Evolves-trans, cleanup_seen_cache-Evolves, cleanup_old_fragments-Evolves,
  get_next_transmission-Evolves, mark_transmitted-Evolves, mark_transmission_failed-Evolves,
  cleanup_transmission_queue-Evolves, mark_message_transmitted-Evolves,
}
use rfmpd.Daemon.{Json, Daemon, cleanup}
use rfmpd.Daemon.Transmit.{
  Outcome, idle, dropped, failed, sent, crashed, mark_sent_message, to_frame, finish_send,
  finish_encode, transmit_item, transmit_next, transmit_step,
}

pub cleanup-Evolves : (now : ℕ) (d : Daemon) → Evolves d.db (cleanup now d).db
unfolding cleanup
cleanup-Evolves now d =
    let a = cleanup_seen_cache now 3600 d.db in
    let b = cleanup_transmission_queue now a in
    Evolves-trans d.db a (cleanup_old_fragments now 3600 b)
      (cleanup_seen_cache-Evolves now 3600 d.db)
      (Evolves-trans a b (cleanup_old_fragments now 3600 b)
        (cleanup_transmission_queue-Evolves now a) (cleanup_old_fragments-Evolves now 3600 b))

-- The daemon that a round leaves behind, if the process goes on.
abbrev pub daemon_after : Outcome → Option Daemon
daemon_after (idle d) = some d
daemon_after (dropped d) = some d
daemon_after (failed d) = some d
daemon_after (sent d bs) = some d
daemon_after crashed = none

abbrev EvolvesIf : Database → Option Daemon → Type 0
EvolvesIf db none = Unit
EvolvesIf db (some d) = Evolves db d.db

EvolvesIf-trans : (a b : Database) (o : Option Daemon) → Evolves a b → EvolvesIf b o → EvolvesIf a o
EvolvesIf-trans a b none p q = tt
EvolvesIf-trans a b (some d) p q = Evolves-trans a b d.db p q

mark_sent_message-Evolves :
    (now : ℕ) (type : FrameType) (dict : Dict) (db : Database)
    → Evolves db (mark_sent_message now type dict db)
mark_sent_message-Evolves now type_msg dict db =
    elim (find k_id dict)
      as (λ o. Evolves db (elim o [ none ↦ db | some id ↦ mark_message_transmitted now id db ])) [
        | none ↦ Evolves-refl db
        | some id ↦ mark_message_transmitted-Evolves now id db
      ]
mark_sent_message-Evolves now type_frag dict db = Evolves-refl db
mark_sent_message-Evolves now type_svec dict db = Evolves-refl db

module _ (json : Json) (proto : Proto) where
  finish_send-Evolves :
      (now : ℕ) (ok : Bool) (it : QueueItem) (dict : Dict) (r : SendResult) (d : Daemon)
      → EvolvesIf d.db (daemon_after (finish_send json proto now ok it dict r d))
  unfolding finish_send
  finish_send-Evolves now true it dict (written bs) d =
      let db = mark_transmitted it.id d.db in
      Evolves-trans d.db db (mark_sent_message now it.type dict db)
        (mark_transmitted-Evolves it.id d.db) (mark_sent_message-Evolves now it.type dict db)
  finish_send-Evolves now false it dict (written bs) d =
      mark_transmission_failed-Evolves now it.id 3 d.db
  finish_send-Evolves now ok it dict not_connected d =
      mark_transmission_failed-Evolves now it.id 3 d.db
  finish_send-Evolves now ok it dict (bad_address e) d =
      mark_transmission_failed-Evolves now it.id 3 d.db

  finish_encode-Evolves :
      (now : ℕ) (ok : Bool) (it : QueueItem) (dict : Dict) (e : Encoded) (d : Daemon)
      → EvolvesIf d.db (daemon_after (finish_encode json proto now ok it dict e d))
  unfolding finish_encode
  finish_encode-Evolves now ok it dict (encoded bs) d =
      finish_send-Evolves now ok it dict (send_frame d.direwolf bs) d
  finish_encode-Evolves now ok it dict encode_error d = mark_transmitted-Evolves it.id d.db
  finish_encode-Evolves now ok it dict nil_dereference d = tt

  transmit_item-Evolves :
      (now : ℕ) (ok : Bool) (it : QueueItem) (o : Option Dict) (d : Daemon)
      → EvolvesIf d.db (daemon_after (transmit_item json proto now ok it o d))
  unfolding transmit_item
  transmit_item-Evolves now ok it none d = mark_transmitted-Evolves it.id d.db
  transmit_item-Evolves now ok it (some dict) d =
      finish_encode-Evolves now ok it dict (encode proto (to_frame it.type dict)) d

  transmit_next-Evolves :
      (now : ℕ) (ok : Bool) (o : Option QueueItem) (d : Daemon)
      → EvolvesIf d.db (daemon_after (transmit_next json proto now ok o d))
  unfolding transmit_next
  transmit_next-Evolves now ok none d = Evolves-refl d.db
  transmit_next-Evolves now ok (some it) d =
      transmit_item-Evolves now ok it (json.unmarshal it.text) d

  transmit_step-EvolvesIf :
      (now : ℕ) (ok : Bool) (d : Daemon)
      → EvolvesIf d.db (daemon_after (transmit_step json proto now ok d))
  unfolding transmit_step
  transmit_step-EvolvesIf now ok d =
      let next = get_next_transmission now d.db in
      let d' : Daemon = record d { db = next.0 } in
      EvolvesIf-trans d.db next.0 (daemon_after (transmit_next json proto now ok next.1 d'))
        (get_next_transmission-Evolves now d.db) (transmit_next-Evolves now ok next.1 d')

  pub transmit_step-Evolves :
      (now : ℕ) (ok : Bool) (d d' : Daemon)
      → daemon_after (transmit_step json proto now ok d) ≡ some d'
      → Evolves d.db d'.db
  transmit_step-Evolves now ok d d' e = subst (EvolvesIf d.db) e (transmit_step-EvolvesIf now ok d)
