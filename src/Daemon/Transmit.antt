-- ===== src/Daemon/Transmit.antt =====
-- One round of `transmissionLoop`. A frame constructor that fails returns a nil pointer, which the
-- code stores in a variable of the interface type `Frame`: that variable is then not nil.
use rfmpd.Base.{Bool, Bytes, Option, if◌then◌else◌, none, some, ℕ, ◌+◌}
use rfmpd.Frames.{Dict, k_id, find, msg_from_dict, frag_from_dict, svec_from_dict}
use rfmpd.Wire.{
  Proto, FrameValue, msg_value, frag_value, svec_value, Encoded, encoded, encode_error,
  nil_dereference, encode,
}
use rfmpd.Direwolf.{send_frame, SendResult, written}
use rfmpd.Storage.{
  Database, get_next_transmission, mark_transmitted, mark_transmission_failed,
  mark_message_transmitted,
}
use rfmpd.Storage.Queue.{QueueItem, FrameType, type_msg, type_frag, type_svec}
use rfmpd.Daemon.{Json, Daemon}

pub data Outcome : Type 0 where
  -- nothing was due
  idle : Daemon → Outcome
  -- the item was dropped without a transmission
  dropped : Daemon → Outcome
  -- the write failed, and the item is to be tried again
  failed : Daemon → Outcome
  sent : Daemon → Bytes → Outcome
  -- a nil dereference ends the process
  crashed : Outcome

-- the switch over the frame type
unfoldable pub to_frame : FrameType → Dict → FrameValue
to_frame type_msg d = msg_value (msg_from_dict d)
to_frame type_frag d = frag_value (frag_from_dict d)
to_frame type_svec d = svec_value (svec_from_dict d)

abbrev pub mark_sent_message : ℕ → FrameType → Dict → Database → Database
mark_sent_message now type_msg d db = elim (find k_id d) [
  | none ↦ db
  | some id ↦ mark_message_transmitted now id db
]
mark_sent_message now _ d db = db

module _ (json : Json) (proto : Proto) where
  -- `SendFrame`, and what follows it; `write_ok` says whether `conn.Write` succeeds
  unfoldable pub finish_send : ℕ → Bool → QueueItem → Dict → SendResult → Daemon → Outcome
  finish_send now write_ok item dict (written bs) d =
      if write_ok
      then sent
          (record d {
            db = mark_sent_message now item.type dict (mark_transmitted item.id d.db);
            transmissions = d.transmissions + 1;
          })
          bs
      else failed (record d { db = mark_transmission_failed now item.id 3 d.db })
  finish_send now write_ok item dict _ d =
      failed (record d { db = mark_transmission_failed now item.id 3 d.db })

  unfoldable pub finish_encode : ℕ → Bool → QueueItem → Dict → Encoded → Daemon → Outcome
  finish_encode now write_ok item dict (encoded bs) d =
      finish_send now write_ok item dict (send_frame d.direwolf bs) d
  finish_encode now write_ok item dict encode_error d =
      dropped (record d { db = mark_transmitted item.id d.db })
  finish_encode now write_ok item dict nil_dereference d = crashed

  unfoldable pub transmit_item : ℕ → Bool → QueueItem → Option Dict → Daemon → Outcome
  transmit_item now write_ok item none d = dropped (record d { db = mark_transmitted item.id d.db })
  transmit_item now write_ok item (some dict) d =
      finish_encode now write_ok item dict (encode proto (to_frame item.type dict)) d

  unfoldable pub transmit_next : ℕ → Bool → Option QueueItem → Daemon → Outcome
  transmit_next now write_ok none d = idle d
  transmit_next now write_ok (some item) d =
      transmit_item now write_ok item (json.unmarshal item.text) d

  -- without a due item the database is as it was
  unfoldable pub transmit_step : ℕ → Bool → Daemon → Outcome
  transmit_step now write_ok d =
      let next = get_next_transmission now d.db in
      transmit_next now write_ok next.1 (record d { db = next.0 })
