-- ===== src/Daemon/Identity.antt =====
-- What no step of the daemon changes: its callsign and SSID, and the modem's client.
use rfmpd.Base.{
  Bool, Bytes, Option, ap, false, if◌then◌else◌, none, not, refl, some, subst, true, ℕ, ◌≡◌,
}
use rfmpd.Base.Int.{ℤ}
use rfmpd.Text.{text_eq}
use rfmpd.Message.{id_to_hex}
use rfmpd.Frames.{Msg, Frag, Dict}
use rfmpd.Wire.{
  Proto, Frame, msg, frag, svec, decode, encode, Encoded, encoded, encode_error, nil_dereference,
}
use rfmpd.Fragments.{add_fragment}
use rfmpd.Direwolf.{DirewolfClient, send_frame, SendResult, written, not_connected, bad_address}
use rfmpd.Storage.{Database, mark_seen_if_new, save_fragment, get_next_transmission}
use rfmpd.Storage.Messages.{NewMessage}
use rfmpd.Storage.Queue.{QueueItem}
use rfmpd.Daemon.{Json, Daemon, own_callsign, cleanup}
use rfmpd.Daemon.Handlers.{
  accept_msg, rebroadcast, handle_msg, handle_reassembled, handle_frag, handle_svec, handle_frame,
  handle_received,
}
use rfmpd.Daemon.Sending.{broadcast_svec, send_saved, finish_message, send_message}
use rfmpd.Daemon.Transmit.{
  to_frame, finish_send, finish_encode, transmit_item, transmit_next, transmit_step,
}
use rfmpd.Daemon.Loops.{daemon_after}

abbrev pub Identity : Type 0
Identity = Bytes × ℤ × DirewolfClient

abbrev pub identity : Daemon → Identity
identity d = (d.callsign, d.ssid, d.direwolf)

if-identity :
    (b : Bool) (x y : Daemon) (k : Identity)
    → identity x ≡ k
    → identity y ≡ k
    → identity (if b then x else y) ≡ k
if-identity true x y k p q = p
if-identity false x y k p q = q

pub cleanup-identity : (now : ℕ) (d : Daemon) → identity (cleanup now d) ≡ identity d
unfolding cleanup
cleanup-identity now d = refl

abbrev HasIdentity : Identity → Option Daemon → Type 0
HasIdentity k none = Unit
HasIdentity k (some d) = identity d ≡ k

module _ (json : Json) (proto : Proto) where
  handle_msg-identity :
      (now : ℕ) (delay : ℕ → ℕ) (m : Msg) (d : Daemon)
      → identity (handle_msg json proto now delay m d) ≡ identity d
  unfolding handle_msg accept_msg rebroadcast
  handle_msg-identity now delay m d =
      let marked = mark_seen_if_new now (id_to_hex m.id) none d.db in
      let accepted = accept_msg json proto now m (record d { db = marked.0 }) in
      if-identity (not marked.1) d
        (if text_eq m.from_node (own_callsign d)
          then accepted
          else rebroadcast json proto now delay m accepted)
        (identity d) refl
        (if-identity (text_eq m.from_node (own_callsign d)) accepted
          (rebroadcast json proto now delay m accepted) (identity d) refl refl)

  handle_reassembled-identity :
      (now : ℕ) (delay : ℕ → ℕ) (o : Option Msg) (d : Daemon)
      → identity (handle_reassembled json proto now delay o d) ≡ identity d
  handle_reassembled-identity now delay none d = refl
  handle_reassembled-identity now delay (some m) d = handle_msg-identity now delay m d

  handle_frag-identity :
      (now : ℕ) (delay : ℕ → ℕ) (f : Frag) (d : Daemon)
      → identity (handle_frag json proto now delay f d) ≡ identity d
  unfolding handle_frag
  handle_frag-identity now delay f d =
      let key = id_to_hex f.message_id in
      let marked = mark_seen_if_new now key (some f.idx) d.db in
      let added = add_fragment proto now d.fragmenter f in
      let d' : Daemon = record d {
        db = save_fragment now key f.idx f.total f.payload marked.0;
        fragmenter = added.0;
      } in
      if-identity (not marked.1) d (handle_reassembled json proto now delay added.2 d') (identity d)
        refl (handle_reassembled-identity now delay added.2 d')

  handle_frame-identity :
      (now : ℕ) (delay : ℕ → ℕ) (delays : Bytes → ℕ → ℕ) (o : Option Frame) (d : Daemon)
      → identity (handle_frame json proto now delay delays o d) ≡ identity d
  unfolding handle_frame handle_svec
  handle_frame-identity now delay delays none d = refl
  handle_frame-identity now delay delays (some (msg m)) d = handle_msg-identity now delay m d
  handle_frame-identity now delay delays (some (frag f)) d = handle_frag-identity now delay f d
  handle_frame-identity now delay delays (some (svec s)) d = refl

  pub handle_received-identity :
      (now : ℕ) (delay : ℕ → ℕ) (delays : Bytes → ℕ → ℕ) (info : Bytes) (d : Daemon)
      → identity (handle_received json proto now delay delays info d) ≡ identity d
  unfolding handle_received
  handle_received-identity now delay delays info d =
      handle_frame-identity now delay delays (decode proto info) d

  pub broadcast_svec-identity :
      (now delay : ℕ) (d : Daemon) → identity (broadcast_svec json proto now delay d) ≡ identity d
  unfolding broadcast_svec
  broadcast_svec-identity now delay d = refl

  finish_message-identity :
      (now : ℕ) (delay : ℕ → ℕ) (author : Option Bytes) (row : NewMessage) (k : ℕ → Msg)
      (d d' : Daemon) (m : Msg) (o : Option (Database × ℕ))
      → finish_message json proto now delay author row k d o ≡ some (d', m)
      → identity d' ≡ identity d
  unfolding finish_message send_saved
  finish_message-identity now delay author row k d d' m none e = absurd (cc)
  finish_message-identity now delay author row k d d' m (some (db, seq)) e =
      let f : d' ≡ send_saved json proto now delay author row (k seq) db d = cc in ap identity f

  pub send_message-identity :
      (sha256 : Bytes → Bytes) (now : ℕ) (delay : ℕ → ℕ) (channel body : Bytes)
      (reply_to author : Option Bytes) (d d' : Daemon) (m : Msg)
      → send_message json proto sha256 now delay channel body reply_to author d ≡ some (d', m)
      → identity d' ≡ identity d
  unfolding send_message
  send_message-identity sha256 now delay channel body reply_to author d d' m e =
      finish_message-identity now delay author _ _ d d' m _ e

  finish_send-identity :
      (now : ℕ) (ok : Bool) (it : QueueItem) (dict : Dict) (r : SendResult) (d : Daemon)
      → HasIdentity (identity d) (daemon_after (finish_send json proto now ok it dict r d))
  unfolding finish_send
  finish_send-identity now true it dict (written bs) d = refl
  finish_send-identity now false it dict (written bs) d = refl
  finish_send-identity now ok it dict not_connected d = refl
  finish_send-identity now ok it dict (bad_address e) d = refl

  finish_encode-identity :
      (now : ℕ) (ok : Bool) (it : QueueItem) (dict : Dict) (e : Encoded) (d : Daemon)
      → HasIdentity (identity d) (daemon_after (finish_encode json proto now ok it dict e d))
  unfolding finish_encode
  finish_encode-identity now ok it dict (encoded bs) d =
      finish_send-identity now ok it dict (send_frame d.direwolf bs) d
  finish_encode-identity now ok it dict encode_error d = refl
  finish_encode-identity now ok it dict nil_dereference d = tt

  transmit_item-identity :
      (now : ℕ) (ok : Bool) (it : QueueItem) (o : Option Dict) (d : Daemon)
      → HasIdentity (identity d) (daemon_after (transmit_item json proto now ok it o d))
  unfolding transmit_item
  transmit_item-identity now ok it none d = refl
  transmit_item-identity now ok it (some dict) d =
      finish_encode-identity now ok it dict (encode proto (to_frame it.type dict)) d

  transmit_next-identity :
      (now : ℕ) (ok : Bool) (o : Option QueueItem) (d : Daemon)
      → HasIdentity (identity d) (daemon_after (transmit_next json proto now ok o d))
  unfolding transmit_next
  transmit_next-identity now ok none d = refl
  transmit_next-identity now ok (some it) d =
      transmit_item-identity now ok it (json.unmarshal it.text) d

  pub transmit_step-identity :
      (now : ℕ) (ok : Bool) (d d' : Daemon)
      → daemon_after (transmit_step json proto now ok d) ≡ some d'
      → identity d' ≡ identity d
  unfolding transmit_step
  transmit_step-identity now ok d d' e =
      let next = get_next_transmission now d.db in
      subst (HasIdentity (identity d)) e
        (transmit_next-identity now ok next.1 (record d { db = next.0 }))
