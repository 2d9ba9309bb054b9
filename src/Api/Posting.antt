-- ===== src/Api/Posting.antt =====
-- A message that the API accepts, from the request to the transmission loop.
use rfmpd.Base.{
  All, Bool, Bytes, Option, [], ap, arith, false, is_empty, length, ltb, none, refl, some, suc, sym,
  true, ℕ, ◌+◌, ◌<◌, ◌||◌, ◌∙◌, ◌∷◌, ◌≡◌, ◌≢◌, ◌≤◌,
}
use rfmpd.Text.{int_max}
use rfmpd.Message.Timestamp.{unix_zero}
use rfmpd.Frames.{Msg, Dict, msg_to_dict, is_valid_channel}
use rfmpd.Wire.{Proto, msg_value, encode, Encoded, encoded, encode_error, nil_dereference}
use rfmpd.Fragments.{fragment_message}
use rfmpd.Direwolf.{send_frame, SendResult, not_connected, bad_address, written}
use rfmpd.Storage.Messages.{max_seq}
use rfmpd.Storage.Queue.{QueueItem}
use rfmpd.Daemon.{Json, Daemon, own_callsign}
use rfmpd.Daemon.Sending.{send_message}
use rfmpd.Daemon.Sent.{send_message-transmit_step}
use rfmpd.Daemon.Transmit.{sent, crashed, finish_send, finish_encode, transmit_step}
use rfmpd.Daemon.Queued.{finish-sent}
use rfmpd.Api.{Server, Response, Fault, refuse, answer, sent_message}
use rfmpd.Api.Requests.{is_channel_byte, is_channel_name, all_bytes}
use rfmpd.Api.Messages.{PostRequest, finish_post, post_decoded, post_message}

-- What `channelRegex` accepts is a valid channel on the air.
channel-IsValid : (cs : Bytes) → all_bytes is_channel_byte cs ≡ true → is_valid_channel cs ≡ true
unfolding all_bytes is_valid_channel
channel-IsValid [] h = refl
channel-IsValid (c ∷ cs) h = ground (arith, channel-IsValid cs)

pub is_valid_channel_name : (cs : Bytes) → is_channel_name cs ≡ true → is_valid_channel cs ≡ true
unfolding is_channel_name
is_valid_channel_name cs h = channel-IsValid cs (ground arith)

finish_post-sent :
    {Float : Type 0} (o : Option (Daemon × Msg)) (s s' : Server Float) (m : Msg)
    → finish_post o s ≡ (s', answer 201 (sent_message m))
    → o ≡ some (s'.daemon, m)
unfolding finish_post
finish_post-sent none s s' m e = absurd (cc)
finish_post-sent (some (d, k)) s s' m e =
    let a : d ≡ s'.daemon = ap (λ p. p.0.daemon) e in
    let b : k ≡ m = cc (ap (λ p. p.1.reply) e) in cc (a, b)

abbrev created_code : ℕ
created_code = 201

no_answer : 422 ≢ created_code
no_answer h = omega (arith, h)

abbrev refused : {Float : Type 0} → Server Float → Fault → Server Float × Response Float
refused s f = (s, refuse 422 f)

refused-ne-sent :
    {Float : Type 0} (s s' : Server Float) (f : Fault) (m : Msg)
    → refused s f ≢ (s', answer created_code (sent_message m))
refused-ne-sent s s' f m e = no_answer (ap (λ k. k.1.code) e)

module _ (json : Json) (proto : Proto) where
  -- a message with a valid channel is encoded, or dropped with an error
  encode-ne-nil : (m : Msg) → encode proto (msg_value (some m)) ≢ nil_dereference
  unfolding encode
  encode-ne-nil m h = ground arith

  finish_send-ne-crashed :
      (now : ℕ) (ok : Bool) (it : QueueItem) (dict : Dict) (r : SendResult) (d : Daemon)
      → finish_send json proto now ok it dict r d ≢ crashed
  unfolding finish_send
  finish_send-ne-crashed now ok it dict not_connected d e = cc
  finish_send-ne-crashed now ok it dict (bad_address a) d e = cc
  finish_send-ne-crashed now true it dict (written bs) d e = cc
  finish_send-ne-crashed now false it dict (written bs) d e = cc

  finish_encode-ne-crashed :
      (now : ℕ) (ok : Bool) (it : QueueItem) (dict : Dict) (e : Encoded) (d : Daemon)
      → e ≢ nil_dereference
      → finish_encode json proto now ok it dict e d ≢ crashed
  unfolding finish_encode
  finish_encode-ne-crashed now ok it dict (encoded bs) d h e =
      finish_send-ne-crashed now ok it dict (send_frame d.direwolf bs) d e
  finish_encode-ne-crashed now ok it dict encode_error d h e = cc
  finish_encode-ne-crashed now ok it dict nil_dereference d h e = h refl

  post_decoded-sent :
      {Float : Type 0} (sha256 : Bytes → Bytes) (now : ℕ) (delay : ℕ → ℕ) (r : PostRequest)
      (s s' : Server Float) (m : Msg)
      → post_decoded json proto sha256 now delay r s ≡ (s', answer 201 (sent_message m))
      → (is_channel_name r.channel ≡ true)
        × (send_message json proto sha256 now delay r.channel r.body r.reply_to r.author s.daemon
            ≡ some (s'.daemon, m))
  unfolding post_decoded
  post_decoded-sent sha256 now delay r s s' m e =
      split (is_empty r.channel || is_empty r.body) refl (is_channel_name r.channel) refl
        (ltb 10000 (length r.body)) refl
    where
      split :
          (a : Bool)
          → (is_empty r.channel || is_empty r.body) ≡ a
          → (b : Bool) → is_channel_name r.channel ≡ b
          → (c : Bool) → ltb 10000 (length r.body) ≡ c
          → (is_channel_name r.channel ≡ true)
            × (send_message json proto sha256 now delay r.channel r.body r.reply_to r.author
                  s.daemon
                ≡ some (s'.daemon, m))
      split true p b q c t = absurd (refused-ne-sent s s' _ m (rw (p) at e))
      split false p false q c t = absurd (refused-ne-sent s s' _ m (rw (p, q) at e))
      split false p true q true t = absurd (refused-ne-sent s s' _ m (rw (p, q, t) at e))
      split false p true q false t = (q, finish_post-sent _ s s' m (rw (p, q, t) at e))

module _ {Float : Type 0} (json : Json) (proto : Proto) where
  post_message-transmit_step :
      (sha256 : Bytes → Bytes) (now later : ℕ) (delay : ℕ → ℕ) (ok : Bool) (r : Option PostRequest)
      (s s' : Server Float) (m : Msg)
      → ((bs : Bytes) → (6 ≤ length (sha256 bs)) × All (λ b. b < 256) (sha256 bs))
      → unix_zero + now < 315360000000
      → suc (max_seq (own_callsign s.daemon) s.daemon.db.messages) < int_max
      → post_message json proto sha256 now delay r s ≡ (s', answer 201 (sent_message m))
      → s.daemon.db.queue ≡ []
      → fragment_message proto s.daemon.fragmenter m ≡ []
      → json.unmarshal (json.marshal (msg_to_dict m)) ≡ some (msg_to_dict m)
      → now + delay 0 ≤ later
      → (it : QueueItem) × (e : Daemon) × (e.direwolf ≡ s.daemon.direwolf)
        × (transmit_step json proto later ok s'.daemon
            ≡ finish_encode json proto later ok it
                (msg_to_dict m)
                (encode proto (msg_value (some m)))
                e)
  unfolding post_message
  post_message-transmit_step sha256 now later delay ok none s s' m digest early few e q w j h =
      absurd (refused-ne-sent s s' _ m e)
  post_message-transmit_step sha256 now later delay ok (some r) s s' m digest early few e q w j h =
      let (name, p) = post_decoded-sent json proto sha256 now delay r s s' m e in
      send_message-transmit_step json proto sha256 now later delay ok r.channel r.body r.reply_to
        r.author s.daemon s'.daemon m digest early few (is_valid_channel_name r.channel name) p q w
        j h

  -- When `POST /messages` is answered with 201, the queue was empty, the message needs no fragments
  -- and JSON gives its dictionary back, the next round of the transmission loop after the message's
  -- delay does not crash. The next sequence number of the node is below `int_max`, SHA-256 has at
  -- least six bytes, and the time is below 10000 years of 365 days.
  pub post_message-ne-crashed :
      (sha256 : Bytes → Bytes) (now later : ℕ) (delay : ℕ → ℕ) (ok : Bool) (r : Option PostRequest)
      (s s' : Server Float) (m : Msg)
      → ((bs : Bytes) → (6 ≤ length (sha256 bs)) × All (λ b. b < 256) (sha256 bs))
      → unix_zero + now < 315360000000
      → suc (max_seq (own_callsign s.daemon) s.daemon.db.messages) < int_max
      → post_message json proto sha256 now delay r s ≡ (s', answer 201 (sent_message m))
      → s.daemon.db.queue ≡ []
      → fragment_message proto s.daemon.fragmenter m ≡ []
      → json.unmarshal (json.marshal (msg_to_dict m)) ≡ some (msg_to_dict m)
      → now + delay 0 ≤ later
      → transmit_step json proto later ok s'.daemon ≢ crashed
  post_message-ne-crashed sha256 now later delay ok r s s' m digest early few e q w j h =
      let (it, d, p, t) =
        post_message-transmit_step sha256 now later delay ok r s s' m digest early few e q w j h in
      λ crash.
        finish_encode-ne-crashed json proto later ok it (msg_to_dict m)
          (encode proto (msg_value (some m))) d (encode-ne-nil json proto m) (sym t ∙ crash)

  -- Under the same conditions, if the client can send and the write succeeds, that round writes the
  -- frame of the bytes that the message is encoded to.
  pub post_message-sent :
      (sha256 : Bytes → Bytes) (now later : ℕ) (delay : ℕ → ℕ) (r : Option PostRequest)
      (s s' : Server Float) (m : Msg) (bs ws : Bytes)
      → ((bs : Bytes) → (6 ≤ length (sha256 bs)) × All (λ b. b < 256) (sha256 bs))
      → unix_zero + now < 315360000000
      → suc (max_seq (own_callsign s.daemon) s.daemon.db.messages) < int_max
      → post_message json proto sha256 now delay r s ≡ (s', answer 201 (sent_message m))
      → s.daemon.db.queue ≡ []
      → fragment_message proto s.daemon.fragmenter m ≡ []
      → json.unmarshal (json.marshal (msg_to_dict m)) ≡ some (msg_to_dict m)
      → now + delay 0 ≤ later
      → encode proto (msg_value (some m)) ≡ encoded bs
      → send_frame s.daemon.direwolf bs ≡ written ws
      → (e : Daemon) × (transmit_step json proto later true s'.daemon ≡ sent e ws)
  post_message-sent sha256 now later delay r s s' m bs ws digest early few e q w j h c f =
      let (it, d, p, t) =
        post_message-transmit_step sha256 now later delay true r s s' m digest early few e q w j
          h in
      let (d', k) = finish-sent json proto later it m d bs ws (ap (λ x. send_frame x bs) p ∙ f) in
      (d', t ∙ rw c k)
