-- ===== src/Daemon/Answering.antt =====
-- The answer to a peer's vector clock: which stored messages are queued for it.
use rfmpd.Base.{
  Any, Any-append_left, Any-append_right, Bool, Bytes, List, Option, [], ap, append-nil,
  append_assoc, false, if◌then◌else◌, inl, inr, lt→ltb, none, refl, some, subst, suc, sym, true, ℕ,
  ◌++◌, ◌+◌, ◌<◌, ◌∙◌, ◌∷◌, ◌≡◌,
}
use rfmpd.Base.Int.{ℤ, pos, to_ℕ}
use rfmpd.Text.{text_eq, text_eq_refl}
use rfmpd.Frames.{Msg, Frag, Svec, Vector, msg_to_dict, frag_to_dict, lookup_vector}
use rfmpd.Wire.{Proto}
use rfmpd.Fragments.{fragment_message}
use rfmpd.Storage.{Database, mark_seen, queue_transmission, update_node_sync}
use rfmpd.Storage.Messages.{MessageRow, messages_after, after_seq, seq_of, clock_of, vector_clock}
use rfmpd.Storage.Queue.{QueueItem, FrameType, type_msg, type_frag, pending, new_item}
use rfmpd.Daemon.{Json, Daemon}
use rfmpd.Daemon.Handlers.{
  queue_fragments, queue_message, queue_opt, queue_rows, missing_nodes, answer_nodes, handle_svec,
  row_to_msg,
}
use rfmpd.Daemon.Missing.{messages_after-all, lookup_vector-entry, vector_clock-entry}

-- A whole message with this text, to be transmitted at this time.
abbrev pub IsAnswer : Bytes → ℕ → QueueItem → Type 0
IsAnswer text at it =
    (it.type ≡ type_msg) × (it.text ≡ text) × (it.status ≡ pending) × (it.scheduled_at ≡ at)

-- The messages stay, and items are added behind the queue.
Appends : Database → Database → Type 0
Appends db db' =
    (db'.messages ≡ db.messages) × (more : List QueueItem) × (db'.queue ≡ db.queue ++ more)

Appends-refl : (db : Database) → Appends db db
unfolding Appends
Appends-refl db = (refl, [], sym (append-nil db.queue))

Appends-trans : (a b c : Database) → Appends a b → Appends b c → Appends a c
unfolding Appends
Appends-trans a b c (m, xs, p) (n, ys, q) =
    (n ∙ m, xs ++ ys, q ∙ ap (λ l. l ++ ys) p ∙ append_assoc a.queue xs ys)

if-Appends :
    (b : Bool) (db x y : Database) → Appends db x → Appends db y → Appends db (if b then x else y)
if-Appends true db x y p q = p
if-Appends false db x y p q = q

-- What is queued stays queued.
Appends-Any :
    (P : QueueItem → Type 0) (db db' : Database) → Appends db db' → Any P db.queue → Any P db'.queue
unfolding Appends
Appends-Any P db db' (m, xs, p) h = subst (Any P) (sym p) (Any-append_left P db.queue xs h)

queue_transmission-Appends :
    (now : ℕ) (t : FrameType) (text : Bytes) (delay : ℕ) (db : Database)
    → Appends db (queue_transmission now t text delay db)
unfolding queue_transmission Appends
queue_transmission-Appends now t text delay db =
    (refl, new_item db.next_id t text now (now + delay) ∷ [], refl)

-- The message of a row has an answer in this queue.
abbrev Answered : Json → ℕ → (Bytes → ℕ → ℕ) → MessageRow → Msg → Database → Type 0
Answered json now delays r m db =
    Any (IsAnswer (json.marshal (msg_to_dict m)) (now + delays r.id 0)) db.queue

messages-Appends : (db db' : Database) → Appends db db' → db'.messages ≡ db.messages
unfolding Appends
messages-Appends db db' (m, xs, p) = m

-- What a peer's entry for the row's node, if there is one, and our own clock say of the row.
abbrev pub IsLacked : Option ℤ → ℕ → MessageRow → Type 0
IsLacked none ours r = (0 < ours) × (0 < seq_of r.seq)
IsLacked (some n) ours r = to_ℕ n < seq_of r.seq

is_after : (r : MessageRow) (n : ℕ) → n < seq_of r.seq → after_seq r.from_node n r ≡ true
is_after r n h = rw (text_eq_refl r.from_node, lt→ltb n (seq_of r.seq) h)

module _ (json : Json) (proto : Proto) where
  queue_fragments-Appends :
      (now : ℕ) (delay : ℕ → ℕ) (i : ℕ) (fs : List Frag) (db : Database)
      → Appends db (queue_fragments json proto now delay i fs db)
  unfolding queue_fragments
  queue_fragments-Appends now delay i [] db = Appends-refl db
  queue_fragments-Appends now delay i (f ∷ fs) db =
      let db' = queue_transmission now type_frag (json.marshal (frag_to_dict f)) (delay i) db in
      Appends-trans db db' (queue_fragments json proto now delay (suc i) fs db')
        (queue_transmission-Appends now type_frag (json.marshal (frag_to_dict f)) (delay i) db)
        (queue_fragments-Appends now delay (suc i) fs db')

  queue_opt-Appends :
      (now : ℕ) (delay : ℕ → ℕ) (d : Daemon) (o : Option Msg) (db : Database)
      → Appends db (queue_opt json proto now delay d o db)
  queue_opt-Appends now delay d none db = Appends-refl db
  queue_opt-Appends now delay d (some m) db = queued (fragment_message proto d.fragmenter m)
    where
      queued : (fs : List Frag) → Appends db (queue_message json proto now delay m fs db)
      queued [] =
          unfold queue_message in
          queue_transmission-Appends now type_msg (json.marshal (msg_to_dict m)) (delay 0) db
      queued (f ∷ fs) = unfold queue_message in queue_fragments-Appends now delay 0 (f ∷ fs) db

  queue_rows-Appends :
      (now : ℕ) (delays : Bytes → ℕ → ℕ) (d : Daemon) (rs : List MessageRow) (db : Database)
      → Appends db (queue_rows json proto now delays d rs db)
  unfolding queue_rows
  queue_rows-Appends now delays d [] db = Appends-refl db
  queue_rows-Appends now delays d (r ∷ rs) db =
      let db' = queue_opt json proto now (delays r.id) d (row_to_msg json proto r) db in
      Appends-trans db db' (queue_rows json proto now delays d rs db')
        (queue_opt-Appends now (delays r.id) d (row_to_msg json proto r) db)
        (queue_rows-Appends now delays d rs db')

  answer_nodes-Appends :
      (now : ℕ) (delays : Bytes → ℕ → ℕ) (d : Daemon) (from : Bytes) (v : Vector) (db : Database)
      → Appends db (answer_nodes json proto now delays d from v db)
  unfolding answer_nodes
  answer_nodes-Appends now delays d from [] db = Appends-refl db
  answer_nodes-Appends now delays d from ((node, n) ∷ v) db =
      let q = queue_rows json proto now delays d (messages_after node (to_ℕ n) db.messages) db in
      let db' = if text_eq node from then db else q in
      Appends-trans db db' (answer_nodes json proto now delays d from v db')
        (if-Appends (text_eq node from) db db q (Appends-refl db)
          (queue_rows-Appends now delays d (messages_after node (to_ℕ n) db.messages) db))
        (answer_nodes-Appends now delays d from v db')

  queue_opt-Answered :
      (now : ℕ) (delays : Bytes → ℕ → ℕ) (d : Daemon) (r : MessageRow) (m : Msg) (db : Database)
      → row_to_msg json proto r ≡ some m
      → fragment_message proto d.fragmenter m ≡ []
      → Answered json now delays r m
          (queue_opt json proto now (delays r.id) d (row_to_msg json proto r) db)
  unfolding queue_message queue_transmission
  queue_opt-Answered now delays d r m db e w =
      rw (e, w)
        (Any-append_right (IsAnswer (json.marshal (msg_to_dict m)) (now + delays r.id 0)) db.queue _
          (inl (refl, refl, refl, refl)))

  queue_rows-Answered :
      (now : ℕ) (delays : Bytes → ℕ → ℕ) (d : Daemon) (r : MessageRow) (m : Msg)
      (rs : List MessageRow) (db : Database)
      → row_to_msg json proto r ≡ some m
      → fragment_message proto d.fragmenter m ≡ []
      → Any (λ x. x ≡ r) rs
      → Answered json now delays r m (queue_rows json proto now delays d rs db)
  unfolding queue_rows
  queue_rows-Answered now delays d r m [] db e w h = absurd h
  queue_rows-Answered now delays d r m (q ∷ rs) db e w h =
      let db' = queue_opt json proto now (delays q.id) d (row_to_msg json proto q) db in
      elim h [
        | inl p ↦
            let a : Answered json now delays r m db' =
              subst
                (λ y.
                  Answered json now delays r m
                    (queue_opt json proto now (delays y.id) d (row_to_msg json proto y) db))
                (sym p) (queue_opt-Answered now delays d r m db e w) in
            Appends-Any (IsAnswer (json.marshal (msg_to_dict m)) (now + delays r.id 0)) db'
              (queue_rows json proto now delays d rs db') (queue_rows-Appends now delays d rs db') a
        | inr i ↦ queue_rows-Answered now delays d r m rs db' e w i
      ]

  answer_nodes-Answered :
      (now : ℕ) (delays : Bytes → ℕ → ℕ) (d : Daemon) (from : Bytes) (r : MessageRow) (m : Msg)
      (n : ℤ) (v : Vector) (db : Database)
      → row_to_msg json proto r ≡ some m
      → fragment_message proto d.fragmenter m ≡ []
      → text_eq r.from_node from ≡ false
      → after_seq r.from_node (to_ℕ n) r ≡ true
      → Any (λ x. x ≡ r) db.messages
      → Any (λ x. x ≡ (r.from_node, n)) v
      → Answered json now delays r m (answer_nodes json proto now delays d from v db)
  unfolding answer_nodes
  answer_nodes-Answered now delays d from r m n [] db e w f a h k = absurd k
  answer_nodes-Answered now delays d from r m n ((node, j) ∷ v) db e w f a h k =
      let q = queue_rows json proto now delays d (messages_after node (to_ℕ j) db.messages) db in
      let db' = if text_eq node from then db else q in
      elim k [
        | inl p ↦
            let rows : Any (λ x. x ≡ r) (messages_after node (to_ℕ j) db.messages) =
              subst (λ y. Any (λ x. x ≡ r) (messages_after y.0 (to_ℕ y.1) db.messages)) (sym p)
                (messages_after-all r.from_node (to_ℕ n) r db.messages a h) in
            let other : text_eq node from ≡ false = ap (λ y. text_eq y.0 from) p ∙ f in
            let there : Answered json now delays r m db' = rw other (
              queue_rows-Answered now delays d r m (messages_after node (to_ℕ j) db.messages) db e w
                rows) in
            Appends-Any (IsAnswer (json.marshal (msg_to_dict m)) (now + delays r.id 0)) db'
              (answer_nodes json proto now delays d from v db')
              (answer_nodes-Appends now delays d from v db') there
        | inr i ↦
            let same : db'.messages ≡ db.messages = messages-Appends db db' (
              if-Appends (text_eq node from) db db q (Appends-refl db)
                (queue_rows-Appends now delays d (messages_after node (to_ℕ j) db.messages) db)) in
            answer_nodes-Answered now delays d from r m n v db' e w f a
              (subst (Any (λ x. x ≡ r)) (sym same) h) i
      ]

  missing_nodes-entry :
      (v : Vector) (node : Bytes) (n : ℕ) (clock : List (Bytes × ℕ))
      → lookup_vector node v ≡ none
      → Any (λ x. x ≡ (node, n)) clock
      → Any (λ x. x ≡ (node, pos 0)) (missing_nodes json proto v clock)
  unfolding missing_nodes
  missing_nodes-entry v node n [] e h = absurd h
  missing_nodes-entry v node n ((k, j) ∷ clock) e h = elim h [
    | inl p ↦
        let q : k ≡ node = ap (λ x. x.0) p in
        let t : lookup_vector k v ≡ none = ap (λ x. lookup_vector x v) q ∙ e in
        rw (t, missing_nodes) (inl (ap (λ x. (x, pos 0)) q))
    | inr i ↦ skip (lookup_vector k v) refl (missing_nodes-entry v node n clock e i)
  ]
    where
      skip :
          (o : Option ℤ)
          → lookup_vector k v ≡ o
          → Any (λ x. x ≡ (node, pos 0)) (missing_nodes json proto v clock)
          → Any (λ x. x ≡ (node, pos 0)) (missing_nodes json proto v ((k, j) ∷ clock))
      skip none f i = rw (f, missing_nodes) (inr i)
      skip (some z) f i = rw (f, missing_nodes) i

  -- A peer's vector lacks a stored message of another node: its entry for the node is below the
  -- message's number, whatever our own entry is, so also where the message is behind a gap of
  -- ours, or it has none, the number is above 0 and our own clock has the node. Then
  -- the vector clock that arrives puts the message on the queue, if its row can be read
  -- back and it needs no fragments: its dictionary, pending, at the row's random delay from now.
  pub handle_svec-Answered :
      (now : ℕ) (delays : Bytes → ℕ → ℕ) (s : Svec) (d : Daemon) (r : MessageRow) (m : Msg)
      → Any (λ x. x ≡ r) d.db.messages
      → text_eq r.from_node s.from_node ≡ false
      → IsLacked (lookup_vector r.from_node s.vector) (clock_of r.from_node d.db.messages) r
      → row_to_msg json proto r ≡ some m
      → fragment_message proto d.fragmenter m ≡ []
      → Any
          (IsAnswer (json.marshal (msg_to_dict m)) (now + delays r.id 0))
          (handle_svec json proto now delays s d).db.queue
  unfolding handle_svec update_node_sync mark_seen
  handle_svec-Answered now delays s d r m h f l e w =
      by_entry (lookup_vector r.from_node s.vector) refl l
    where
      clock : List (Bytes × ℕ)
      clock = vector_clock d.db.messages

      nodes : Vector
      nodes = s.vector ++ missing_nodes json proto s.vector clock

      seen : Database
      seen = update_node_sync now s.from_node (mark_seen now s.from_node none false d.db)

      by_entry :
          (o : Option ℤ)
          → lookup_vector r.from_node s.vector ≡ o
          → IsLacked o (clock_of r.from_node d.db.messages) r
          → Answered json now delays r m
              (answer_nodes json proto now delays d s.from_node nodes seen)
      by_entry none q (c, b) =
          answer_nodes-Answered now delays d s.from_node r m (pos 0) nodes seen e w f
            (is_after r 0 b) h
            (Any-append_right (λ x. x ≡ (r.from_node, pos 0)) s.vector
              (missing_nodes json proto s.vector clock)
              (missing_nodes-entry s.vector r.from_node (clock_of r.from_node d.db.messages) clock q
                (vector_clock-entry r d.db.messages h c)))
      by_entry (some n) q b =
          answer_nodes-Answered now delays d s.from_node r m n nodes seen e w f
            (is_after r (to_ℕ n) b) h
            (Any-append_left (λ x. x ≡ (r.from_node, n)) s.vector
              (missing_nodes json proto s.vector clock)
              (lookup_vector-entry r.from_node n s.vector q))
