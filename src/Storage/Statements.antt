-- ===== src/Storage/Statements.antt =====
-- Each statement of the database, as a change that keeps what the tables promise.
use rfmpd.Base.{
  Bool, Bool-cases, Bytes, List, Option, [], ap, append-nil, append_assoc, arith, false, inl, inr,
  leb, map, none, refl, some, subst, suc, sym, ℕ, ◌++◌, ◌+◌, ◌∙◌, ◌∷◌, ◌≡◌,
}
use rfmpd.Storage.{
  Database, migrate, count_message, save_message, save_message_with_seq, mark_seen,
  mark_seen_if_new, cleanup_seen_cache, save_fragment, cleanup_old_fragments, queue_transmission,
  get_next_transmission, mark_transmitted, mark_transmission_failed, cleanup_transmission_queue,
  mark_message_transmitted, increment_rebroadcast_count, update_node_sync, update_user_stats,
  create_channel, delete_channel, deleted,
}
use rfmpd.Storage.Messages.{
  set_transmitted, add_rebroadcast, MessageRow, NewMessage, new_row, conflicts, max_seq,
}
use rfmpd.Storage.Queue.{
  new_item, cleanup, set_status, QueueItem, FrameType, earliest, transmitting, sent, fail_item,
  attempts_of, give_up, retry_later,
}
use rfmpd.Storage.Seen.{SeenRow, replace_seen, drop_old_seen, is_seen, seen_row}
use rfmpd.Storage.Rows.{IsTable, IsTable-insert}
use rfmpd.Storage.Evolution.{
  content, Grows, IsQueue, IsCache, IsTable-same_content, set_transmitted-content,
  add_rebroadcast-content, set_status-IsQueue, update_item-IsQueue, cleanup-IsQueue, IsQueue-append,
  drop_old_seen-IsCache, replace_seen-IsCache,
}

-- No two messages share an ID or a number of one node, the IDs of the queue ascend and are below
-- the counter, and no key of the seen cache is there twice.
pub record IsConsistent (db : Database) : Type 0 where
  pub table : IsTable db.messages
  pub queued : IsQueue db.next_id db.queue
  pub cache : IsCache db.seen_cache

-- A change that keeps the constraints, and the content of the stored messages.
pub record Evolves (db db' : Database) : Type 0 where
  pub consistent : IsConsistent db → IsConsistent db'
  pub grows : Grows db.messages db'.messages

Grows-same : (rs qs : List MessageRow) → map content qs ≡ map content rs → Grows rs qs
Grows-same rs qs e = ([], e ∙ sym (append-nil (map content rs)))

pub Evolves-refl : (db : Database) → Evolves db db
Evolves-refl db = record { consistent = λ h. h; grows = Grows-same db.messages db.messages refl }

pub Evolves-trans : (a b c : Database) → Evolves a b → Evolves b c → Evolves a c
Evolves-trans a b c f g = record {
  consistent = λ h. g.consistent (f.consistent h);
  grows =
      let (xs, p) = f.grows in
      let (ys, q) = g.grows in
      (xs ++ ys, q ∙ ap (λ l. l ++ ys) p ∙ append_assoc (map content a.messages) xs ys);
}

-- A change of the other tables.
Evolves-other :
    (db db' : Database)
    → db.messages ≡ db'.messages
    → db.next_id ≡ db'.next_id
    → db.queue ≡ db'.queue
    → db.seen_cache ≡ db'.seen_cache
    → Evolves db db'
Evolves-other db db' m n q s = record {
  consistent = λ h. record {
    table = subst IsTable m h.table;
    queued = subst (λ l. IsQueue db'.next_id l) q (subst (λ k. IsQueue k db.queue) n h.queued);
    cache = subst IsCache s h.cache;
  };
  grows = Grows-same db.messages db'.messages (ap (map content) (sym m));
}

-- A change of the columns that are no content.
Evolves-columns :
    (db : Database) (rs : List MessageRow)
    → map content rs ≡ map content db.messages
    → Evolves db (record db { messages = rs })
Evolves-columns db rs e = record {
  consistent = λ h. record {
    table = IsTable-same_content db.messages rs e h.table;
    queued = h.queued;
    cache = h.cache;
  };
  grows = Grows-same db.messages rs e;
}

Evolves-queue :
    (db : Database) (next : ℕ) (its : List QueueItem)
    → (IsQueue db.next_id db.queue → IsQueue next its)
    → Evolves db (record db { queue = its; next_id = next })
Evolves-queue db next its f = record {
  consistent = λ h. record { table = h.table; queued = f h.queued; cache = h.cache };
  grows = Grows-same db.messages db.messages refl;
}

Evolves-insert :
    (now : ℕ) (m : NewMessage) (seq : Option ℕ) (db : Database)
    → conflicts m seq db.messages ≡ false
    → Evolves db (record db { messages = db.messages ++ new_row now m seq ∷ [] })
Evolves-insert now m seq db e = record {
  consistent = λ h. record {
    table = IsTable-insert now m seq db.messages h.table e;
    queued = h.queued;
    cache = h.cache;
  };
  grows = (content (new_row now m seq) ∷ [], map-append_one db.messages);
}
  where
    map-append_one :
        (rs : List MessageRow)
        → map content (rs ++ new_row now m seq ∷ [])
          ≡ map content rs ++ content (new_row now m seq) ∷ []
    map-append_one [] = refl
    map-append_one (r ∷ rs) = rw (map-append_one rs)

Evolves-cache :
    (db : Database) (rs : List SeenRow)
    → (IsCache db.seen_cache → IsCache rs)
    → Evolves db (record db { seen_cache = rs })
Evolves-cache db rs f = record {
  consistent = λ h. record { table = h.table; queued = h.queued; cache = f h.cache };
  grows = Grows-same db.messages db.messages refl;
}

pub migrate-Evolves : (db : Database) → Evolves db (migrate db)
unfolding migrate
migrate-Evolves db = Evolves-cache db [] (λ h. tt)

count_message-Evolves :
    (now : ℕ) (channel node : Bytes) (db : Database)
    → Evolves db (count_message now channel node db)
unfolding count_message
count_message-Evolves now channel node db =
    Evolves-other db (count_message now channel node db) refl refl refl refl

inserted-Evolves :
    (now : ℕ) (m : NewMessage) (seq : Option ℕ) (db : Database)
    → conflicts m seq db.messages ≡ false
    → Evolves db (
        count_message now m.channel m.from_node
          (record db { messages = db.messages ++ new_row now m seq ∷ [] }))
inserted-Evolves now m seq db e =
    let db' : Database = record db { messages = db.messages ++ new_row now m seq ∷ [] } in
    Evolves-trans db db' (count_message now m.channel m.from_node db')
      (Evolves-insert now m seq db e) (count_message-Evolves now m.channel m.from_node db')

pub save_message-Evolves :
    (now : ℕ) (m : NewMessage) (seq : Option ℕ) (db : Database)
    → Evolves db (save_message now m seq db).0
unfolding save_message
save_message-Evolves now m seq db = elim (Bool-cases (conflicts m seq db.messages)) [
  | inl e ↦ simp e (Evolves-refl db)
  | inr e ↦ simp e (inserted-Evolves now m seq db e)
]

pub save_message_with_seq-Evolves :
    (now : ℕ) (m : NewMessage) (db db' : Database) (seq : ℕ)
    → save_message_with_seq now m db ≡ some (db', seq)
    → Evolves db db'
unfolding save_message_with_seq
save_message_with_seq-Evolves now m db db' seq h =
    let n = suc (max_seq m.from_node db.messages) in
    elim (Bool-cases (conflicts m (some n) db.messages)) [
      | inl e ↦ absurd (ground (arith, h, e))
      | inr e ↦
          subst (λ x. Evolves db x) (ground (arith, h, e)) (inserted-Evolves now m (some n) db e)
    ]

pub mark_seen-Evolves :
    (now : ℕ) (id : Bytes) (idx : Option ℕ) (b : Bool) (db : Database)
    → Evolves db (mark_seen now id idx b db)
unfolding mark_seen
mark_seen-Evolves now id idx b db =
    Evolves-cache db (replace_seen (seen_row now id idx b) db.seen_cache)
      (replace_seen-IsCache (seen_row now id idx b) db.seen_cache)

pub mark_seen_if_new-Evolves :
    (now : ℕ) (id : Bytes) (idx : Option ℕ) (db : Database)
    → Evolves db (mark_seen_if_new now id idx db).0
unfolding mark_seen_if_new
mark_seen_if_new-Evolves now id idx db = elim (Bool-cases (is_seen id idx db.seen_cache)) [
  | inl e ↦ simp e (Evolves-refl db)
  | inr e ↦ simp e (Evolves-cache db (seen_row now id idx false ∷ db.seen_cache) (λ h. (e, h)))
]

pub cleanup_seen_cache-Evolves :
    (now ttl : ℕ) (db : Database) → Evolves db (cleanup_seen_cache now ttl db)
unfolding cleanup_seen_cache
cleanup_seen_cache-Evolves now ttl db =
    Evolves-cache db (drop_old_seen now ttl db.seen_cache)
      (drop_old_seen-IsCache now ttl db.seen_cache)

pub save_fragment-Evolves :
    (now : ℕ) (id : Bytes) (idx total : ℕ) (bs : Bytes) (db : Database)
    → Evolves db (save_fragment now id idx total bs db)
unfolding save_fragment
save_fragment-Evolves now id idx total bs db =
    Evolves-other db (save_fragment now id idx total bs db) refl refl refl refl

pub cleanup_old_fragments-Evolves :
    (now max_age : ℕ) (db : Database) → Evolves db (cleanup_old_fragments now max_age db)
unfolding cleanup_old_fragments
cleanup_old_fragments-Evolves now max_age db =
    Evolves-other db (cleanup_old_fragments now max_age db) refl refl refl refl

pub queue_transmission-Evolves :
    (now : ℕ) (type : FrameType) (text : Bytes) (delay : ℕ) (db : Database)
    → Evolves db (queue_transmission now type text delay db)
unfolding queue_transmission
queue_transmission-Evolves now type text delay db =
    let it = new_item db.next_id type text now (now + delay) in
    Evolves-queue db (suc db.next_id) (db.queue ++ it ∷ [])
      (IsQueue-append db.next_id db.queue it refl)

pub get_next_transmission-Evolves :
    (now : ℕ) (db : Database) → Evolves db (get_next_transmission now db).0
unfolding get_next_transmission
get_next_transmission-Evolves now db = next (earliest now db.queue) refl
  where
    next :
        (o : Option QueueItem)
        → earliest now db.queue ≡ o
        → Evolves db (get_next_transmission now db).0
    next none e = rw (e, get_next_transmission) (Evolves-refl db)
    next (some it) e =
        rw (e, get_next_transmission)
          (Evolves-queue db db.next_id (set_status it.id transmitting db.queue)
            (set_status-IsQueue db.next_id it.id transmitting db.queue))

pub mark_transmitted-Evolves : (id : ℕ) (db : Database) → Evolves db (mark_transmitted id db)
unfolding mark_transmitted
mark_transmitted-Evolves id db =
    Evolves-queue db db.next_id (set_status id sent db.queue)
      (set_status-IsQueue db.next_id id sent db.queue)

fail_item-IsQueue :
    (next now id k : ℕ) (its : List QueueItem)
    → IsQueue next its
    → IsQueue next (fail_item now id k its)
unfolding fail_item
fail_item-IsQueue next now id k its v = elim (Bool-cases (leb k (attempts_of id its + 1))) [
  | inl e ↦ rw e (update_item-IsQueue give_up (λ it. refl) next id its v)
  | inr e ↦ rw e (update_item-IsQueue (retry_later now) (λ it. refl) next id its v)
]

pub mark_transmission_failed-Evolves :
    (now id k : ℕ) (db : Database) → Evolves db (mark_transmission_failed now id k db)
unfolding mark_transmission_failed
mark_transmission_failed-Evolves now id k db =
    Evolves-queue db db.next_id (fail_item now id k db.queue)
      (fail_item-IsQueue db.next_id now id k db.queue)

pub cleanup_transmission_queue-Evolves :
    (now : ℕ) (db : Database) → Evolves db (cleanup_transmission_queue now db)
unfolding cleanup_transmission_queue
cleanup_transmission_queue-Evolves now db =
    Evolves-queue db db.next_id (cleanup now db.queue) (cleanup-IsQueue db.next_id now db.queue)

pub mark_message_transmitted-Evolves :
    (now : ℕ) (id : Bytes) (db : Database) → Evolves db (mark_message_transmitted now id db)
unfolding mark_message_transmitted
mark_message_transmitted-Evolves now id db =
    Evolves-columns db (set_transmitted now id db.messages)
      (set_transmitted-content now id db.messages)

pub increment_rebroadcast_count-Evolves :
    (id : Bytes) (db : Database) → Evolves db (increment_rebroadcast_count id db)
unfolding increment_rebroadcast_count
increment_rebroadcast_count-Evolves id db =
    Evolves-columns db (add_rebroadcast id db.messages) (add_rebroadcast-content id db.messages)

pub update_node_sync-Evolves :
    (now : ℕ) (callsign : Bytes) (db : Database) → Evolves db (update_node_sync now callsign db)
unfolding update_node_sync
update_node_sync-Evolves now callsign db =
    Evolves-other db (update_node_sync now callsign db) refl refl refl refl

pub update_user_stats-Evolves :
    (now : ℕ) (name : Bytes) (db : Database) → Evolves db (update_user_stats now name db)
unfolding update_user_stats
update_user_stats-Evolves now name db =
    Evolves-other db (update_user_stats now name db) refl refl refl refl

pub create_channel-Evolves :
    (now : ℕ) (name : Bytes) (db : Database) → Evolves db (create_channel now name db)
unfolding create_channel
create_channel-Evolves now name db =
    Evolves-other db (create_channel now name db) refl refl refl refl

pub delete_channel-Evolves :
    (name : Bytes) (db db' : Database) → delete_channel name db ≡ deleted db' → Evolves db db'
unfolding delete_channel
delete_channel-Evolves name db db' h =
    Evolves-other db db' (ground (arith, h)) (ground (arith, h)) (ground (arith, h))
      (ground (arith, h))
