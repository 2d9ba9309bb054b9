-- ===== src/Storage.antt =====
-- internal/storage/database.go: the SQLite tables as lists of rows, and each statement as a
-- function of them. Times are Unix seconds, given as an argument where the code reads the clock.
-- Statements succeed unless a constraint forbids them. `Messages`, `Queue`, `Seen` and
-- `Directory` hold the tables and their statements; the other children prove their properties.
pub mod Messages
pub mod Queue
pub mod Seen
pub mod Directory
pub mod Clock
pub mod Retry
pub mod Rows
pub mod Once
pub mod Recovery
pub mod Evolution
pub mod Statements
use rfmpd.Base.{
  Bool, Bytes, List, Option, [], false, if◌then◌else◌, ltb, none, some, suc, true, ℕ, ◌++◌, ◌+◌,
  ◌∷◌,
}
use rfmpd.Text.{text_eq}
use Messages.{MessageRow, NewMessage}
use Queue.{QueueItem}
use Seen.{SeenRow, FragmentRow}
use Directory.{NodeRow, ChannelRow, UserRow}

pub record Database : Type 0 where
  pub messages : List MessageRow
  pub fragments : List FragmentRow
  pub seen_cache : List SeenRow
  pub queue : List QueueItem
  -- the AUTOINCREMENT counter of the queue
  pub next_id : ℕ
  pub nodes : List NodeRow
  pub channels : List ChannelRow
  pub users : List UserRow

-- `Open` on a new file. On an old one `migrate` empties the seen cache.
abbrev pub empty_database : Database
empty_database = record {
  messages = [];
  fragments = [];
  seen_cache = [];
  queue = [];
  next_id = 1;
  nodes = [];
  channels = [];
  users = [];
}

unfoldable pub migrate : Database → Database
migrate db = record db { seen_cache = [] }

-- `updateChannelStats` and `updateNodeStats` behind an insert
unfoldable pub count_message : ℕ → Bytes → Bytes → Database → Database
count_message now channel from_node db = record db {
  channels =
      Directory.set_unique_nodes channel (Messages.unique_nodes channel db.messages)
        (Directory.touch_channel now channel db.channels);
  nodes = Directory.node_message now from_node db.nodes;
}

-- `SaveMessage`: whether the row is new.
unfoldable pub save_message : ℕ → NewMessage → Option ℕ → Database → Database × Bool
save_message now m seq db = if Messages.conflicts m seq db.messages then (db, false) else (
  count_message now m.channel m.from_node
      (record db { messages = db.messages ++ Messages.new_row now m seq ∷ [] }),
  true,
)

-- `SaveMessageWithSeq`: the sequence number, or `none` if the insert is refused.
unfoldable pub save_message_with_seq : ℕ → NewMessage → Database → Option (Database × ℕ)
save_message_with_seq now m db =
    let seq = suc (Messages.max_seq m.from_node db.messages) in
    if Messages.conflicts m (some seq) db.messages
    then none
    else some (
      count_message now m.channel m.from_node
          (record db { messages = db.messages ++ Messages.new_row now m (some seq) ∷ [] }),
      seq,
    )

unfoldable pub mark_seen : ℕ → Bytes → Option ℕ → Bool → Database → Database
mark_seen now id idx rebroadcast db = record db {
  seen_cache = Seen.replace_seen (Seen.seen_row now id idx rebroadcast) db.seen_cache;
}

-- `MarkSeenIfNew`: whether a row was inserted.
unfoldable pub mark_seen_if_new : ℕ → Bytes → Option ℕ → Database → Database × Bool
mark_seen_if_new now id idx db =
    if Seen.is_seen id idx db.seen_cache
    then (db, false)
    else (record db { seen_cache = Seen.seen_row now id idx false ∷ db.seen_cache }, true)

unfoldable pub cleanup_seen_cache : ℕ → ℕ → Database → Database
cleanup_seen_cache now ttl db = record db { seen_cache = Seen.drop_old_seen now ttl db.seen_cache }

unfoldable pub save_fragment : ℕ → Bytes → ℕ → ℕ → Bytes → Database → Database
save_fragment now id idx total bs db = record db {
  fragments =
      Seen.insert_fragment
        (record { message_id = id; idx = idx; total = total; payload = bs; received_at = now })
        db.fragments;
}

unfoldable pub cleanup_old_fragments : ℕ → ℕ → Database → Database
cleanup_old_fragments now max_age db = record db {
  fragments = Seen.drop_old_fragments now max_age db.fragments;
}

-- `QueueTransmission`; the delay is `round64` of the seconds, which are never negative.
unfoldable pub queue_transmission : ℕ → Queue.FrameType → Bytes → ℕ → Database → Database
queue_transmission now type text delay db = record db {
  queue = db.queue ++ Queue.new_item db.next_id type text now (now + delay) ∷ [];
  next_id = suc db.next_id;
}

unfoldable pub get_next_transmission : ℕ → Database → Database × Option QueueItem
get_next_transmission now db = elim (Queue.earliest now db.queue) [
  | none ↦ (db, none)
  | some item ↦
      (record db { queue = Queue.set_status item.id Queue.transmitting db.queue }, some item)
]

unfoldable pub mark_transmitted : ℕ → Database → Database
mark_transmitted id db = record db { queue = Queue.set_status id Queue.sent db.queue }

unfoldable pub mark_transmission_failed : ℕ → ℕ → ℕ → Database → Database
mark_transmission_failed now id max_retries db = record db {
  queue = Queue.fail_item now id max_retries db.queue;
}

unfoldable pub cleanup_transmission_queue : ℕ → Database → Database
cleanup_transmission_queue now db = record db { queue = Queue.cleanup now db.queue }

unfoldable pub mark_message_transmitted : ℕ → Bytes → Database → Database
mark_message_transmitted now id db = record db {
  messages = Messages.set_transmitted now id db.messages;
}

unfoldable pub increment_rebroadcast_count : Bytes → Database → Database
increment_rebroadcast_count id db = record db { messages = Messages.add_rebroadcast id db.messages }

unfoldable pub update_node_sync : ℕ → Bytes → Database → Database
update_node_sync now callsign db = record db { nodes = Directory.node_sync now callsign db.nodes }

unfoldable pub update_user_stats : ℕ → Bytes → Database → Database
update_user_stats now name db = record db { users = Directory.touch_user now name db.users }

unfoldable pub create_channel : ℕ → Bytes → Database → Database
create_channel now name db = record db { channels = Directory.insert_channel now name db.channels }

pub data DeleteResult : Type 0 where
  deleted : Database → DeleteResult
  has_messages channel_not_found : DeleteResult

unfoldable pub delete_channel : Bytes → Database → DeleteResult
delete_channel name db =
    if ltb 0 (Messages.count_in_channel name db.messages)
    then has_messages
    else if Directory.has_channel name db.channels
    then deleted (record db { channels = Directory.remove_channel name db.channels })
    else channel_not_found
