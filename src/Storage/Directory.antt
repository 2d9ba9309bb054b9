-- ===== src/Storage/Directory.antt =====
-- The tables `nodes`, `channels` and `users`.
use rfmpd.Base.{
  Bool, Bytes, List, Option, [], false, if◌then◌else◌, leb, ltb, none, some, ℕ, ◌++◌, ◌+◌, ◌||◌,
  ◌∷◌,
}
use rfmpd.Text.{text_eq}

pub record NodeRow : Type 0 where
  pub callsign : Bytes
  pub first_seen : ℕ
  pub last_seen : ℕ
  pub last_sync : Option ℕ
  pub message_count : ℕ
  pub sync_count : ℕ

-- `updateNodeStats(callsign, "message")`
unfoldable pub node_message : ℕ → Bytes → List NodeRow → List NodeRow
node_message now callsign [] =
    record {
      callsign = callsign;
      first_seen = now;
      last_seen = now;
      last_sync = none;
      message_count = 1;
      sync_count = 0;
    }
    ∷ []
node_message now callsign (n ∷ ns) =
    if text_eq n.callsign callsign
    then record n { last_seen = now; message_count = n.message_count + 1 } ∷ ns
    else n ∷ node_message now callsign ns

-- `updateNodeStats(callsign, "sync")`
unfoldable pub node_sync : ℕ → Bytes → List NodeRow → List NodeRow
node_sync now callsign [] =
    record {
      callsign = callsign;
      first_seen = now;
      last_seen = now;
      last_sync = some now;
      message_count = 0;
      sync_count = 1;
    }
    ∷ []
node_sync now callsign (n ∷ ns) =
    if text_eq n.callsign callsign
    then record n { last_seen = now; last_sync = some now; sync_count = n.sync_count + 1 } ∷ ns
    else n ∷ node_sync now callsign ns

-- `GetActiveNodes`: `last_seen > now - since`
unfoldable pub active_nodes : ℕ → ℕ → List NodeRow → List NodeRow
active_nodes now since [] = []
active_nodes now since (n ∷ ns) =
    let rest = active_nodes now since ns in if ltb now (n.last_seen + since) then n ∷ rest else rest

pub record ChannelRow : Type 0 where
  pub name : Bytes
  pub first_message : ℕ
  pub last_message : ℕ
  pub message_count : ℕ
  pub unique_nodes : ℕ

-- the first statement of `updateChannelStats`
unfoldable pub touch_channel : ℕ → Bytes → List ChannelRow → List ChannelRow
touch_channel now name [] =
    record {
      name = name;
      first_message = now;
      last_message = now;
      message_count = 1;
      unique_nodes = 1;
    }
    ∷ []
touch_channel now name (c ∷ cs) =
    if text_eq c.name name
    then record c { last_message = now; message_count = c.message_count + 1 } ∷ cs
    else c ∷ touch_channel now name cs

-- the second
unfoldable pub set_unique_nodes : Bytes → ℕ → List ChannelRow → List ChannelRow
set_unique_nodes name n [] = []
set_unique_nodes name n (c ∷ cs) =
    (if text_eq c.name name then record c { unique_nodes = n } else c) ∷ set_unique_nodes name n cs

unfoldable pub has_channel : Bytes → List ChannelRow → Bool
has_channel name [] = false
has_channel name (c ∷ cs) = text_eq c.name name || has_channel name cs

unfoldable pub insert_channel : ℕ → Bytes → List ChannelRow → List ChannelRow
insert_channel now name cs =
    if has_channel name cs
    then cs
    else cs
      ++ record {
        name = name;
        first_message = now;
        last_message = now;
        message_count = 0;
        unique_nodes = 0;
      }
        ∷ []

unfoldable pub remove_channel : Bytes → List ChannelRow → List ChannelRow
remove_channel name [] = []
remove_channel name (c ∷ cs) =
    if text_eq c.name name then remove_channel name cs else c ∷ remove_channel name cs

unfoldable pub insert_latest : ChannelRow → List ChannelRow → List ChannelRow
insert_latest c [] = c ∷ []
insert_latest c (d ∷ ds) =
    if leb d.last_message c.last_message then c ∷ d ∷ ds else d ∷ insert_latest c ds

-- `GetChannels`: by the last message, latest first
unfoldable pub list_channels : List ChannelRow → List ChannelRow
list_channels [] = []
list_channels (c ∷ cs) = insert_latest c (list_channels cs)

pub record UserRow : Type 0 where
  pub username : Bytes
  pub first_seen : ℕ
  pub last_seen : ℕ
  pub message_count : ℕ

-- `UpdateUserStats`
unfoldable pub touch_user : ℕ → Bytes → List UserRow → List UserRow
touch_user now name [] =
    record { username = name; first_seen = now; last_seen = now; message_count = 1 } ∷ []
touch_user now name (u ∷ us) =
    if text_eq u.username name
    then record u { last_seen = now; message_count = u.message_count + 1 } ∷ us
    else u ∷ touch_user now name us
