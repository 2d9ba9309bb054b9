-- ===== src/Api.antt =====
-- internal/api/server.go and internal/api/handlers.go: what the handlers check, what they do to
-- the daemon, and what they answer. A request is its method and its decoded parts; `net/http`,
-- JSON and WebSocket frames are outside the model.
pub mod Requests
pub mod Messages
pub mod Settings
pub mod Sockets
pub mod Callsigns
pub mod Unchecked
pub mod Posting
use rfmpd.Base.{Bool, Bytes, List, Option, [], length, ℕ}
use rfmpd.Base.Int.{ℤ, to_ℕ}
use rfmpd.Frames.{Msg}
use rfmpd.Config.{Config}
use rfmpd.Fragments.{new_fragmenter}
use rfmpd.Direwolf.{new_client}
use rfmpd.Storage.{Database}
use rfmpd.Storage.Messages.{MessageRow, vector_clock}
use rfmpd.Storage.Directory.{NodeRow, ChannelRow, active_nodes}
use rfmpd.Daemon.{Daemon}

pub data Method : Type 0 where
  get post put delete other_method : Method

-- the details of the error answers
pub data Fault : Type 0 where
  method_not_allowed invalid_body fields_required invalid_channel body_too_long : Fault
  send_failed message_not_found name_required channel_has_messages channel_not_found : Fault
  invalid_callsign invalid_ssid callsign_required no_config_path not_found : Fault

-- `GetStats`, but for the uptime and the counters of `Timing`
pub record Stats : Type 0 where
  pub message_count : ℕ
  pub active_nodes : ℕ
  pub vector_clock : List (Bytes × ℕ)

unfoldable pub get_stats : ℕ → Daemon → Stats
get_stats now d = record {
  message_count = length d.db.messages;
  active_nodes = length (active_nodes now 3600 d.db.nodes);
  vector_clock = vector_clock d.db.messages;
}

module _ (Float : Type 0) where
  pub data Reply : Type 0 where
    fault : Fault → Reply
    healthy : Reply
    message_list : List MessageRow → Reply
    sent_message : Msg → Reply
    one_message : MessageRow → Reply
    node_list : List NodeRow → Reply
    channel_list : List ChannelRow → Reply
    channel_created : Bytes → Reply
    channel_deleted : Reply
    -- the connection flag, the node's full callsign and the counts
    status_of : Bool → Bytes → Stats → Reply
    callsign_of : Bytes → ℤ → Bytes → Reply
    config_of : Config Float → Reply
    config_saved shutting_down : Reply
    no_body : Reply

  pub record Response : Type 0 where
    pub code : ℕ
    pub reply : Reply

  -- The daemon with its configuration and the file that was written last.
  pub record Server : Type 0 where
    pub daemon : Daemon
    pub config : Config Float
    -- `ConfigPath`, the flag of the command line
    pub config_path : Bytes
    pub written : Option (Config Float)
    -- pending calls of `systemctl restart` and `shutdown`
    pub restarting : Bool
    pub halting : Bool

-- `New`: a threshold below 0 acts as 0.
unfoldable pub new_daemon : {Float : Type 0} → Config Float → Database → Daemon
new_daemon c db = record {
  db = db;
  fragmenter = new_fragmenter (to_ℕ c.fragment_threshold);
  callsign = c.node.callsign;
  ssid = c.node.ssid;
  direwolf = new_client c.node.callsign c.node.ssid;
  broadcasts = [];
  transmissions = 0;
}

abbrev pub answer : {Float : Type 0} → ℕ → Reply Float → Response Float
answer code reply = record { code = code; reply = reply }

abbrev pub refuse : {Float : Type 0} → ℕ → Fault → Response Float
refuse code f = record { code = code; reply = fault f }
