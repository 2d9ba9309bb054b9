-- ===== src/Daemon.antt =====
-- internal/daemon/daemon.go: received frames, the transmission queue's loop, the periodic tasks,
-- and messages from the API. The loops are steps of one state; the clock, the random delays and
-- the outcome of a write are arguments. `encoding/json` is the parameter `Json`.
pub mod Handlers
pub mod Sending
pub mod Transmit
pub mod Composing
pub mod Queued
pub mod Sent
pub mod Relay
pub mod Evolution
pub mod Loops
pub mod Identity
pub mod Missing
pub mod Answering
pub mod Agreeing
use rfmpd.Base.{Bytes, List, Option, ℕ}
use rfmpd.Base.Int.{ℤ}
use rfmpd.Text.{to_upper}
use rfmpd.Fragments.{Fragmenter, cleanup_expired}
use rfmpd.Frames.{Dict}
use rfmpd.Direwolf.{DirewolfClient, full_callsign}
use rfmpd.Storage.{Database, cleanup_seen_cache, cleanup_transmission_queue, cleanup_old_fragments}
use rfmpd.Storage.Messages.{NewMessage}

-- `json.Marshal` and `json.Unmarshal` of a dictionary of strings.
pub record Json : Type 0 where
  pub marshal : Dict → Bytes
  pub unmarshal : Bytes → Option Dict

pub record Daemon : Type 0 where
  pub db : Database
  pub fragmenter : Fragmenter
  -- the node's callsign and SSID of the configuration
  pub callsign : Bytes
  pub ssid : ℤ
  pub direwolf : DirewolfClient
  -- the calls of `BroadcastMessage`, latest first; `main` sets the API server
  pub broadcasts : List NewMessage
  -- `Timing.transmissions`
  pub transmissions : ℕ

unfoldable pub own_callsign : Daemon → Bytes
own_callsign d = full_callsign d.callsign d.ssid

-- `SetCallsign`, but for the file that it writes
unfoldable pub set_callsign : Bytes → ℤ → Daemon → Daemon
set_callsign callsign ssid d = record d {
  callsign = to_upper callsign;
  ssid = ssid;
  direwolf = record (d.direwolf) { callsign = to_upper callsign; ssid = ssid };
}

-- one tick of `cleanupLoop`
unfoldable pub cleanup : ℕ → Daemon → Daemon
cleanup now d = record d {
  db =
      cleanup_old_fragments now 3600
        (cleanup_transmission_queue now (cleanup_seen_cache now 3600 d.db));
  fragmenter = (cleanup_expired now d.fragmenter).1;
}
