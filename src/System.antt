-- ===== src/System.antt =====
-- src/main.go and Daemon.Run: the running node, which is the daemon with its API server. What
-- reaches it is a list of events: what the modem's connection gives, the ticks of the loops, the
-- requests of clients, and a new start of the process on the same database.
-- `Invariant` and `History` prove what holds over every such list.
pub mod Changes
pub mod Serving
pub mod Invariant
pub mod History
use rfmpd.Base.{Bool, Bytes, List, Option, [], false, if◌then◌else◌, none, some, ℕ, ◌>>=◌, ◌∷◌}
use rfmpd.Base.Int.{ℤ}
use rfmpd.Wire.{Proto}
use rfmpd.Config.{Config}
use rfmpd.Storage.{Database, migrate}
use rfmpd.Direwolf
use rfmpd.Daemon.{Json, Daemon, cleanup}
use rfmpd.Daemon.Handlers.{handle_received}
use rfmpd.Daemon.Sending.{broadcast_svec}
use rfmpd.Daemon.Transmit.{transmit_step}
use rfmpd.Daemon.Loops.{daemon_after}
use rfmpd.Api.{Method, Server, new_daemon}
use rfmpd.Api.Messages.{PostRequest, handle_messages, handle_channels, handle_channel_by_name}
use rfmpd.Api.Settings.{handle_callsign, handle_config, handle_shutdown}

-- `main`, on a database that was there before: `Open` migrates it.
unfoldable pub start : {Float : Type 0} → Config Float → Bytes → Database → Server Float
start c path db = record {
  daemon = new_daemon c (migrate db);
  config = c;
  config_path = path;
  written = none;
  restarting = false;
  halting = false;
}

-- The requests that can change the server; the others only read.
pub data Request (Float : Type 0) : Type 0 where
  messages : Method → Bytes × Bytes × Bytes → Option PostRequest → Request Float
  channels : Method → Option Bytes → Request Float
  channel_by_name : Method → Bytes → Request Float
  callsign : Method → Option (Bytes × ℤ) → Request Float
  config : Method → Option (Config Float) → Request Float
  shutdown : Method → Request Float

-- Each event has the clock where the code reads it, and the random delays that it draws.
pub data Event (Float : Type 0) : Type 0 where
  modem : ℕ → (ℕ → ℕ) → (Bytes → ℕ → ℕ) → Direwolf.Event → Event Float
  -- a round of `transmissionLoop`, and whether its write succeeds
  transmission : ℕ → Bool → Event Float
  sync : ℕ → ℕ → Event Float
  cleaning : ℕ → Event Float
  request : ℕ → (ℕ → ℕ) → Request Float → Event Float
  restarted : Config Float → Bytes → Event Float

abbrev pub with_daemon : {Float : Type 0} → Server Float → Daemon → Server Float
with_daemon s d = record s { daemon = d }

abbrev pub set_daemon : {Float : Type 0} → Server Float → Option Daemon → Option (Server Float)
set_daemon s none = none
set_daemon s (some d) = some (with_daemon s d)

module _ (json : Json) (proto : Proto) where
  -- the calls of `OnFrame` of one read
  unfoldable pub receive_all : ℕ → (ℕ → ℕ) → (Bytes → ℕ → ℕ) → List Bytes → Daemon → Daemon
  receive_all now delay delays [] d = d
  receive_all now delay delays (info ∷ infos) d =
      receive_all now delay delays infos (handle_received json proto now delay delays info d)

  unfoldable pub modem_step : ℕ → (ℕ → ℕ) → (Bytes → ℕ → ℕ) → Direwolf.Event → Daemon → Daemon
  modem_step now delay delays e d =
      let r = Direwolf.step d.direwolf e in
      receive_all now delay delays r.1 (record d { direwolf = r.0 })

module _ {Float : Type 0} (json : Json) (proto : Proto) (sha256 : Bytes → Bytes) where
  unfoldable pub serve : ℕ → (ℕ → ℕ) → Request Float → Server Float → Server Float
  serve now delay (messages method query body) s =
      (handle_messages json proto sha256 now delay method query body s).0
  serve now delay (channels method name) s = (handle_channels now method name s).0
  serve now delay (channel_by_name method path) s = (handle_channel_by_name method path s).0
  serve now delay (callsign method body) s = (handle_callsign method body s).0
  serve now delay (config method body) s = (handle_config method body s).0
  serve now delay (shutdown method) s = (handle_shutdown method s).0

  -- The next state, or `none` where the process ends. In offline mode `Run` starts no client.
  unfoldable pub step : Event Float → Server Float → Option (Server Float)
  step (modem now delay delays e) s =
      if s.config.network.offline_mode
      then some s
      else some (with_daemon s (modem_step json proto now delay delays e s.daemon))
  step (transmission now ok) s =
      set_daemon s (daemon_after (transmit_step json proto now ok s.daemon))
  step (sync now delay) s = some (with_daemon s (broadcast_svec json proto now delay s.daemon))
  step (cleaning now) s = some (with_daemon s (cleanup now s.daemon))
  step (request now delay r) s = some (serve now delay r s)
  step (restarted c path) s = some (start c path s.daemon.db)

  unfoldable pub run : List (Event Float) → Server Float → Option (Server Float)
  run [] s = some s
  run (e ∷ es) s = step e s >>= λ s'. run es s'
