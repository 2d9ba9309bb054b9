-- ===== src/Api/Settings.antt =====
-- The handlers on the configuration, the status and the shutdown. A write of the configuration
-- file succeeds; what it writes is kept in `written`.
use rfmpd.Base.{
  Bytes, Option, [], if◌then◌else◌, is_empty, ltb, none, not, some, true, ℕ, ◌++◌, ◌∷◌,
}
use rfmpd.Base.Int.{ℤ, pos, negsuc}
use rfmpd.Text.{to_upper, trim_space, itoa}
use rfmpd.Config.{Config}
use rfmpd.Ax25.{in_ssid_range}
use rfmpd.Daemon.{set_callsign, own_callsign}
use rfmpd.Api.{
  Method, get, post, put, method_not_allowed, invalid_body, invalid_callsign, invalid_ssid,
  callsign_required, no_config_path, status_of, callsign_of, config_of, config_saved, shutting_down,
  Response, Server, get_stats, answer, refuse,
}
use rfmpd.Api.Requests.{is_callsign_name}

-- the full callsign of the answer, with a suffix for an SSID above 0
abbrev pub answered_callsign : Bytes → ℤ → Bytes
answered_callsign callsign (pos n) = if ltb 0 n then callsign ++ (b'-' ∷ itoa (pos n)) else callsign
answered_callsign callsign (negsuc n) = callsign

abbrev pub text_or : Bytes → Bytes → Bytes
text_or [] old = old
text_or (c ∷ cs) old = c ∷ cs

abbrev pub positive_or : ℤ → ℤ → ℤ
positive_or (pos n) old = if ltb 0 n then pos n else old
positive_or (negsuc n) old = old

module _ {Float : Type 0} where
  -- `ConfigPath`, or the file that was loaded
  unfoldable pub save_path : Server Float → Bytes
  save_path s = if is_empty s.config_path then s.config.loaded_from else s.config_path

  -- `handleStatus`
  unfoldable pub handle_status : ℕ → Method → Server Float → Response Float
  handle_status now get s =
      answer 200
        (status_of s.daemon.direwolf.connected (own_callsign s.daemon) (get_stats now s.daemon))
  handle_status now _ s = refuse 405 method_not_allowed

  -- What `SetCallsign` does to the configuration: it is one object with the daemon's.
  unfoldable pub store_callsign : Bytes → ℤ → Server Float → Server Float
  store_callsign callsign ssid s =
      let config = record (s.config) {
        node = record { callsign = to_upper callsign; ssid = ssid };
      } in
      record s {
        daemon = set_callsign callsign ssid s.daemon;
        config = config;
        written = if is_empty (save_path s) then s.written else some config;
      }

  -- the checks on the callsign, after it is trimmed and upper-cased, and on the SSID
  unfoldable pub post_callsign : Bytes → ℤ → Server Float → Server Float × Response Float
  unfolding is_callsign_name
  post_callsign callsign ssid s =
      if not (is_callsign_name callsign)
      then (s, refuse 422 invalid_callsign)
      else if in_ssid_range ssid
      then (
        store_callsign callsign ssid s,
        answer 200 (callsign_of callsign ssid (answered_callsign callsign ssid)),
      )
      else (s, refuse 422 invalid_ssid)

  -- `handleCallsign`; `none` is a body that cannot be decoded
  unfoldable pub handle_callsign :
      Method → Option (Bytes × ℤ) → Server Float → Server Float × Response Float
  handle_callsign get body s =
      (s, answer 200 (callsign_of s.daemon.callsign s.daemon.ssid (own_callsign s.daemon)))
  handle_callsign post none s = (s, refuse 422 invalid_body)
  handle_callsign post (some (callsign, ssid)) s =
      post_callsign (to_upper (trim_space callsign)) ssid s
  handle_callsign _ body s = (s, refuse 405 method_not_allowed)

  -- The configuration that `PUT /config` saves: the SSID and the offline mode are always taken
  -- from the request.
  unfoldable pub merge_config : Config Float → Config Float → Config Float
  unfolding to_upper trim_space
  merge_config incoming existing = record existing {
    node = record {
      callsign =
          if is_empty incoming.node.callsign
          then existing.node.callsign
          else to_upper (trim_space incoming.node.callsign);
      ssid = incoming.node.ssid;
    };
    network = record (existing.network) {
      direwolf_host = text_or incoming.network.direwolf_host existing.network.direwolf_host;
      direwolf_port = positive_or incoming.network.direwolf_port existing.network.direwolf_port;
      offline_mode = incoming.network.offline_mode;
    };
    sync_interval = positive_or incoming.sync_interval existing.sync_interval;
    logging = record (existing.logging) {
      level = text_or incoming.logging.level existing.logging.level;
    };
  }

  -- `SaveConfig`, and the restart behind it
  unfoldable pub save_config : Config Float → Server Float → Server Float × Response Float
  save_config c s = if is_empty (save_path s) then (s, refuse 500 no_config_path) else (
    record s { written = some (record c { loaded_from = save_path s }); restarting = true },
    answer 200 config_saved,
  )

  unfoldable pub put_config : Config Float → Server Float → Server Float × Response Float
  put_config incoming s =
      let merged = merge_config incoming s.config in
      if is_empty merged.node.callsign
      then (s, refuse 422 callsign_required)
      else save_config merged s

  -- `handleConfig`
  unfoldable pub handle_config :
      Method → Option (Config Float) → Server Float → Server Float × Response Float
  handle_config get body s = (s, answer 200 (config_of s.config))
  handle_config put none s = (s, refuse 422 invalid_body)
  handle_config put (some incoming) s = put_config incoming s
  handle_config _ body s = (s, refuse 405 method_not_allowed)

  -- `handleShutdown`
  unfoldable pub handle_shutdown : Method → Server Float → Server Float × Response Float
  handle_shutdown post s = (record s { halting = true }, answer 200 shutting_down)
  handle_shutdown _ s = (s, refuse 405 method_not_allowed)
