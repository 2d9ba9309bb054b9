-- ===== src/System/Serving.antt =====
-- What each request of a client does to the running node.
use rfmpd.Base.{
  Bool, Bytes, Option, [], if◌then◌else◌, is_empty, length, ltb, none, not, refl, some, true, ℕ,
  ◌||◌, ◌∷◌, ◌≡◌,
}
use rfmpd.Base.Int.{ℤ}
use rfmpd.Text.{text, to_lower, to_upper, trim_space}
use rfmpd.Frames.{Msg}
use rfmpd.Wire.{Proto}
use rfmpd.Ax25.{in_ssid_range}
use rfmpd.Config.{Config}
use rfmpd.Storage.{create_channel, delete_channel, DeleteResult, deleted, has_messages}
use rfmpd.Storage.{channel_not_found as no_channel}
use rfmpd.Storage.Statements.{Evolves-refl, create_channel-Evolves, delete_channel-Evolves}
use rfmpd.Daemon.{Json, Daemon, set_callsign}
use rfmpd.Daemon.Sending.{send_message}
use rfmpd.Daemon.Evolution.{send_message-Evolves}
use rfmpd.Daemon.Identity.{send_message-identity}
use rfmpd.Api.{
  Server, Response, Method, get, post, put, delete, other_method, refuse, answer, callsign_of,
  invalid_ssid, invalid_callsign, callsign_required, fields_required, invalid_channel,
  body_too_long, channel_created, no_config_path, config_saved,
}
use rfmpd.Api.Requests.{is_channel_name, is_callsign_name, path_param}
use rfmpd.Api.Messages.{
  PostRequest, finish_post, post_decoded, post_message, handle_messages, create_named,
  handle_create, handle_channels, delete_named, finish_delete, handle_channel_by_name,
}
use rfmpd.Api.Settings.{
  answered_callsign, save_path, store_callsign, post_callsign, handle_callsign, merge_config,
  save_config, put_config, handle_config, handle_shutdown,
}
use rfmpd.System.{Request, messages, channels, channel_by_name, callsign, config, shutdown, serve}
use rfmpd.System.Changes.{
  Advances, Advances-refl, if-Advances, with_daemon-Advances, with_db-Advances,
}

finish_post-Advances :
    {Float : Type 0} (s : Server Float) (json : Json) (proto : Proto) (sha256 : Bytes → Bytes)
    (now : ℕ) (delay : ℕ → ℕ) (r : PostRequest) (o : Option (Daemon × Msg))
    → send_message json proto sha256 now delay r.channel r.body r.reply_to r.author s.daemon ≡ o
    → Advances s (finish_post o s).0
unfolding finish_post
finish_post-Advances s json proto sha256 now delay r none e = Advances-refl s
finish_post-Advances s json proto sha256 now delay r (some (d, m)) e =
    with_daemon-Advances s d
      (send_message-Evolves json proto sha256 now delay r.channel r.body r.reply_to r.author
        s.daemon d m e)
      (send_message-identity json proto sha256 now delay r.channel r.body r.reply_to r.author
        s.daemon d m e)

post_decoded-Advances :
    {Float : Type 0} (s : Server Float) (json : Json) (proto : Proto) (sha256 : Bytes → Bytes)
    (now : ℕ) (delay : ℕ → ℕ) (r : PostRequest)
    → Advances s (post_decoded json proto sha256 now delay r s).0
unfolding post_decoded
post_decoded-Advances s json proto sha256 now delay r =
    let o =
      send_message json proto sha256 now delay r.channel r.body r.reply_to r.author s.daemon in
    let z = finish_post o s in
    let y = if ltb 10000 (length r.body) then (s, refuse 422 body_too_long) else z in
    let x = if not (is_channel_name r.channel) then (s, refuse 422 invalid_channel) else y in
    if-Advances (is_empty r.channel || is_empty r.body) s (s, refuse 422 fields_required) x
      (Advances-refl s)
      (if-Advances (not (is_channel_name r.channel)) s (s, refuse 422 invalid_channel) y
        (Advances-refl s)
        (if-Advances (ltb 10000 (length r.body)) s (s, refuse 422 body_too_long) z (Advances-refl s)
          (finish_post-Advances s json proto sha256 now delay r o refl)))

handle_messages-Advances :
    {Float : Type 0} (s : Server Float) (json : Json) (proto : Proto) (sha256 : Bytes → Bytes)
    (now : ℕ) (delay : ℕ → ℕ) (method : Method) (query : Bytes × Bytes × Bytes)
    (body : Option PostRequest)
    → Advances s (handle_messages json proto sha256 now delay method query body s).0
unfolding handle_messages post_message
handle_messages-Advances s json proto sha256 now delay get query body = Advances-refl s
handle_messages-Advances s json proto sha256 now delay post query none = Advances-refl s
handle_messages-Advances s json proto sha256 now delay post query (some r) =
    post_decoded-Advances s json proto sha256 now delay r
handle_messages-Advances s json proto sha256 now delay put query body = Advances-refl s
handle_messages-Advances s json proto sha256 now delay delete query body = Advances-refl s
handle_messages-Advances s json proto sha256 now delay other_method query body = Advances-refl s

create_named-Advances :
    {Float : Type 0} (s : Server Float) (now : ℕ) (name : Bytes)
    → Advances s (create_named now name s).0
unfolding create_named
create_named-Advances s now name =
    let db = create_channel now name s.daemon.db in
    if-Advances (is_channel_name name) s
      (record s { daemon = record (s.daemon) { db = db } }, answer 201 (channel_created name))
      (s, refuse 422 invalid_channel)
      (with_db-Advances s db (create_channel-Evolves now name s.daemon.db)) (Advances-refl s)

handle_channels-Advances :
    {Float : Type 0} (s : Server Float) (now : ℕ) (method : Method) (name : Option Bytes)
    → Advances s (handle_channels now method name s).0
unfolding handle_channels handle_create
handle_channels-Advances s now get name = Advances-refl s
handle_channels-Advances s now post none = Advances-refl s
handle_channels-Advances s now post (some name) =
    create_named-Advances s now (to_lower (trim_space name))
handle_channels-Advances s now put name = Advances-refl s
handle_channels-Advances s now delete name = Advances-refl s
handle_channels-Advances s now other_method name = Advances-refl s

finish_delete-Advances :
    {Float : Type 0} (s : Server Float) (name : Bytes) (r : DeleteResult)
    → delete_channel name s.daemon.db ≡ r
    → Advances s (finish_delete r s).0
finish_delete-Advances s name (deleted db) e =
    with_db-Advances s db (delete_channel-Evolves name s.daemon.db db e)
finish_delete-Advances s name has_messages e = Advances-refl s
finish_delete-Advances s name no_channel e = Advances-refl s

delete_named-Advances :
    {Float : Type 0} (s : Server Float) (method : Method) (name : Bytes)
    → Advances s (delete_named method name s).0
unfolding delete_named
delete_named-Advances s method [] = Advances-refl s
delete_named-Advances s get (c ∷ cs) = Advances-refl s
delete_named-Advances s post (c ∷ cs) = Advances-refl s
delete_named-Advances s put (c ∷ cs) = Advances-refl s
delete_named-Advances s delete (c ∷ cs) =
    finish_delete-Advances s (c ∷ cs) (delete_channel (c ∷ cs) s.daemon.db) refl
delete_named-Advances s other_method (c ∷ cs) = Advances-refl s

store_callsign-Advances :
    {Float : Type 0} (s : Server Float) (name : Bytes) (ssid : ℤ)
    → Advances s (store_callsign name ssid s)
unfolding store_callsign set_callsign
store_callsign-Advances s name ssid = record {
  sound = λ h. record {
    database = h.database;
    callsign = refl;
    ssid = refl;
    modem_callsign = refl;
    modem_ssid = refl;
    connection = h.connection;
  };
  evolves = Evolves-refl s.daemon.db;
}

post_callsign-Advances :
    {Float : Type 0} (s : Server Float) (name : Bytes) (ssid : ℤ)
    → Advances s (post_callsign name ssid s).0
unfolding post_callsign
post_callsign-Advances {Float} s name ssid =
    let stored : Server Float × Response Float = (
      store_callsign name ssid s,
      answer 200 (callsign_of name ssid (answered_callsign name ssid)),
    ) in
    let checked = if in_ssid_range ssid then stored else (s, refuse 422 invalid_ssid) in
    if-Advances (not (is_callsign_name name)) s (s, refuse 422 invalid_callsign) checked
      (Advances-refl s)
      (if-Advances (in_ssid_range ssid) s stored (s, refuse 422 invalid_ssid)
        (store_callsign-Advances s name ssid) (Advances-refl s))

handle_callsign-Advances :
    {Float : Type 0} (s : Server Float) (method : Method) (body : Option (Bytes × ℤ))
    → Advances s (handle_callsign method body s).0
unfolding handle_callsign
handle_callsign-Advances s get body = Advances-refl s
handle_callsign-Advances s post none = Advances-refl s
handle_callsign-Advances s post (some (name, ssid)) =
    post_callsign-Advances s (to_upper (trim_space name)) ssid
handle_callsign-Advances s put body = Advances-refl s
handle_callsign-Advances s delete body = Advances-refl s
handle_callsign-Advances s other_method body = Advances-refl s

-- Nothing but the written file and the pending calls changes.
same-Advances :
    {Float : Type 0} (s : Server Float) (written : Option (Config Float))
    (restarting halting : Bool)
    → Advances s (record s { written = written; restarting = restarting; halting = halting })
same-Advances s written restarting halting = record {
  sound = λ h. record {
    database = h.database;
    callsign = h.callsign;
    ssid = h.ssid;
    modem_callsign = h.modem_callsign;
    modem_ssid = h.modem_ssid;
    connection = h.connection;
  };
  evolves = Evolves-refl s.daemon.db;
}

put_config-Advances :
    {Float : Type 0} (s : Server Float) (incoming : Config Float)
    → Advances s (put_config incoming s).0
unfolding put_config save_config
put_config-Advances {Float} s incoming =
    let merged = merge_config incoming s.config in
    let path = save_path s in
    let saved : Server Float × Response Float = (
      record s { written = some (record merged { loaded_from = path }); restarting = true },
      answer 200 config_saved,
    ) in
    let rest = if is_empty path then (s, refuse 500 no_config_path) else saved in
    if-Advances (is_empty merged.node.callsign) s (s, refuse 422 callsign_required) rest
      (Advances-refl s)
      (if-Advances (is_empty path) s (s, refuse 500 no_config_path) saved (Advances-refl s)
        (same-Advances s (some (record merged { loaded_from = path })) true s.halting))

handle_config-Advances :
    {Float : Type 0} (s : Server Float) (method : Method) (body : Option (Config Float))
    → Advances s (handle_config method body s).0
unfolding handle_config
handle_config-Advances s get body = Advances-refl s
handle_config-Advances s post body = Advances-refl s
handle_config-Advances s put none = Advances-refl s
handle_config-Advances s put (some incoming) = put_config-Advances s incoming
handle_config-Advances s delete body = Advances-refl s
handle_config-Advances s other_method body = Advances-refl s

handle_shutdown-Advances :
    {Float : Type 0} (s : Server Float) (method : Method) → Advances s (handle_shutdown method s).0
unfolding handle_shutdown
handle_shutdown-Advances s get = Advances-refl s
handle_shutdown-Advances s post = same-Advances s s.written s.restarting true
handle_shutdown-Advances s put = Advances-refl s
handle_shutdown-Advances s delete = Advances-refl s
handle_shutdown-Advances s other_method = Advances-refl s

pub serve-Advances :
    {Float : Type 0} (json : Json) (proto : Proto) (sha256 : Bytes → Bytes) (now : ℕ)
    (delay : ℕ → ℕ) (r : Request Float) (s : Server Float)
    → Advances s (serve json proto sha256 now delay r s)
unfolding serve handle_channel_by_name
serve-Advances json proto sha256 now delay (messages method query body) s =
    handle_messages-Advances s json proto sha256 now delay method query body
serve-Advances json proto sha256 now delay (channels method name) s =
    handle_channels-Advances s now method name
serve-Advances json proto sha256 now delay (channel_by_name method path) s =
    delete_named-Advances s method (path_param path (text "/channels/"))
serve-Advances json proto sha256 now delay (callsign method body) s =
    handle_callsign-Advances s method body
serve-Advances json proto sha256 now delay (config method body) s =
    handle_config-Advances s method body
serve-Advances json proto sha256 now delay (shutdown method) s = handle_shutdown-Advances s method
