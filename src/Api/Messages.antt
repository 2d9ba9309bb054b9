-- ===== src/Api/Messages.antt =====
-- The handlers on messages, nodes and channels. Each takes the server and gives it back with the
-- answer; times are Unix seconds.
use rfmpd.Base.{
  Bytes, Option, [], if◌then◌else◌, is_empty, length, ltb, none, not, some, ℕ, ◌*◌, ◌||◌, ◌∷◌,
}
use rfmpd.Text.{text, to_lower, trim_space}
use rfmpd.Frames.{Msg}
use rfmpd.Wire.{Proto}
use rfmpd.Storage.{Database, create_channel, delete_channel, DeleteResult, deleted, has_messages}
use rfmpd.Storage.{channel_not_found as no_channel}
use rfmpd.Storage.Messages.{recent, find_message, MessageRow}
use rfmpd.Storage.Directory.{active_nodes, list_channels}
use rfmpd.Daemon.{Json, Daemon}
use rfmpd.Daemon.Sending.{send_message}
use rfmpd.Api.{
  Method, get, post, delete, method_not_allowed, invalid_body, fields_required, invalid_channel,
  body_too_long, send_failed, message_not_found, name_required, channel_has_messages,
  channel_not_found, not_found, healthy, message_list, sent_message, one_message, node_list,
  channel_list, channel_created, channel_deleted, Response, Server, answer, refuse,
}
use rfmpd.Api.Requests.{is_channel_name, query_number, query_text, path_param}

-- the body of `POST /messages`
pub record PostRequest : Type 0 where
  pub channel : Bytes
  pub body : Bytes
  pub reply_to : Option Bytes
  pub author : Option Bytes

-- what `handleHealth` answers
unfoldable pub handle_health : {Float : Type 0} → Method → Response Float
handle_health get = answer 200 healthy
handle_health _ = refuse 405 method_not_allowed

-- `getMessages`, on the parameters of the query
unfoldable pub get_messages :
    {Float : Type 0} → Bytes → Bytes → Bytes → Server Float → Response Float
get_messages limit channel from_node s = answer 200 (
    message_list (
      recent (query_number 100 1000 limit) (query_text channel) (query_text from_node)
        s.daemon.db.messages))

-- the answer to the outcome of `SendMessage`
unfoldable pub finish_post :
    {Float : Type 0} → Option (Daemon × Msg) → Server Float → Server Float × Response Float
finish_post none s = (s, refuse 500 send_failed)
finish_post (some (d, m)) s = (record s { daemon = d }, answer 201 (sent_message m))

module _ {Float : Type 0} (json : Json) (proto : Proto) (sha256 : Bytes → Bytes) where
  -- `postMessage`, behind the decoding of the body
  unfoldable pub post_decoded :
      ℕ → (ℕ → ℕ) → PostRequest → Server Float → Server Float × Response Float
  unfolding is_channel_name finish_post
  post_decoded now delay r s =
      if is_empty r.channel || is_empty r.body
      then (s, refuse 422 fields_required)
      else if not (is_channel_name r.channel)
      then (s, refuse 422 invalid_channel)
      else if ltb 10000 (length r.body)
      then (s, refuse 422 body_too_long)
      else finish_post
          (send_message json proto sha256 now delay r.channel r.body r.reply_to r.author s.daemon) s

  unfoldable pub post_message :
      ℕ → (ℕ → ℕ) → Option PostRequest → Server Float → Server Float × Response Float
  post_message now delay none s = (s, refuse 422 invalid_body)
  post_message now delay (some r) s = post_decoded now delay r s

  unfoldable pub handle_messages :
      ℕ
      → (ℕ → ℕ)
      → Method
      → Bytes × Bytes × Bytes
      → Option PostRequest
      → Server Float
      → Server Float × Response Float
  handle_messages now delay get (limit, channel, from_node) body s =
      (s, get_messages limit channel from_node s)
  handle_messages now delay post query body s = post_message now delay body s
  handle_messages now delay _ query body s = (s, refuse 405 method_not_allowed)

abbrev pub found_message : {Float : Type 0} → Option MessageRow → Response Float
found_message none = refuse 404 message_not_found
found_message (some row) = answer 200 (one_message row)

abbrev pub message_of : {Float : Type 0} → Bytes → Database → Response Float
message_of [] db = refuse 404 not_found
message_of (c ∷ cs) db = found_message (find_message (c ∷ cs) db.messages)

-- `handleMessageByID`
unfoldable pub handle_message_by_id :
    {Float : Type 0} → Method → Bytes → Server Float → Response Float
handle_message_by_id get path s = message_of (path_param path (text "/messages/")) s.daemon.db
handle_message_by_id _ path s = refuse 405 method_not_allowed

-- `handleNodes`
unfoldable pub handle_nodes : {Float : Type 0} → ℕ → Method → Bytes → Server Float → Response Float
handle_nodes now get hours s =
    answer 200 (node_list (active_nodes now (query_number 24 8760 hours * 3600) s.daemon.db.nodes))
handle_nodes now _ hours s = refuse 405 method_not_allowed

abbrev with_db : {Float : Type 0} → Database → Server Float → Server Float
with_db db s = record s { daemon = record (s.daemon) { db = db } }

-- `createChannel`, behind the decoding of the body
unfoldable pub create_named :
    {Float : Type 0} → ℕ → Bytes → Server Float → Server Float × Response Float
unfolding is_channel_name
create_named now name s =
    if is_channel_name name
    then (with_db (create_channel now name s.daemon.db) s, answer 201 (channel_created name))
    else (s, refuse 422 invalid_channel)

unfoldable pub handle_create :
    {Float : Type 0} → ℕ → Option Bytes → Server Float → Server Float × Response Float
handle_create now none s = (s, refuse 422 invalid_body)
handle_create now (some name) s = create_named now (to_lower (trim_space name)) s

unfoldable pub handle_channels :
    {Float : Type 0} → ℕ → Method → Option Bytes → Server Float → Server Float × Response Float
handle_channels now get name s = (s, answer 200 (channel_list (list_channels s.daemon.db.channels)))
handle_channels now post name s = handle_create now name s
handle_channels now _ name s = (s, refuse 405 method_not_allowed)

abbrev pub finish_delete :
    {Float : Type 0} → DeleteResult → Server Float → Server Float × Response Float
finish_delete (deleted db) s = (with_db db s, answer 200 channel_deleted)
finish_delete has_messages s = (s, refuse 409 channel_has_messages)
finish_delete no_channel s = (s, refuse 404 channel_not_found)

unfoldable pub delete_named :
    {Float : Type 0} → Method → Bytes → Server Float → Server Float × Response Float
delete_named method [] s = (s, refuse 400 name_required)
delete_named delete (c ∷ cs) s = finish_delete (delete_channel (c ∷ cs) s.daemon.db) s
delete_named _ (c ∷ cs) s = (s, refuse 405 method_not_allowed)

-- `handleChannelByName`
unfoldable pub handle_channel_by_name :
    {Float : Type 0} → Method → Bytes → Server Float → Server Float × Response Float
handle_channel_by_name method path s = delete_named method (path_param path (text "/channels/")) s
