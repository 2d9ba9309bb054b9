-- ===== src/Api/Sockets.antt =====
-- The WebSocket clients and the check of origins. A connection is a number; a write to it
-- succeeds or not, as an argument says.
use rfmpd.Base.{
  Bool, Bytes, List, Option, [], false, if◌then◌else◌, is_empty, none, not, some, true, ℕ, ◌&&◌,
  ◌++◌, ◌==◌, ◌||◌, ◌∷◌,
}
use rfmpd.Text.{text_eq, text}
use rfmpd.Storage.Messages.{NewMessage}

-- the loop of `handleStream` that removes one connection
unfoldable pub remove_client : ℕ → List ℕ → List ℕ
remove_client conn [] = []
remove_client conn (c ∷ cs) = if c == conn then cs else c ∷ remove_client conn cs

unfoldable pub add_client : ℕ → List ℕ → List ℕ
add_client conn cs = cs ++ conn ∷ []

-- `BroadcastMessage`: the clients that are kept, and what was written to which.
unfoldable pub broadcast_message : (ℕ → Bool) → NewMessage → List ℕ → List ℕ × List (ℕ × NewMessage)
broadcast_message write_ok m [] = ([], [])
broadcast_message write_ok m (c ∷ cs) =
    let r = broadcast_message write_ok m cs in if write_ok c then (c ∷ r.0, (c, m) ∷ r.1) else r

abbrev pub allows : Bytes → Bytes → Bool
allows origin o = text_eq o (text "*") || text_eq o origin

unfoldable pub is_allowed : Bytes → List Bytes → Bool
is_allowed origin [] = false
is_allowed origin (o ∷ os) = allows origin o || is_allowed origin os

unfoldable pub has_wildcard : List Bytes → Bool
has_wildcard [] = false
has_wildcard (o ∷ os) = text_eq o (text "*") || has_wildcard os

-- `CheckOrigin`, on the headers `Origin` and `Host` and the request's host
unfoldable pub check_origin : List Bytes → Bytes → Bytes → Bytes → Bool
check_origin origins [] header_host host = true
check_origin origins (c ∷ cs) header_host host =
    (not (is_empty header_host) && text_eq (c ∷ cs) (text "http://" ++ host))
    || is_allowed (c ∷ cs) origins

-- the headers that `corsMiddleware` sets
pub record CorsHeaders : Type 0 where
  pub allow_origin : Option Bytes
  pub allow_credentials : Bool

unfoldable pub cors_headers : List Bytes → Bytes → CorsHeaders
cors_headers origins [] = record { allow_origin = none; allow_credentials = false }
cors_headers origins (c ∷ cs) =
    if is_allowed (c ∷ cs) origins
    then record { allow_origin = some (c ∷ cs); allow_credentials = not (has_wildcard origins) }
    else record { allow_origin = none; allow_credentials = false }
