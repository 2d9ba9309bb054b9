-- ===== src/Api/Requests.antt =====
-- The checks on what a request brings: names, numbers of the query, and the path.
use rfmpd.Base.{
  Bool, Bytes, Option, [], if◌then◌else◌, leb, length, none, some, true, ℕ, ◌&&◌, ◌==◌, ◌||◌, ◌∷◌,
}
use rfmpd.Base.Int.{ℤ, pos, negsuc}
use rfmpd.Text.{atoi, trim_prefix}

-- a byte of `[a-z0-9_-]`
abbrev pub is_channel_byte : ℕ → Bool
is_channel_byte c =
    (leb b'a' c && leb c b'z') || (leb b'0' c && leb c b'9') || c == b'_' || c == b'-'

-- a byte of `[A-Z0-9]`
abbrev pub is_callsign_byte : ℕ → Bool
is_callsign_byte c = (leb b'A' c && leb c b'Z') || (leb b'0' c && leb c b'9')

unfoldable pub all_bytes : (ℕ → Bool) → Bytes → Bool
all_bytes test [] = true
all_bytes test (c ∷ cs) = test c && all_bytes test cs

-- `channelRegex`
unfoldable pub is_channel_name : Bytes → Bool
is_channel_name s = leb 1 (length s) && leb (length s) 20 && all_bytes is_channel_byte s

-- `callsignRegex`
unfoldable pub is_callsign_name : Bytes → Bool
is_callsign_name s = leb 1 (length s) && leb (length s) 6 && all_bytes is_callsign_byte s

-- a number of the query from 1 to `most`, and `default` for anything else
abbrev pub clamp_query : ℕ → ℕ → Option ℤ → ℕ
clamp_query default most none = default
clamp_query default most (some (negsuc n)) = default
clamp_query default most (some (pos n)) = if leb 1 n && leb n most then n else default

unfoldable pub query_number : ℕ → ℕ → Bytes → ℕ
query_number default most s = clamp_query default most (atoi s)

-- a parameter of the query, where the empty string stands for none
abbrev pub query_text : Bytes → Option Bytes
query_text [] = none
query_text (c ∷ cs) = some (c ∷ cs)

-- `pathParam`
unfoldable pub path_param : Bytes → Bytes → Bytes
path_param path prefix = trim_prefix path prefix
