-- ===== src/Config.antt =====
-- internal/config/config.go: the configuration, its defaults and where it is loaded from. The type
-- of floating-point numbers, the file system and gopkg.in/yaml.v3 are parameters.
use rfmpd.Base.{
  Bool, Bytes, List, Option, [], false, if◌then◌else◌, none, some, ◌&&◌, ◌==◌, ◌>>=◌, ◌∷◌,
}
use rfmpd.Base.Int.{ℤ, pos}
use rfmpd.Text.{text}
use rfmpd.Direwolf.{full_callsign}

pub record NodeConfig : Type 0 where
  pub callsign : Bytes
  pub ssid : ℤ

pub record NetworkConfig : Type 0 where
  pub direwolf_host : Bytes
  pub direwolf_port : ℤ
  pub reconnect_interval : ℤ
  pub offline_mode : Bool

pub record TimingConfig (Float : Type 0) : Type 0 where
  pub base_delay : Float
  pub jitter : Float

pub record ApiConfig : Type 0 where
  pub host : Bytes
  pub port : ℤ
  pub cors_origins : List Bytes

pub record LoggingConfig : Type 0 where
  pub level : Bytes
  pub log_file : Bytes
  pub max_size : ℤ
  pub backup_count : ℤ

-- `Config`; the sections with one field are that field.
pub record Config (Float : Type 0) : Type 0 where
  pub node : NodeConfig
  pub network : NetworkConfig
  pub fragment_threshold : ℤ
  pub timing : TimingConfig Float
  pub sync_interval : ℤ
  pub database_path : Bytes
  pub api : ApiConfig
  pub logging : LoggingConfig
  pub loaded_from : Bytes

-- What the code asks of the system: `os.UserHomeDir`, `filepath.Join`, `os.ReadFile`, and
-- `yaml.Unmarshal` of a file over a configuration.
pub record System (Float : Type 0) : Type 0 where
  pub home : Option Bytes
  pub join_path : Bytes → Bytes → Bytes
  pub read_file : Bytes → Option Bytes
  pub unmarshal_config : Bytes → Config Float → Option (Config Float)
  pub marshal_config : Config Float → Bytes

-- `DefaultConfig`; its two floating-point literals are arguments.
unfoldable pub default_config : {Float : Type 0} → Float → Float → Config Float
default_config base_delay jitter = record {
  node = record { callsign = text "N0CALL"; ssid = pos 0 };
  network = record {
    direwolf_host = text "127.0.0.1";
    direwolf_port = pos 8001;
    reconnect_interval = pos 5;
    offline_mode = false;
  };
  fragment_threshold = pos 200;
  timing = record { base_delay = base_delay; jitter = jitter };
  sync_interval = pos 60;
  database_path = text "/var/lib/rfmpd/messages.db";
  api = record { host = text "0.0.0.0"; port = pos 8080; cors_origins = text "*" ∷ [] };
  logging = record {
    level = text "INFO";
    log_file = [];
    max_size = pos 10485760;
    backup_count = pos 5;
  };
  loaded_from = [];
}

-- `fmt.Sprintf("%s-%d", …)`, but for an SSID of 0
unfoldable pub config_callsign : {Float : Type 0} → Config Float → Bytes
config_callsign c = full_callsign c.node.callsign c.node.ssid

abbrev home_or : Bytes → Option Bytes → (Bytes → Bytes) → Bytes
home_or p none f = p
home_or p (some h) f = f h

module _ {Float : Type 0} (sys : System Float) where
  -- `ExpandPath`
  unfoldable pub expand_path : Bytes → Bytes
  expand_path [] = []
  expand_path (c ∷ []) = if c == b'~' then home_or (c ∷ []) sys.home (λ h. h) else c ∷ []
  expand_path (c ∷ d ∷ rest) =
      if c == b'~' && d == b'/'
      then home_or (c ∷ d ∷ rest) sys.home (λ h. sys.join_path h rest)
      else c ∷ d ∷ rest

  -- A file that can be read must be a configuration.
  abbrev read_config : Bytes → Config Float → Bytes → Option (Config Float)
  read_config path defaults text =
      sys.unmarshal_config text defaults >>= λ c. some (record c { loaded_from = path })

  unfoldable pub search_config : List Bytes → Config Float → Option (Config Float)
  search_config [] defaults = some defaults
  search_config (p ∷ ps) defaults = elim (sys.read_file p) [
    | none ↦ search_config ps defaults
    | some text ↦ read_config p defaults text
  ]

  unfoldable pub expand_paths : Config Float → Config Float
  unfolding expand_path
  expand_paths c = record c {
    database_path = expand_path c.database_path;
    logging = record (c.logging) { log_file = expand_path c.logging.log_file };
  }

  -- the `searchPaths` of `Load`
  unfoldable pub config_locations : List Bytes
  unfolding expand_path
  config_locations =
      text "config.yaml"
      ∷ expand_path (text "~/.config/rfmpd/config.yaml")
      ∷ text "/etc/rfmpd/config.yaml"
      ∷ []

  -- `Load` over the defaults; `none` is an error.
  unfoldable pub load : Config Float → Bytes → Option (Config Float)
  load defaults [] = search_config config_locations defaults >>= λ c. some (expand_paths c)
  load defaults (c ∷ cs) = sys.read_file (c ∷ cs) >>= λ text.
      read_config (c ∷ cs) defaults text >>= λ cfg. some (expand_paths cfg)
