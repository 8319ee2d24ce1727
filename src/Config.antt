-- ===== src/Config.antt =====
-- config.go: the configuration, its defaults and how it is read. The file system and the YAML package
-- are a `Host`.
pub mod Default
pub mod Load
pub mod Interpreted
pub mod Written
use gott.Common.{ℕ, Bool, true, false, not, ◌&&◌, List, [], ◌∷◌, ◌++◌, Bytes, length, ◌==◌}
use Prim.Native.String.{String}
use Prim.Native.Char.{code}

-- A Go `int`.
pub data ℤ : Type 0 where
  pos : ℕ → ℤ
  negsuc : ℕ → ℤ

-- The bytes of an ASCII text.
abbrev pub codes : String → Bytes
codes String.[] = []
codes (String.◌∷◌ c s) = code c ∷ codes s

-- `s != ""`.
abbrev pub is_set : Bytes → Bool
is_set s = not (length s == 0)

-- What the YAML package puts into an `interface{}`: a string, a mapping, or anything else. The entries
-- of a mapping stand in the order in which `range` meets them.
mutual
  pub data Yaml : Type 0 where
    text : Bytes → Yaml
    mapping : Entries → Yaml
    other : Yaml

  pub data Entries : Type 0 where
    no_entries : Entries
    entry : Yaml → Yaml → Entries → Entries

pub record TlsConfig : Type 0 where
  pub listen : Bytes
  pub cert : Bytes
  pub key : Bytes

-- `Enabled`.
abbrev pub tls_enabled : TlsConfig → Bool
tls_enabled t = is_set t.listen && is_set t.cert && is_set t.key

pub record WssConfig : Type 0 where
  pub listen : Bytes
  pub cert : Bytes
  pub key : Bytes

abbrev pub wss_enabled : WssConfig → Bool
wss_enabled t = is_set t.listen && is_set t.cert && is_set t.key

-- `zapcore.Level`, as far as it is used.
pub data Severity : Type 0 where
  debug info error fatal : Severity

-- `level` is `logLevel`, the parsed one of the two.
pub record LoggingConfig : Type 0 where
  pub log_level : Bytes
  pub filename : Bytes
  pub max_size : ℤ
  pub max_backups : ℤ
  pub max_age : ℤ
  pub enable_compression : Bool
  pub level : Severity

pub record WebSocketsConfig : Type 0 where
  pub listen : Bytes
  pub path : Bytes
  pub reject_empty_origin : Bool
  pub origins : List Bytes
  pub wss : WssConfig

-- `plugin_config` lists the assignments to the map, in their order.
pub record Config : Type 0 where
  pub config_path : Bytes
  pub listen : Bytes
  pub tls : TlsConfig
  pub web_sockets : WebSocketsConfig
  pub logging : LoggingConfig
  pub plugins : List Yaml
  pub plugin_names : List Bytes
  pub plugin_config : List (Bytes × Entries)

-- `zapcore.Level` is 0, which is `InfoLevel`, until `loadConfig` sets it.
unfoldable pub default_config : Config
default_config = record {
  config_path = codes "config.yml";
  listen = codes ":1883";
  tls = record { listen = codes ":8883"; cert = []; key = [] };
  web_sockets = record {
    listen = [];
    path = codes "/ws";
    reject_empty_origin = false;
    origins = [];
    wss = record { listen = []; cert = []; key = [] };
  };
  logging = record {
    log_level = codes "error";
    filename = codes "gott.log";
    max_size = pos 5;
    max_backups = pos 20;
    max_age = pos 30;
    enable_compression = true;
    level = info;
  };
  plugins = [];
  plugin_names = [];
  plugin_config = [];
}
