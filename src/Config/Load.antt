-- ===== src/Config/Load.antt =====
-- `loadConfig` and `newConfig` of config.go.
use gott.Common.{Bool, List, [], ◌∷◌, ◌++◌, Option, none, some, Bytes, bytes_eq, if◌then◌else◌}
use gott.Config.{
  codes, Yaml, text, mapping, other, Entries, entry, debug, info, error, fatal, LoggingConfig,
  Config, default_config,
}
use gott.Config.Default.{default_config_content}

-- What stands outside: `ioutil.ReadFile`, whether `ioutil.WriteFile` succeeds, and `yaml.Unmarshal`,
-- which tells whether it succeeds, of a text and the configuration that it fills in.
pub record Host : Type 0 where
  pub read_file : (path : Bytes) → Option Bytes
  pub can_write : (path : Bytes) → Bool
  pub unmarshal : (file : Bytes) → Config → Bool × Config

-- The end of `loadConfig`: a configuration, one with an error, or the end of the program.
pub data Load : Type 0 where
  loaded : Config → Load
  refused : Config → Load
  exits : Load

-- The `switch` on the log level.
unfoldable pub set_level : LoggingConfig → LoggingConfig
set_level l =
    if bytes_eq l.log_level (codes "debug")
    then record l { level = debug }
    else if bytes_eq l.log_level (codes "info")
    then record l { level = info }
    else if bytes_eq l.log_level (codes "error")
    then record l { level = error }
    else if bytes_eq l.log_level (codes "fatal")
    then record l { level = fatal }
    else record l { log_level = codes "error"; level = error }

-- A plugin's name with its configuration, added to both.
abbrev pub add_plugin : (name : Bytes) → Option Entries → Config → Config
add_plugin name none c = record c { plugin_names = c.plugin_names ++ (name ∷ []) }
add_plugin name (some vm) c = record c {
  plugin_names = c.plugin_names ++ (name ∷ []);
  plugin_config = c.plugin_config ++ ((name, vm) ∷ []);
}

-- The first entry of a mapping, where its key is a string and its value a mapping.
abbrev pub first_entry : Entries → Config → Config
first_entry (entry (text name) (mapping vm) rest) c = add_plugin name (some vm) c
first_entry _ c = c

abbrev pub read_plugin : Yaml → Config → Config
read_plugin (text name) c = add_plugin name none c
read_plugin (mapping m) c = first_entry m c
read_plugin other c = c

unfoldable pub read_plugins : List Yaml → Config → Config
read_plugins [] c = c
read_plugins (item ∷ items) c = read_plugins items (read_plugin item c)

-- A look into the map: the last assignment counts.
unfoldable pub config_of : (name : Bytes) → List (Bytes × Entries) → Option Entries
config_of name [] = none
config_of name ((key, vm) ∷ rest) =
    let later = config_of name rest in
    elim later [ some e ↦ some e | none ↦ if bytes_eq key name then some vm else none ]

-- What follows `yaml.Unmarshal`.
unfoldable pub interpret : Config → Config
unfolding set_level read_plugins
interpret c =
    read_plugins c.plugins (record c { logging = set_level c.logging; plugin_config = [] })

module _ (host : Host) where
  abbrev pub parse : (file : Bytes) → Config → Load
  parse file c =
      let (parsed, c') = host.unmarshal file c in
      if parsed then loaded (interpret c') else refused c'

  -- What has been read, if anything has.
  unfoldable pub use_file : Option Bytes → Config → List (Bytes × Bytes) × Load
  unfolding default_config_content interpret
  use_file (some file) c = ([], parse file c)
  use_file none c =
      if host.can_write (codes "config.yml")
      then ((codes "config.yml", default_config_content) ∷ [], parse default_config_content c)
      else ([], exits)

  -- With the paths and the texts of the files that it writes.
  unfoldable pub load_config : Config → List (Bytes × Bytes) × Load
  unfolding use_file
  load_config c = use_file (host.read_file c.config_path) c

  unfoldable pub new_config : List (Bytes × Bytes) × Load
  unfolding default_config load_config
  new_config = load_config default_config
