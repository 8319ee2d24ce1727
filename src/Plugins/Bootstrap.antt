-- ===== src/Plugins/Bootstrap.antt =====
-- `bootstrapPlugins` of plugins.go. `plugin.Open` and `Lookup` are outside the program, and so is what
-- they give: a shared object and its symbols, each with a type that the program asks for.
use gott.Common.{Bool, List, [], ◌∷◌, Option, none, some, Bytes, if◌then◌else◌}
use gott.Config.{codes, Entries, no_entries, Config}
use gott.Config.Load.{config_of}
use gott.Plugins.{Decides, Reports, Login, Delivery, Request, Removal, Departure, GottPlugin}

-- A symbol of a shared object, by its Go type.
pub data Symbol (Conn S : Type 0) : Type 0 where
  procedure : (S → S) → Symbol Conn S
  configurable : (Entries → S → S) → Symbol Conn S
  decides_socket : Decides Conn S → Symbol Conn S
  decides_login : Decides Login S → Symbol Conn S
  decides_delivery : Decides Delivery S → Symbol Conn S
  reports_delivery : Reports Delivery S → Symbol Conn S
  decides_request : Decides Request S → Symbol Conn S
  reports_request : Reports Request S → Symbol Conn S
  decides_removal : Decides Removal S → Symbol Conn S
  reports_removal : Reports Removal S → Symbol Conn S
  reports_departure : Reports Departure S → Symbol Conn S
  unknown : Symbol Conn S

-- Whether the plugins directory is there and can be made, `path.Join`, `plugin.Open`, which may run code
-- of the plugin, and `Lookup`.
pub record Loader (Conn S Shared : Type 0) : Type 0 where
  pub path_exists : (path : Bytes) → Bool
  pub can_make : (path : Bytes) → Bool
  pub join : (dir name : Bytes) → Bytes
  pub opens : (path : Bytes) → S → Option Shared × S
  pub lookup : Shared → (name : Bytes) → Option (Symbol Conn S)

-- A map gives an empty configuration for a name that it does not have.
abbrev pub given : Option Entries → Entries
given none = no_entries
given (some vm) = vm

-- The type assertions on what `Lookup` has found.
module _ {Conn S : Type 0} where
  abbrev pub as_procedure : Option (Symbol Conn S) → Option (S → S)
  as_procedure (some (procedure f)) = some f
  as_procedure _ = none

  abbrev pub as_decides_socket : Option (Symbol Conn S) → Option (Decides Conn S)
  as_decides_socket (some (decides_socket f)) = some f
  as_decides_socket _ = none

  abbrev pub as_decides_login : Option (Symbol Conn S) → Option (Decides Login S)
  as_decides_login (some (decides_login f)) = some f
  as_decides_login _ = none

  abbrev pub as_decides_delivery : Option (Symbol Conn S) → Option (Decides Delivery S)
  as_decides_delivery (some (decides_delivery f)) = some f
  as_decides_delivery _ = none

  abbrev pub as_reports_delivery : Option (Symbol Conn S) → Option (Reports Delivery S)
  as_reports_delivery (some (reports_delivery f)) = some f
  as_reports_delivery _ = none

  abbrev pub as_decides_request : Option (Symbol Conn S) → Option (Decides Request S)
  as_decides_request (some (decides_request f)) = some f
  as_decides_request _ = none

  abbrev pub as_reports_request : Option (Symbol Conn S) → Option (Reports Request S)
  as_reports_request (some (reports_request f)) = some f
  as_reports_request _ = none

  abbrev pub as_decides_removal : Option (Symbol Conn S) → Option (Decides Removal S)
  as_decides_removal (some (decides_removal f)) = some f
  as_decides_removal _ = none

  abbrev pub as_reports_removal : Option (Symbol Conn S) → Option (Reports Removal S)
  as_reports_removal (some (reports_removal f)) = some f
  as_reports_removal _ = none

  abbrev pub as_reports_departure : Option (Symbol Conn S) → Option (Reports Departure S)
  as_reports_departure (some (reports_departure f)) = some f
  as_reports_departure _ = none

  -- The call of `Bootstrap`, with the plugin's configuration where it takes one.
  abbrev pub boot : Option (Symbol Conn S) → Option Entries → S → S
  boot (some (procedure f)) vm s = f s
  boot (some (configurable f)) vm s = f (given vm) s
  boot _ vm s = s

module _ {Conn S Shared : Type 0} (loader : Loader Conn S Shared) where
  -- One plugin's hooks.
  unfoldable pub plugin_of : (name : Bytes) → Shared → GottPlugin Conn S
  plugin_of name p = record {
    name = name;
    on_socket_open = as_decides_socket (loader.lookup p (codes "OnSocketOpen"));
    on_before_connect = as_decides_login (loader.lookup p (codes "OnBeforeConnect"));
    on_connect = as_decides_login (loader.lookup p (codes "OnConnect"));
    on_message = as_reports_delivery (loader.lookup p (codes "OnMessage"));
    on_before_publish = as_decides_delivery (loader.lookup p (codes "OnBeforePublish"));
    on_publish = as_reports_delivery (loader.lookup p (codes "OnPublish"));
    on_before_subscribe = as_decides_request (loader.lookup p (codes "OnBeforeSubscribe"));
    on_subscribe = as_reports_request (loader.lookup p (codes "OnSubscribe"));
    on_before_unsubscribe = as_decides_removal (loader.lookup p (codes "OnBeforeUnsubscribe"));
    on_unsubscribe = as_reports_removal (loader.lookup p (codes "OnUnsubscribe"));
    on_disconnect = as_reports_departure (loader.lookup p (codes "OnDisconnect"));
    cleanup = as_procedure (loader.lookup p (codes "Cleanup"));
  }

  module _ (config : Config) where
    abbrev pub booted : (name : Bytes) → Shared → S → S
    booted name p s =
        boot (loader.lookup p (codes "Bootstrap")) (config_of name config.plugin_config) s

    -- The loop over the names; a plugin that cannot be opened is passed over.
    unfoldable pub load_each : List Bytes → S → List (GottPlugin Conn S) × S
    unfolding plugin_of config_of
    load_each [] s = ([], s)
    load_each (name ∷ names) s =
        let (opened, s') = loader.opens (loader.join (codes "plugins") name) s in
        elim opened [
          | none ↦ load_each names s'
          | some p ↦
              let (plugins, s'') = load_each names (booted name p s') in
              (plugin_of name p ∷ plugins, s'')
        ]

    -- None where the plugins directory is missing and cannot be made, which ends the program.
    unfoldable pub bootstrap_plugins : S → Option (List (GottPlugin Conn S) × S)
    unfolding load_each
    bootstrap_plugins s =
        if loader.path_exists (codes "plugins")
        then some (load_each config.plugin_names s)
        else if loader.can_make (codes "plugins")
        then some (load_each config.plugin_names s)
        else none
