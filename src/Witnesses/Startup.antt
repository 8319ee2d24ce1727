-- ===== src/Witnesses/Startup.antt =====
-- The start of a broker on concrete hosts, and its session database.
use gott.Common.{
  ℕ, Bool, true, false, [], ◌∷◌, ◌++◌, Option, none, some, Bytes, bytes_eq, if◌then◌else◌, ◌≡◌, ◌↔◌,
  ◌⊎◌, refl, sym, ap,
}
use gott.Config.{codes, text, mapping, other, Entries, no_entries, entry, Config, default_config}
use gott.Config.Load.{interpret}
use gott.Config.Interpreted.{Means, level_name, given_names, given_configs, interpret_lem}
use gott.Plugins.{Login, GottPlugin, invoke_on_before_connect}
use gott.Plugins.Bootstrap.{Symbol, decides_login, Loader, plugin_of, bootstrap_plugins}
use gott.Plugins.Loaded.{Rejects, bootstrap_plugins-Rejects}
use gott.SessionStore.{Written, stored, too_big, rejected, Badger, Json, and_then, set}
use gott.SessionStore.Kept.{Lawful, put_in, set-contents}
use gott.Startup.{Network, server_for, start}
use gott.Startup.Listeners.{Started, start-Started}
use gott.WebSockets.{new_web_sockets_server}
use gott.WebSockets.Origins.{Listed, check_origin_iff}

-- Two origins are listed, and requests without one are to be rejected.
abbrev guarded : Config
guarded = record default_config {
  web_sockets = record default_config.web_sockets {
    reject_empty_origin = true;
    origins = codes "https://a.org" ∷ codes "https://b.org" ∷ [];
  };
}

check_origin_iff_example :
    ((new_web_sockets_server guarded).upgrader.checks_origin (codes "https://b.org") ≡ true) ↔ (
      (guarded.web_sockets.origins ≡ [])
      ⊎ Listed guarded.web_sockets.origins guarded.web_sockets.reject_empty_origin
          (codes "https://b.org"))
check_origin_iff_example = check_origin_iff guarded (codes "https://b.org")

-- A plugin by its name, one with a configuration, and a number that names none.
abbrev limits : Entries
limits = entry (text (codes "max")) other no_entries

abbrev parsed : Config
parsed = record default_config {
  logging = record default_config.logging { log_level = codes "warn" };
  plugins =
      text (codes "auth.so")
      ∷ other
      ∷ mapping (entry (text (codes "limiter.so")) (mapping limits) no_entries)
      ∷ [];
}

interpret_lem_example :
    let c' = interpret parsed in
    Means parsed.logging.log_level c'.logging.level
    × (c'.logging.log_level ≡ level_name c'.logging.level)
    × (c'.plugin_names ≡ parsed.plugin_names ++ given_names parsed.plugins)
    × (c'.plugin_config ≡ given_configs parsed.plugins)
interpret_lem_example = interpret_lem parsed

-- One plugin can be opened; it refuses every login, and counts them.
abbrev refuses_all : Login → ℕ → Bool × ℕ
refuses_all login n = (false, n)

abbrev symbol_of : Bytes → Option (Symbol Bytes ℕ)
symbol_of name =
    if bytes_eq name (codes "OnBeforeConnect") then some (decides_login refuses_all) else none

abbrev loader : Loader Bytes ℕ Bytes
loader = record {
  path_exists = λ path. true;
  can_make = λ path. true;
  join = λ dir name. dir ++ name;
  opens = λ path n. (if bytes_eq path (codes "pluginsauth.so") then some path else none, n);
  lookup = λ p. symbol_of;
}

abbrev configured : Config
configured = record default_config { plugin_names = codes "x.so" ∷ codes "auth.so" ∷ [] }

abbrev login : Login
login = record { client_id = codes "v"; username = []; password = [] }

abbrev auth : GottPlugin Bytes ℕ
auth = plugin_of loader (codes "auth.so") (codes "pluginsauth.so")

bootstrap_plugins-Rejects_example : Rejects loader configured login
unfolding bootstrap_plugins invoke_on_before_connect plugin_of bytes_eq
bootstrap_plugins-Rejects_example =
    bootstrap_plugins-Rejects loader configured 0 0 0 (auth ∷ []) login refl refl

-- The TLS listener fails.
abbrev network : Network
network = record {
  can_open_store = true;
  can_listen = λ address. true;
  can_load = λ cert key. true;
  can_listen_tls = λ address. false;
}

start-Started_example :
    Started network default_config (start network default_config (server_for default_config))
start-Started_example = start-Started network default_config

-- A database that is its contents, as is a transaction.
abbrev Contents : Type 0
Contents = Bytes → Option Bytes

abbrev badger : Badger Contents Contents Bytes
badger = record {
  view = λ db. db;
  update = λ f db. f db;
  new_transaction = λ db. db;
  get = λ t key. t key;
  value = λ item. some item;
  put = λ t key json. stored (λ j. if bytes_eq key j then some json else t j);
  remove = λ t key. some (λ j. if bytes_eq key j then none else t j);
  commit = λ t db. some t;
}

abbrev held : Written Contents → Contents
held (stored t) = t
held (too_big t) = t
held rejected = λ j. none

abbrev or_none : Option Contents → Contents
or_none none = λ j. none
or_none (some t) = t

and_then-value : (o : Option Bytes) → and_then o (λ item. some item) ≡ o
and_then-value none = refl
and_then-value (some b) = refl

abbrev badger-Lawful : Lawful badger
badger-Lawful = record {
  contents = λ db. db;
  pending = λ t. t;
  reads = λ db key. and_then-value (db key);
  begins = λ db key. refl;
  writes = λ t t' key json j e. ap (λ r. held r j) (sym e);
  keeps = λ t t' key json j e. absurd cc;
  commits = λ t db db' j e. ap (λ o. or_none o j) (sym e);
}

abbrev json : Json Bytes
json = record { marshal = λ v. some v; unmarshal = λ b out. some b }

set-contents_example :
    let r = set badger json (codes "id") (codes "s") (λ j. none) in
    r.1 (codes "id")
    ≡ (if r.0 then put_in (some (codes "s")) (codes "id") (λ j. none) (codes "id") else none)
set-contents_example =
    set-contents badger json badger-Lawful (codes "id") (codes "s") (λ j. none) (codes "id")
