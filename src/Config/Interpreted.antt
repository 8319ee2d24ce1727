-- ===== src/Config/Interpreted.antt =====
-- What `loadConfig` makes of a parsed file: the log level and the plugins.
use gott.Common.{
  false, List, [], ◌∷◌, ◌++◌, append_assoc, append-nil, Bytes, bytes_eq, bytes_eq→eq, bytes_eq_self,
  ◌≡◌, ◌≢◌, refl, sym, ap, subst, ◌∙◌, inl, inr, arith, Bool-cases,
}
use gott.Config.{
  codes, Yaml, text, mapping, other, Entries, entry, Severity, debug, info, error, fatal,
  LoggingConfig, Config,
}
use gott.Config.Load.{set_level, first_entry, read_plugin, read_plugins, interpret}

-- The names of the levels.
abbrev pub level_name : Severity → Bytes
level_name debug = codes "debug"
level_name info = codes "info"
level_name error = codes "error"
level_name fatal = codes "fatal"

-- A name and the level that it stands for; an unknown one stands for `error`.
pub data Means (name : Bytes) : Severity → Type 0 where
  known : (s : Severity) → name ≡ level_name s → Means name s
  unknown : ((s : Severity) → name ≢ level_name s) → Means name error

differs : (a b : Bytes) → bytes_eq a b ≡ false → a ≢ b
differs a b h e = absurd (ground (arith, ap (bytes_eq a) e, bytes_eq_self a))

no_name :
    (b : Bytes)
    → bytes_eq b (codes "debug") ≡ false
    → bytes_eq b (codes "info") ≡ false
    → bytes_eq b (codes "error") ≡ false
    → bytes_eq b (codes "fatal") ≡ false
    → (s : Severity) → b ≢ level_name s
no_name b d i r f debug = differs b (codes "debug") d
no_name b d i r f info = differs b (codes "info") i
no_name b d i r f error = differs b (codes "error") r
no_name b d i r f fatal = differs b (codes "fatal") f

-- The level with the name that is written back.
abbrev Set : Bytes → LoggingConfig → Type 0
Set name l = Means name l.level × (l.log_level ≡ level_name l.level)

set_level-Set : (l : LoggingConfig) → Set l.log_level (set_level l)
unfolding set_level
set_level-Set l = elim (Bool-cases (bytes_eq l.log_level (codes "debug"))) [
  | inl e ↦
      let k = bytes_eq→eq l.log_level (codes "debug") e in rw (e, set_level) (known debug k, k)
  | inr d ↦ elim (Bool-cases (bytes_eq l.log_level (codes "info"))) [
    | inl e ↦
        let k = bytes_eq→eq l.log_level (codes "info") e in rw (d, e, set_level) (known info k, k)
    | inr i ↦ elim (Bool-cases (bytes_eq l.log_level (codes "error"))) [
      | inl e ↦
          let k = bytes_eq→eq l.log_level (codes "error") e in
          rw (d, i, e, set_level) (known error k, k)
      | inr r ↦ elim (Bool-cases (bytes_eq l.log_level (codes "fatal"))) [
        | inl e ↦
            let k = bytes_eq→eq l.log_level (codes "fatal") e in
            rw (d, i, r, e, set_level) (known fatal k, k)
        | inr f ↦ rw (d, i, r, f, set_level) (unknown (no_name l.log_level d i r f), refl)
      ]
    ]
  ]
]

-- The name that an item of the list of plugins gives, if it gives one.
abbrev pub given_name : Yaml → List Bytes
given_name (text name) = name ∷ []
given_name (mapping (entry (text name) (mapping vm) rest)) = name ∷ []
given_name _ = []

abbrev pub given_names : List Yaml → List Bytes
given_names [] = []
given_names (item ∷ items) = given_name item ++ given_names items

-- The configuration that it gives with the name.
abbrev pub given_config : Yaml → List (Bytes × Entries)
given_config (mapping (entry (text name) (mapping vm) rest)) = (name, vm) ∷ []
given_config _ = []

abbrev pub given_configs : List Yaml → List (Bytes × Entries)
given_configs [] = []
given_configs (item ∷ items) = given_config item ++ given_configs items

-- What items with these names and configurations leave.
record Adds (names : List Bytes) (configs : List (Bytes × Entries)) (c c' : Config) : Type 0 where
  pub named : c'.plugin_names ≡ c.plugin_names ++ names
  pub configured : c'.plugin_config ≡ c.plugin_config ++ configs
  pub logging : c'.logging ≡ c.logging

Adds-nothing : (c : Config) → Adds [] [] c c
Adds-nothing c = record {
  named = sym (append-nil c.plugin_names);
  configured = sym (append-nil c.plugin_config);
  logging = refl;
}

Adds-trans :
    {n n' : List Bytes} {v v' : List (Bytes × Entries)} (c d e : Config)
    → Adds n v c d
    → Adds n' v' d e
    → Adds (n ++ n') (v ++ v') c e
Adds-trans {n} {n'} {v} {v'} c d e a b = record {
  named = b.named ∙ (ap (λ x. x ++ n') a.named ∙ append_assoc c.plugin_names n n');
  configured = b.configured ∙ (ap (λ x. x ++ v') a.configured ∙ append_assoc c.plugin_config v v');
  logging = b.logging ∙ a.logging;
}

first_entry-Adds :
    (m : Entries) (c : Config)
    → Adds (given_name (mapping m)) (given_config (mapping m)) c (first_entry m c)
first_entry-Adds (entry (text name) (mapping vm) rest) c = record {
  named = refl;
  configured = refl;
  logging = refl;
}
first_entry-Adds _ c = Adds-nothing c

read_plugin-Adds :
    (item : Yaml) (c : Config) → Adds (given_name item) (given_config item) c (read_plugin item c)
read_plugin-Adds (text name) c = record {
  named = refl;
  configured = sym (append-nil c.plugin_config);
  logging = refl;
}
read_plugin-Adds (mapping m) c = first_entry-Adds m c
read_plugin-Adds other c = Adds-nothing c

read_plugins-Adds :
    (items : List Yaml) (c : Config)
    → Adds (given_names items) (given_configs items) c (read_plugins items c)
unfolding read_plugins
read_plugins-Adds [] c = Adds-nothing c
read_plugins-Adds (item ∷ items) c =
    Adds-trans c (read_plugin item c) (read_plugins items (read_plugin item c))
      (read_plugin-Adds item c) (read_plugins-Adds items (read_plugin item c))

abbrev prepared : Config → Config
prepared c = record c { logging = set_level c.logging; plugin_config = [] }

-- The level of a configuration that has been read is the one that its name stands for, "error" where
-- the name is unknown, and the name is then the level's own. The plugins are those that the items of
-- its list name, in their order, and the configurations assigned to them are those of the items that
-- are mappings with one; an item that is neither a string nor a mapping whose first entry maps a
-- string to a mapping is passed over.
pub interpret_lem :
    (c : Config)
    → let c' = interpret c in
      Means c.logging.log_level c'.logging.level
      × (c'.logging.log_level ≡ level_name c'.logging.level)
      × (c'.plugin_names ≡ c.plugin_names ++ given_names c.plugins)
      × (c'.plugin_config ≡ given_configs c.plugins)
unfolding interpret
interpret_lem c =
    let a = read_plugins-Adds c.plugins (prepared c) in
    let (means, own) = subst (Set c.logging.log_level) (sym a.logging) (set_level-Set c.logging) in
    (means, own, a.named, a.configured)
