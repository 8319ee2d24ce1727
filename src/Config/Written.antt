-- ===== src/Config/Written.antt =====
-- The configuration file that `newConfig` writes where it can read none.
use gott.Common.{
  true, List, [], ◌∷◌, Option, none, some, Bytes, bytes_eq, bytes_eq_self, if◌then◌else◌, ◌≡◌, refl,
  ◌∙◌,
}
use gott.Config.{codes, default_config}
use gott.Config.Default.{default_config_content}
use gott.Config.Load.{Host, parse, use_file, load_config, new_config}

-- What a read gives after `files` have been written.
abbrev pub written : List (Bytes × Bytes) → (Bytes → Option Bytes) → Bytes → Option Bytes
written [] read path = read path
written ((name, content) ∷ files) read path =
    let below = written files read path in if bytes_eq name path then some content else below

abbrev pub later : Host → Host
later host = record host { read_file = written (new_config host).0 host.read_file }

new_config-first :
    (host : Host)
    → host.read_file (codes "config.yml") ≡ none
    → host.can_write (codes "config.yml") ≡ true
    → new_config host ≡ (
      (codes "config.yml", default_config_content) ∷ [],
      parse host default_config_content default_config,
    )
unfolding new_config load_config use_file default_config
new_config-first host r w = rw (r, use_file, w) refl

new_config-found :
    (host : Host) (file : Bytes)
    → host.read_file (codes "config.yml") ≡ some file
    → new_config host ≡ ([], parse host file default_config)
unfolding new_config load_config use_file default_config
new_config-found host file r = rw r refl

-- If no configuration file can be read and one can be written, a second start reads the file that the
-- first has written, comes to the same configuration and writes nothing.
pub new_config-again :
    (host : Host)
    → host.read_file (codes "config.yml") ≡ none
    → host.can_write (codes "config.yml") ≡ true
    → new_config (later host) ≡ ([], (new_config host).1)
new_config-again host r w =
    let first = new_config-first host r w in
    let found : (later host).read_file (codes "config.yml") ≡ some default_config_content =
      rw first (rw (bytes_eq_self (codes "config.yml")) refl) in
    new_config-found (later host) default_config_content found ∙ rw first refl
