-- ===== src/Plugins.antt =====
-- The hooks of plugins.go: how the `invoke…` functions ask the plugins one after another. A plugin's
-- function may be missing; it may change what it likes, which is the state `S`. The loading of the
-- plugins is not modelled.
pub mod Order
pub mod Bootstrap
pub mod Loaded
use gott.Common.{ℕ, Bool, true, false, List, [], ◌∷◌, Option, none, some, Bytes, if◌then◌else◌}

-- A hook that decides, and one that is only told.
abbrev pub Decides : Type 0 → Type 0 → Type 0
Decides A S = A → S → Bool × S

abbrev pub Reports : Type 0 → Type 0 → Type 0
Reports A S = A → S → S

-- A client's identifier and user name; with a password; a message with its flags; a filter.
pub record Login : Type 0 where
  pub client_id : Bytes
  pub username : Bytes
  pub password : Bytes

pub record Delivery : Type 0 where
  pub client_id : Bytes
  pub username : Bytes
  pub topic : Bytes
  pub payload : Bytes
  pub dup : ℕ
  pub qos : ℕ
  pub retain : Bool

pub record Request : Type 0 where
  pub client_id : Bytes
  pub username : Bytes
  pub topic : Bytes
  pub qos : ℕ

pub record Removal : Type 0 where
  pub client_id : Bytes
  pub username : Bytes
  pub topic : Bytes

pub record Departure : Type 0 where
  pub client_id : Bytes
  pub username : Bytes
  pub graceful : Bool

-- `gottPlugin`; `Conn` is a network connection.
pub record GottPlugin (Conn S : Type 0) : Type 0 where
  pub name : Bytes
  pub on_socket_open : Option (Decides Conn S)
  pub on_before_connect : Option (Decides Login S)
  pub on_connect : Option (Decides Login S)
  pub on_message : Option (Reports Delivery S)
  pub on_before_publish : Option (Decides Delivery S)
  pub on_publish : Option (Reports Delivery S)
  pub on_before_subscribe : Option (Decides Request S)
  pub on_subscribe : Option (Reports Request S)
  pub on_before_unsubscribe : Option (Decides Removal S)
  pub on_unsubscribe : Option (Reports Removal S)
  pub on_disconnect : Option (Reports Departure S)
  pub cleanup : Option (S → S)

-- One turn of the loop over a hook that decides, where `rest` is the loop over the later plugins: the
-- first plugin to say no ends it.
module _ {A S : Type 0} where
  abbrev pub decide : Option (Decides A S) → A → (S → Bool × S) → S → Bool × S
  decide none a rest s = rest s
  decide (some f) a rest s =
      let (agrees, s') = f a s in let later = rest s' in if agrees then later else (false, s')

  abbrev pub notify : Option (Reports A S) → A → S → S
  notify none a s = s
  notify (some f) a s = f a s

module _ {P A S : Type 0} where
  unfoldable pub ask : (P → Option (Decides A S)) → List P → A → S → Bool × S
  ask hook [] a s = (true, s)
  ask hook (p ∷ ps) a s = decide (hook p) a (ask hook ps a) s

  unfoldable pub tell : (P → Option (Reports A S)) → List P → A → S → S
  tell hook [] a s = s
  tell hook (p ∷ ps) a s = tell hook ps a (notify (hook p) a s)

-- `cleanup` has no argument.
abbrev as_report : {S : Type 0} → Option (S → S) → Option (Reports (Unit {0}) S)
as_report none = none
as_report (some f) = some (λ _. f)

module _ {Conn S : Type 0} (plugins : List (GottPlugin Conn S)) where
  unfoldable pub invoke_on_socket_open : Conn → S → Bool × S
  unfolding ask
  invoke_on_socket_open = ask (λ (p : GottPlugin Conn S). p.on_socket_open) plugins

  unfoldable pub invoke_on_before_connect : Login → S → Bool × S
  unfolding ask
  invoke_on_before_connect = ask (λ (p : GottPlugin Conn S). p.on_before_connect) plugins

  unfoldable pub invoke_on_connect : Login → S → Bool × S
  unfolding ask
  invoke_on_connect = ask (λ (p : GottPlugin Conn S). p.on_connect) plugins

  unfoldable pub invoke_on_message : Delivery → S → S
  unfolding tell
  invoke_on_message = tell (λ (p : GottPlugin Conn S). p.on_message) plugins

  unfoldable pub invoke_on_before_publish : Delivery → S → Bool × S
  unfolding ask
  invoke_on_before_publish = ask (λ (p : GottPlugin Conn S). p.on_before_publish) plugins

  unfoldable pub invoke_on_publish : Delivery → S → S
  unfolding tell
  invoke_on_publish = tell (λ (p : GottPlugin Conn S). p.on_publish) plugins

  unfoldable pub invoke_on_before_subscribe : Request → S → Bool × S
  unfolding ask
  invoke_on_before_subscribe = ask (λ (p : GottPlugin Conn S). p.on_before_subscribe) plugins

  unfoldable pub invoke_on_subscribe : Request → S → S
  unfolding tell
  invoke_on_subscribe = tell (λ (p : GottPlugin Conn S). p.on_subscribe) plugins

  unfoldable pub invoke_on_before_unsubscribe : Removal → S → Bool × S
  unfolding ask
  invoke_on_before_unsubscribe = ask (λ (p : GottPlugin Conn S). p.on_before_unsubscribe) plugins

  unfoldable pub invoke_on_unsubscribe : Removal → S → S
  unfolding tell
  invoke_on_unsubscribe = tell (λ (p : GottPlugin Conn S). p.on_unsubscribe) plugins

  unfoldable pub invoke_on_disconnect : Departure → S → S
  unfolding tell
  invoke_on_disconnect = tell (λ (p : GottPlugin Conn S). p.on_disconnect) plugins

  unfoldable pub cleanup_plugins : S → S
  unfolding tell
  cleanup_plugins = tell (λ (p : GottPlugin Conn S). as_report p.cleanup) plugins tt
