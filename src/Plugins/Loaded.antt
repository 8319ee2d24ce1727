-- ===== src/Plugins/Loaded.antt =====
-- Which plugins are loaded, and who can refuse a login.
use gott.Common.{
  Bool, true, false, List, [], ◌∷◌, Option, none, some, Bytes, if◌then◌else◌, ◌≡◌, refl, sym, ap,
  subst, ◌∙◌, inl, inr, Bool-cases, Option-cases,
}
use mathlib.Core.List.{Memᴰ}
use mathlib.Core.Option.{some-injective}
use gott.Config.{codes, Config}
use gott.Plugins.{Decides, Login, GottPlugin, ask, invoke_on_before_connect}
use gott.Plugins.Bootstrap.{
  Symbol, decides_login, Loader, plugin_of, booted, load_each, as_decides_login, bootstrap_plugins,
}

-- A plugin whose hook says no.
record Refuser {P A S : Type 0} (hook : P → Option (Decides A S)) (ps : List P) (a : A)
    : Type 0 where
  pub plugin : P
  pub listed : Memᴰ plugin ps
  pub decision : Decides A S
  pub has : hook plugin ≡ some decision
  pub asked_in : S
  pub says : (decision a asked_in).0 ≡ false

module _ {P A S : Type 0} (hook : P → Option (Decides A S)) (a : A) where
  Refuser-later : (p : P) (ps : List P) → Refuser hook ps a → Refuser hook (p ∷ ps) a
  Refuser-later p ps r = record {
    plugin = r.plugin;
    listed = Memᴰ.tail r.listed;
    decision = r.decision;
    has = r.has;
    asked_in = r.asked_in;
    says = r.says;
  }

  ask-silent :
      (p : P) (ps : List P) (s : S) → hook p ≡ none → ask hook (p ∷ ps) a s ≡ ask hook ps a s
  unfolding ask
  ask-silent p ps s e = rw (e, ask) refl

  ask-yes :
      (p : P) (ps : List P) (s : S) (f : Decides A S)
      → hook p ≡ some f
      → (f a s).0 ≡ true
      → ask hook (p ∷ ps) a s ≡ ask hook ps a (f a s).1
  unfolding ask
  ask-yes p ps s f e y = rw (e, ask, y) refl

  ask-Refuser : (ps : List P) (s : S) → (ask hook ps a s).0 ≡ false → Refuser hook ps a
  unfolding ask
  ask-Refuser [] s h = absurd cc
  ask-Refuser (p ∷ ps) s h = elim (Option-cases (hook p)) [
    | inl e ↦ Refuser-later p ps (ask-Refuser ps s (sym (ap (λ r. r.0) (ask-silent p ps s e)) ∙ h))
    | inr (f, e) ↦ elim (Bool-cases (f a s).0) [
      | inl y ↦
          Refuser-later p ps
            (ask-Refuser ps (f a s).1 (sym (ap (λ r. r.0) (ask-yes p ps s f e y)) ∙ h))
      | inr n ↦ record {
        plugin = p;
        listed = Memᴰ.head refl;
        decision = f;
        has = e;
        asked_in = s;
        says = n;
      }
    ]
  ]

as_decides_login-some :
    {Conn S : Type 0} (x : Option (Symbol Conn S)) (f : Decides Login S)
    → as_decides_login x ≡ some f
    → x ≡ some (decides_login f)
as_decides_login-some (some (decides_login g)) f e =
    ap (λ g'. some (decides_login g')) (some-injective _ _ e)
as_decides_login-some _ f e = absurd cc

either-some :
    {A : Type 0} (b c : Bool) (x r : A)
    → (if b then some x else if c then some x else none) ≡ some r
    → x ≡ r
either-some true c x r e = some-injective _ _ e
either-some false true x r e = some-injective _ _ e
either-some false false x r e = absurd cc

module _ {Conn S Shared : Type 0} (loader : Loader Conn S Shared) (config : Config) where
  -- A loaded plugin is a shared object that has been opened under a listed name.
  pub record Origin (names : List Bytes) (plugin : GottPlugin Conn S) : Type 0 where
    pub name : Bytes
    pub listed : Memᴰ name names
    pub shared : Shared
    pub opened_in : S
    pub opened : (loader.opens (loader.join (codes "plugins") name) opened_in).0 ≡ some shared
    pub made : plugin ≡ plugin_of loader name shared

  Origin-later :
      (name : Bytes) (names : List Bytes) (p : GottPlugin Conn S)
      → Origin names p
      → Origin (name ∷ names) p
  Origin-later name names p o = record {
    name = o.name;
    listed = Memᴰ.tail o.listed;
    shared = o.shared;
    opened_in = o.opened_in;
    opened = o.opened;
    made = o.made;
  }

  load_each-failed :
      (name : Bytes) (names : List Bytes) (s : S)
      → (loader.opens (loader.join (codes "plugins") name) s).0 ≡ none
      → load_each loader config (name ∷ names) s
        ≡ load_each loader config names (loader.opens (loader.join (codes "plugins") name) s).1
  unfolding load_each
  load_each-failed name names s e = rw (e, load_each) refl

  load_each-opened :
      (name : Bytes) (names : List Bytes) (s : S) (p : Shared)
      → (loader.opens (loader.join (codes "plugins") name) s).0 ≡ some p
      → let r =
          load_each loader config names
            (booted loader config name p (loader.opens (loader.join (codes "plugins") name) s).1) in
        load_each loader config (name ∷ names) s ≡ (plugin_of loader name p ∷ r.0, r.1)
  unfolding load_each
  load_each-opened name names s p e = rw (e, load_each) refl

  load_each-Origin :
      (names : List Bytes) (s : S) (p : GottPlugin Conn S)
      → Memᴰ p (load_each loader config names s).0
      → Origin names p
  unfolding load_each
  load_each-Origin [] s p m = elim m [ ]
  load_each-Origin (name ∷ names) s p m =
      let s₁ = (loader.opens (loader.join (codes "plugins") name) s).1 in
      elim (Option-cases (loader.opens (loader.join (codes "plugins") name) s).0) [
        | inl e ↦ Origin-later name names p (
            load_each-Origin names s₁ p
              (subst (λ r. Memᴰ p r.0) (load_each-failed name names s e) m))
        | inr (shared, e) ↦
            elim (subst (λ r. Memᴰ p r.0) (load_each-opened name names s shared e) m) [
              | Memᴰ.head q ↦ record {
                name = name;
                listed = Memᴰ.head refl;
                shared = shared;
                opened_in = s;
                opened = e;
                made = q;
              }
              | Memᴰ.tail m' ↦
                  Origin-later name names p
                    (load_each-Origin names (booted loader config name shared s₁) p m')
            ]
      ]

  bootstrap_plugins-loaded :
      (s : S) (r : List (GottPlugin Conn S) × S)
      → bootstrap_plugins loader config s ≡ some r
      → load_each loader config config.plugin_names s ≡ r
  unfolding bootstrap_plugins
  bootstrap_plugins-loaded s r e =
      either-some (loader.path_exists (codes "plugins")) (loader.can_make (codes "plugins"))
        (load_each loader config config.plugin_names s) r e

  -- A plugin that has been opened under a listed name, and whose `OnBeforeConnect` says no.
  pub record Rejects (login : Login) : Type 0 where
    pub name : Bytes
    pub listed : Memᴰ name config.plugin_names
    pub shared : Shared
    pub opened_in : S
    pub opened : (loader.opens (loader.join (codes "plugins") name) opened_in).0 ≡ some shared
    pub decision : Decides Login S
    pub exported : loader.lookup shared (codes "OnBeforeConnect") ≡ some (decides_login decision)
    pub asked_in : S
    pub says : (decision login asked_in).0 ≡ false

  -- With the plugins that `bootstrapPlugins` has loaded, a login is refused only by a function that
  -- one of the configured plugins that could be opened exports as `OnBeforeConnect`, with the type of
  -- that hook: a function of another type refuses nobody.
  pub bootstrap_plugins-Rejects :
      (s s₁ t : S) (plugins : List (GottPlugin Conn S)) (login : Login)
      → bootstrap_plugins loader config s ≡ some (plugins, s₁)
      → (invoke_on_before_connect plugins login t).0 ≡ false
      → Rejects login
  unfolding invoke_on_before_connect plugin_of
  bootstrap_plugins-Rejects s s₁ t plugins login e h =
      let r = ask-Refuser (λ (p : GottPlugin Conn S). p.on_before_connect) login plugins t h in
      let loaded = bootstrap_plugins-loaded s (plugins, s₁) e in
      let o =
        load_each-Origin config.plugin_names s r.plugin
          (subst (Memᴰ r.plugin) (sym (ap (λ x. x.0) loaded)) r.listed) in
      record {
        name = o.name;
        listed = o.listed;
        shared = o.shared;
        opened_in = o.opened_in;
        opened = o.opened;
        decision = r.decision;
        exported = as_decides_login-some _ _ (ap (λ p. p.on_before_connect) (sym o.made) ∙ r.has);
        asked_in = r.asked_in;
        says = r.says;
      }
