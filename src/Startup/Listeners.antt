-- ===== src/Startup/Listeners.antt =====
-- What `Listen` starts.
use gott.Common.{
  true, false, ◌||◌, List, [], ◌∷◌, ◌++◌, append-nil, Option, none, some, if◌then◌else◌, ◌≡◌, ◌≢◌,
  refl, inl, inr, Bool-cases, arith, subst, ◌∙◌, sym,
}
use gott.Config.{is_set, tls_enabled, wss_enabled, Config}
use gott.Startup.{
  Network, Listener, plain, secure, web, web_secure, StartError, no_listeners, server_for, start,
  start_plain, start_tls, start_web, has_any, is_on, and_rest, and_tls, and_web, cannot_listen,
  cannot_load, cannot_listen_tls,
}

-- The listeners that a configuration asks for.
abbrev pub wanted_plain : Config → List Listener
wanted_plain c = if is_set c.listen then plain c.listen ∷ [] else []

abbrev pub wanted_tls : Config → List Listener
wanted_tls c = if tls_enabled c.tls then secure c.tls.listen ∷ [] else []

abbrev pub wanted_web : Config → List Listener
wanted_web c =
    (if is_set c.web_sockets.listen then web c.web_sockets.listen ∷ [] else [])
    ++ (if wss_enabled c.web_sockets.wss then web_secure c.web_sockets.wss.listen ∷ [] else [])

abbrev pub wanted : Config → List Listener
wanted c = (wanted_plain c ++ wanted_tls c) ++ wanted_web c

module _ (net : Network) (c : Config) where
  web-server : start_web net c (server_for c) ≡ wanted_web c
  unfolding start_web
  web-server = elim (Bool-cases (wss_enabled c.web_sockets.wss)) [
    | inl e ↦ rw (e, start_web, e) refl
    | inr e ↦ elim (Bool-cases (is_set c.web_sockets.listen)) [
      | inl f ↦ rw (e, f, start_web, e, f) refl
      | inr f ↦ rw (e, f) refl
    ]
  ]

  is_on-server : is_on net c (server_for c) ≡ has_any net c (wanted_web c)
  is_on-server = elim (Bool-cases (wss_enabled c.web_sockets.wss)) [
    | inl e ↦ elim (Bool-cases (is_set c.web_sockets.listen)) [
      | inl f ↦ rw (e, f) refl
      | inr f ↦ rw (e, f) refl
    ]
    | inr e ↦ elim (Bool-cases (is_set c.web_sockets.listen)) [
      | inl f ↦ rw (e, f) refl
      | inr f ↦ rw (e, f) refl
    ]
  ]

  has_any-append :
      (a b : List Listener) → has_any net c (a ++ b) ≡ (has_any net c a || has_any net c b)
  has_any-append [] b = refl
  has_any-append (l ∷ a) b = refl

  -- The TCP listener and the TLS listener start, or the first that does not ends `Listen`.
  data PlainResult : List Listener × Option StartError → Type 0 where
    plain_started :
        (is_set c.listen ≡ true → net.can_listen c.listen ≡ true)
        → PlainResult (wanted_plain c, none)
    plain_failed :
        is_set c.listen ≡ true
        → net.can_listen c.listen ≡ false
        → PlainResult ([], some cannot_listen)

  start_plain-Result : PlainResult (start_plain net c)
  unfolding start_plain
  start_plain-Result = elim (Bool-cases (is_set c.listen)) [
    | inl e ↦ elim (Bool-cases (net.can_listen c.listen)) [
      | inl f ↦ rw (e, f, start_plain) (subst PlainResult (rw e refl) (plain_started (λ _. f)))
      | inr f ↦ rw (e, f, start_plain) (plain_failed e f)
    ]
    | inr e ↦ rw (e, start_plain) (subst PlainResult (rw e refl) (plain_started (λ i. absurd cc)))
  ]

  data TlsResult : List Listener × Option StartError → Type 0 where
    tls_started :
        (tls_enabled c.tls ≡ true → net.can_load c.tls.cert c.tls.key ≡ true)
        → (tls_enabled c.tls ≡ true → net.can_listen_tls c.tls.listen ≡ true)
        → TlsResult (wanted_tls c, none)
    certificate_failed :
        tls_enabled c.tls ≡ true
        → net.can_load c.tls.cert c.tls.key ≡ false
        → TlsResult ([], some cannot_load)
    tls_failed :
        tls_enabled c.tls ≡ true
        → net.can_load c.tls.cert c.tls.key ≡ true
        → net.can_listen_tls c.tls.listen ≡ false
        → TlsResult ([], some cannot_listen_tls)

  start_tls-Result : TlsResult (start_tls net c)
  unfolding start_tls
  start_tls-Result = elim (Bool-cases (tls_enabled c.tls)) [
    | inl e ↦ elim (Bool-cases (net.can_load c.tls.cert c.tls.key)) [
      | inl f ↦ elim (Bool-cases (net.can_listen_tls c.tls.listen)) [
        | inl g ↦
            rw (e, f, g, start_tls) (subst TlsResult (rw e refl) (tls_started (λ _. f) (λ _. g)))
        | inr g ↦ rw (e, f, g, start_tls) (tls_failed e f g)
      ]
      | inr f ↦ rw (e, f, start_tls) (certificate_failed e f)
    ]
    | inr e ↦
        rw (e, start_tls)
          (subst TlsResult (rw e refl) (tls_started (λ i. absurd cc) (λ i. absurd cc)))
  ]

  -- The TCP listener can start, if it is asked for.
  abbrev pub PlainCan : Type 0
  PlainCan = is_set c.listen ≡ true → net.can_listen c.listen ≡ true

  -- The certificate can be loaded, if TLS is asked for.
  abbrev pub LoadCan : Type 0
  LoadCan = tls_enabled c.tls ≡ true → net.can_load c.tls.cert c.tls.key ≡ true

  -- The TLS listener can start, if it is asked for.
  abbrev pub TlsCan : Type 0
  TlsCan = tls_enabled c.tls ≡ true → net.can_listen_tls c.tls.listen ≡ true

  -- How `Listen` starts: everything that is asked for is running; or nothing is asked for; or the TCP
  -- listener fails; or the certificate or the TLS listener does, with the TCP listener started before.
  pub data Started : List Listener × Option StartError → Type 0 where
    serves : wanted c ≢ [] → PlainCan → LoadCan → TlsCan → Started (wanted c, none)
    idle : wanted c ≡ [] → Started ([], some no_listeners)
    no_plain :
        is_set c.listen ≡ true → net.can_listen c.listen ≡ false → Started ([], some cannot_listen)
    no_certificate :
        PlainCan
        → tls_enabled c.tls ≡ true
        → net.can_load c.tls.cert c.tls.key ≡ false
        → Started (wanted_plain c, some cannot_load)
    no_tls :
        PlainCan
        → tls_enabled c.tls ≡ true
        → net.can_load c.tls.cert c.tls.key ≡ true
        → net.can_listen_tls c.tls.listen ≡ false
        → Started (wanted_plain c, some cannot_listen_tls)

  final-Started :
      PlainCan
      → LoadCan
      → TlsCan
      → (ls : List Listener) → wanted c ≡ ls
      → Started (ls, if has_any net c ls then none else some no_listeners)
  final-Started hp hl ht [] e = idle e
  final-Started hp hl ht (l ∷ ls) e =
      subst (λ x. Started (x, none)) e (serves (λ e'. absurd (ground (arith, sym e ∙ e'))) hp hl ht)

  web-Started :
      PlainCan
      → LoadCan
      → TlsCan
      → Started (and_web net c (server_for c) (wanted_plain c ++ wanted_tls c))
  web-Started hp hl ht =
      rw
        (
          web-server,
          is_on-server,
          sym (has_any-append (wanted_plain c ++ wanted_tls c) (wanted_web c)),
        )
        (final-Started hp hl ht (wanted c) refl)

  tls-Started :
      PlainCan
      → (p : List Listener × Option StartError) → TlsResult p
      → Started (and_tls net c (server_for c) (wanted_plain c) p)
  tls-Started hp _ (tls_started hl ht) = web-Started hp hl ht
  tls-Started hp _ (certificate_failed e f) =
      subst (λ x. Started (x, some cannot_load)) (sym (append-nil (wanted_plain c)))
        (no_certificate hp e f)
  tls-Started hp _ (tls_failed e f g) =
      subst (λ x. Started (x, some cannot_listen_tls)) (sym (append-nil (wanted_plain c)))
        (no_tls hp e f g)

  plain-Started :
      (p : List Listener × Option StartError)
      → PlainResult p
      → Started (and_rest net c (server_for c) p)
  plain-Started _ (plain_started hp) = tls-Started hp (start_tls net c) start_tls-Result
  plain-Started _ (plain_failed e f) = no_plain e f

  -- `Listen`, with the server that `NewBroker` makes, starts every listener that the configuration asks
  -- for, of TCP, TLS, WebSockets and secure WebSockets, where it asks for any, the TCP and TLS
  -- listeners that it asks for can start and the certificate that it asks for can be loaded; or it
  -- starts none and returns the error for that, if it asks for none; or it returns the error of the
  -- TCP listener, where that is asked for and cannot start; or, after the TCP listener that is asked
  -- for, the error of the certificate where TLS is asked for and it cannot be loaded, or that of the
  -- TLS listener where the certificate can be loaded and that listener cannot start.
  pub start-Started : Started (start net c (server_for c))
  unfolding start
  start-Started = plain-Started (start_plain net c) start_plain-Result
