-- ===== src/System/Safe.antt =====
-- What holds in every state that the broker reaches where its goroutines take turns.
use gott.Common.{ℕ, Bool, true, false, Bytes, some, ◌≡◌, refl, Bool-cases, Option-cases, inl, inr}
use gott.Types.{
  Status, unacknowledged, puback_received, pubrec_received, pubrel_received, pubcomp_received,
}
use gott.Topic.Filter.{valid_filter}
use gott.Topic.WellFormed.{empty_storage-StorageOk}
use gott.Broker.{World, connected_of}
use gott.Broker.Environment.{Environment}
use gott.Broker.Clients.{handle_connection}
use gott.Broker.Retry.{Stage, waiting, resending, returned, retry_step, resend}
use gott.Broker.WellFormed.{TreeOk}
use gott.Broker.Departure.{disconnect-StorageOk}
use gott.Broker.Subscribe.{subscribe}
use gott.Broker.EndToEnd.{subscribe-StorageOk}
use gott.Listen.Rounds.{round-Kept}
use gott.WebSockets.{on_request_handler}
use gott.System.{upgrades, Turn, opens, turns, ends, looks, ReachableInTurns, start, next}

handle_connection-TreeOk :
    (env : Environment) (client : ℕ) (w : World)
    → TreeOk w
    → TreeOk (handle_connection env client w)
unfolding handle_connection
handle_connection-TreeOk env client w ok = elim (Bool-cases (env.socket_open w.events client)) [
  | inl e ↦ rw e ok
  | inr e ↦ rw e ok
]

resend-storage : (i m c : ℕ) (s : Status) (w : World) → (resend i m c s w).1.storage ≡ w.storage
unfolding resend
resend-storage i m c unacknowledged w = refl
resend-storage i m c puback_received w = refl
resend-storage i m c pubrec_received w = refl
resend-storage i m c pubrel_received w = refl
resend-storage i m c pubcomp_received w = refl

retry_step-storage :
    (i m : ℕ) (stage : Stage) (w : World) → (retry_step i m stage w).1.storage ≡ w.storage
unfolding retry_step
retry_step-storage i m waiting w =
    elim (Option-cases (connected_of w.clients (w.messages m).client)) [
      | inl e ↦ rw (e, retry_step) refl
      | inr (c, e) ↦ rw (e, retry_step) refl
    ]
retry_step-storage i m resending w =
    elim (Option-cases (connected_of w.clients (w.messages m).client)) [
      | inl e ↦ rw (e, retry_step) refl
      | inr (c, e) ↦ rw (e, retry_step) (resend-storage i m c (w.messages m).status w)
    ]
retry_step-storage i m returned w = refl

on_request_handler-TreeOk :
    (env : Environment) (upgraded : Bool) (client : ℕ) (w : World)
    → TreeOk w
    → TreeOk (on_request_handler env upgraded client w)
unfolding on_request_handler handle_connection
on_request_handler-TreeOk env false client w ok = ok
on_request_handler-TreeOk env true client w ok = handle_connection-TreeOk env client w ok

module _ (env : Environment) where
  Turn-TreeOk : {w w' : World} → Turn env w w' → TreeOk w → TreeOk w'
  Turn-TreeOk {w} (opens client _) ok = handle_connection-TreeOk env client w ok
  Turn-TreeOk {w} (upgrades upgraded client _) ok =
      on_request_handler-TreeOk env upgraded client w ok
  Turn-TreeOk {w} (turns client input) ok =
      (round-Kept env client (record { input = input; world = w })).tree ok
  Turn-TreeOk {w} (ends client) ok = disconnect-StorageOk env client w ok
  Turn-TreeOk {w} (looks i m stage) ok = rw (retry_step-storage i m stage w) ok

  -- Where the goroutines take turns, each a whole round of `listen`, a whole `disconnect`, the opening
  -- of a connection or a look of a `Retry`, without another in between, then in every state that the
  -- broker reaches, whatever the connections send and in whatever order the turns are taken, the topic
  -- tree is well formed.
  pub ReachableInTurns-TreeOk : (w : World) → ReachableInTurns env w → TreeOk w
  ReachableInTurns-TreeOk _ (start clients sessions messages) = empty_storage-StorageOk
  ReachableInTurns-TreeOk _ (next {w} r s) = Turn-TreeOk s (ReachableInTurns-TreeOk w r)

  -- Where the goroutines take such turns, in every state that the broker reaches, `Subscribe` of a
  -- client that has a session returns, goes on exactly with a valid filter, and leaves the topic tree
  -- well formed.
  pub ReachableInTurns-subscribe :
      (client : ℕ) (filter : Bytes) (qos : ℕ) (w : World)
      → ReachableInTurns env w
      → (w.clients client).has_session ≡ true
      → (w' : World) × (subscribe client filter qos w ≡ some (valid_filter filter, w')) × TreeOk w'
  ReachableInTurns-subscribe client filter qos w r session =
      subscribe-StorageOk client filter qos w (ReachableInTurns-TreeOk w r)
