-- ===== src/Broker/Departure.antt =====
-- A client's `disconnect` keeps the topic tree well formed.
use gott.Common.{
  ℕ, Bool, true, false, List, [], ◌∷◌, Option, none, some, Bytes, ◌≡◌, refl, inl, inr, ◌⊎◌,
  Bool-cases,
}
use gott.Types.{Message}
use gott.Broker.{World}
use gott.Broker.Environment.{Environment}
use gott.Broker.Publish.{publish}
use gott.Broker.Subscribe.{unsubscribe_all}
use gott.Broker.WellFormed.{TreeOk, publish-StorageOk, unsubscribe_all-StorageOk}
use gott.Broker.Clients.{
  close_connection, remove_client, publish_will, disconnect, tell_disconnect, will_flags,
}

publish_will-StorageOk :
    (env : Environment) (client : ℕ) (o : Option Message) (w : World)
    → TreeOk w
    → TreeOk (publish_will env client o w)
unfolding publish_will
publish_will-StorageOk env client none w ok = ok
publish_will-StorageOk env client (some m) w ok =
    let c = w.clients client in
    let may =
      env.before_publish w.events c.client_id c.username m.topic m.payload 0 m.qos m.retain in
    let p = publish m.topic m.payload (will_flags m) (env.clock w.events) w in
    let good = publish-StorageOk m.topic m.payload (will_flags m) (env.clock w.events) w ok in
    elim (Bool-cases may) [
      | inr e ↦ rw e ok
      | inl e ↦ elim (Bool-cases p.0) [ inl f ↦ rw (e, f) good | inr f ↦ rw (e, f) good ]
    ]

close_connection-TreeOk : (client : ℕ) (w : World) → TreeOk w → TreeOk (close_connection client w)
unfolding close_connection
close_connection-TreeOk client w ok = ok

remove_client-TreeOk : (id : Bytes) (w : World) → TreeOk w → TreeOk (remove_client id w)
unfolding remove_client
remove_client-TreeOk id w ok = ok

tell_disconnect-TreeOk :
    (client : ℕ) (connected graceful : Bool) (w : World)
    → TreeOk w
    → TreeOk (tell_disconnect client connected graceful w)
unfolding tell_disconnect
tell_disconnect-TreeOk client false g w ok = ok
tell_disconnect-TreeOk client true g w ok = ok

List-cases : {A : Type 0} (xs : List A) → (xs ≡ []) ⊎ ((x : A) × (ys : List A) × (xs ≡ x ∷ ys))
List-cases [] = inl refl
List-cases (x ∷ xs) = inr (x, xs, refl)

-- `disconnect`, whether it panics or not.
pub disconnect-StorageOk :
    (env : Environment) (client : ℕ) (w : World) → TreeOk w → TreeOk (disconnect env client w).1
unfolding disconnect
disconnect-StorageOk env client w ok =
    let c = w.clients client in
    let gone = remove_client c.client_id (close_connection client w) in
    let purged = unsubscribe_all client gone in
    let fine = unsubscribe_all-StorageOk client gone (
      remove_client-TreeOk c.client_id (close_connection client w)
        (close_connection-TreeOk client w ok)) in
    let willed = publish_will-StorageOk env client c.will_message purged.1 fine in
    elim (List-cases c.client_id) [
      | inl e ↦ rw (e, disconnect) (close_connection-TreeOk client w ok)
      | inr (x, xs, e) ↦ elim (Bool-cases purged.0) [
        | inl p ↦ rw (e, p, disconnect) fine
        | inr p ↦
            rw (e, p, disconnect)
              (tell_disconnect-TreeOk client c.connected c.graceful_disconnect
                (publish_will env client c.will_message purged.1) willed)
      ]
    ]
