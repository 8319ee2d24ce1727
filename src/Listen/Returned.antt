-- ===== src/Listen/Returned.antt =====
-- How a client that has its session back is entered, greeted and sent what is stored.
use gott.Common.{
  ℕ, true, false, [], ◌∷◌, ◌++◌, Option, none, some, Bytes, ◌==◌, ==_iff, ◌≡◌, ◌≢◌, refl, sym, ap,
  ap₂, ◌∙◌, inl, inr, Bool-cases,
}
use gott.Types.{accepted, code_byte}
use gott.Session.{Sessions}
use gott.Session.Store.{Messages, sorted_entries}
use gott.Packets.{make_conn_ack}
use gott.Broker
use gott.Broker.{World, Client, Event, happen, allocate}
use gott.Broker.Clients.{add_client, lookup_client, close_existing, close_connection}
use gott.Broker.Replay.{replay}
use gott.Broker.Replayed.{replayed, replay-sorted}
use gott.Listen.Accepted.{add_client-session, add_client-sessions, close_existing-events, closing}

close_existing-connected :
    (o : Option ℕ) (client : ℕ) (w : World)
    → o ≢ some client
    → ((close_existing o w).clients client).connected ≡ (w.clients client).connected
unfolding close_existing close_connection
close_existing-connected none client w n = refl
close_existing-connected (some old) client w n = elim (Bool-cases (client == old)) [
  | inl e ↦ absurd (n (ap some (sym ((==_iff client old).0 e))))
  | inr e ↦ rw e refl
]

close_existing-messages : (o : Option ℕ) (w : World) → (close_existing o w).messages ≡ w.messages
unfolding close_existing close_connection
close_existing-messages none w = refl
close_existing-messages (some old) w = refl

abbrev pub ack : Bytes
ack = make_conn_ack 1 (code_byte accepted)

-- The client that stands under the identifier, and the state when CONNACK has been sent.
abbrev pub old : (client : ℕ) → World → Option ℕ
old client b = lookup_client (b.clients client).client_id b.registered

abbrev pub met : (client : ℕ) → World → World
met client b = Broker.emit client ack (add_client client b)

module _ (client session : ℕ) (b : World) (points : (b.clients client).session ≡ session)
    (lasting : (b.sessions session).clean ≡ false)
    (owned : (b.sessions session).client ≡ some client)
    (connected : (b.clients client).connected ≡ true)
    (new : lookup_client (b.clients client).client_id b.registered ≢ some client) where
  met-session : ((met client b).clients client).session ≡ session
  met-session = add_client-session client b ∙ points

  met-sessions : (met client b).sessions ≡ b.sessions
  met-sessions = add_client-sessions client b

  met-messages : (met client b).messages ≡ b.messages
  unfolding add_client
  met-messages = close_existing-messages (old client b) b

  met-connected : ((met client b).clients client).connected ≡ true
  unfolding add_client
  met-connected = close_existing-connected (old client b) client b new ∙ connected

  met-events :
      (met client b).events ≡ (b.events ++ closing (old client b)) ++ Event.emitted client ack ∷ []
  unfolding add_client
  met-events =
      ap (λ es. es ++ Event.emitted client ack ∷ []) (close_existing-events (old client b) b)

  pub met-replay :
      (replay ((met client b).clients client).session (met client b)).events
      ≡ ((b.events ++ closing (old client b)) ++ Event.emitted client ack ∷ [])
        ++ replayed client b.messages (sorted_entries (b.sessions session).message_store)
  met-replay =
      ap (λ s. (replay s (met client b)).events) met-session
      ∙ (replay-sorted session client (met client b)
            (ap (λ (h : Sessions). (h session).clean) met-sessions ∙ lasting)
            (ap (λ (h : Sessions). (h session).client) met-sessions ∙ owned) met-connected
          ∙ ap₂ (λ a c. a ++ c) met-events
              (ap₂
                (λ (f : Messages) (h : Sessions).
                  replayed client f (sorted_entries (h session).message_store))
                met-messages met-sessions))
