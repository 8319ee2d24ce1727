-- ===== src/Listen/Acknowledged.antt =====
-- What the acknowledgements of a client do to the stores.
use gott.Common.{
  ℕ, ◌+◌, ◌*◌, Bool, true, ◌&&◌, List, ◌∷◌, none, if◌then◌else◌, ◌==◌, ◌≡◌, refl, ap, ◌∙◌,
  Bool-cases, inl, inr, bytes_eq,
}
use gott.Topic.Filter.{byte_at}
use gott.Types.{Status, puback_received, pubrel_received}
use gott.Session.{update, update_self}
use gott.Session.Store
use gott.Session.Lookup.{acknowledge_lem}
use gott.Packets.{make_pub_comp}
use gott.Extractors.{uint16}
use gott.Broker
use gott.Broker.{World}
use gott.Broker.Replay
use gott.Listen.{tcp, Arrival, done}
use gott.Listen.Read.{full, read_full}
use gott.Listen.Acks.{
  acknowledge_broker, acknowledge_both, on_pub_ack, acknowledge_session, on_pub_rel, flags_0010,
}

-- The state after both stores were told.
abbrev pub acknowledged : (session packet_id : ℕ) → Status → (remove : Bool) → World → World
acknowledged session i status remove w =
    Replay.acknowledge session i status remove (acknowledge_broker i status remove w)

acknowledged-broker :
    (session i : ℕ) (status : Status) (remove : Bool) (w : World) (j : ℕ)
    → Store.get j (acknowledged session i status remove w).message_store
      ≡ (if remove && (j == i) then none else Store.get j w.message_store)
unfolding Replay.acknowledge acknowledge_broker
acknowledged-broker session i status remove w j = elim (Bool-cases (w.sessions session).clean) [
  | inl e ↦
      rw (e, Replay.acknowledge) (acknowledge_lem i status remove w.messages w.message_store j 0).1
  | inr e ↦
      rw (e, Replay.acknowledge) (acknowledge_lem i status remove w.messages w.message_store j 0).1
]

acknowledge-sessions :
    (session i : ℕ) (status : Status) (remove : Bool) (w : World)
    → let s = w.sessions session in
      (Replay.acknowledge session i status remove w).sessions
      ≡ update w.sessions session (record s {
        message_store = (Store.acknowledge i status remove w.messages s.message_store).1;
      })
unfolding Replay.acknowledge
acknowledge-sessions session i status remove w = elim (Bool-cases (w.sessions session).clean) [
  | inl e ↦ simp e refl
  | inr e ↦ simp e refl
]

acknowledged-session :
    (session i : ℕ) (status : Status) (remove : Bool) (w : World) (j : ℕ)
    → Store.get j ((acknowledged session i status remove w).sessions session).message_store
      ≡ (if remove && (j == i) then none else Store.get j (w.sessions session).message_store)
unfolding acknowledge_broker
acknowledged-session session i status remove w j =
    let w₁ = acknowledge_broker i status remove w in
    ap (λ h. Store.get j (h session).message_store)
      (acknowledge-sessions session i status remove w₁)
    ∙ (ap (λ s. Store.get j s.message_store) (update_self w₁.sessions session _)
        ∙ (acknowledge_lem i status remove w₁.messages (w.sessions session).message_store j 0).1)

-- For a client with a session and a TCP connection, a PUBACK packet of two bytes takes the message of its identifier
-- out of the broker's store and out of the session's, and leaves every other identifier as it
-- was in both.
pub on_pub_ack-get :
    (client : ℕ) (hi lo : Arrival) (rest : List Arrival) (w : World)
    → (w.clients client).has_session ≡ true
    → let i = hi.byte * 256 + lo.byte in
      let session = (w.clients client).session in
      (w' : World) × (on_pub_ack client 2 (record { input = tcp (hi ∷ lo ∷ rest); world = w })
        ≡ (done tt, record { input = tcp rest; world = w' }))
      × ((j : ℕ)
          → Store.get j w'.message_store ≡ (if j == i then none else Store.get j w.message_store))
      × ((j : ℕ)
          → Store.get j (w'.sessions session).message_store
            ≡ (if j == i then none else Store.get j (w.sessions session).message_store))
unfolding on_pub_ack acknowledge_both read_full full uint16
on_pub_ack-get client hi lo rest w s =
    let i = hi.byte * 256 + lo.byte in
    let session = (w.clients client).session in
    (
      acknowledged session i puback_received true w,
      simp s refl,
      λ j. acknowledged-broker session i puback_received true w j,
      λ j. acknowledged-session session i puback_received true w j,
    )

acknowledge_session-get :
    (session i : ℕ) (status : Status) (remove : Bool) (w : World) (j : ℕ)
    → Store.get j ((acknowledge_session session i status remove w).sessions session).message_store
      ≡ (if remove && (j == i) then none else Store.get j (w.sessions session).message_store)
unfolding acknowledge_session
acknowledge_session-get session i status remove w j =
    ap (λ s. Store.get j s.message_store) (update_self w.sessions session _)
    ∙ (acknowledge_lem i status remove w.messages (w.sessions session).message_store j 0).1

-- For a client with a session and a TCP connection, a PUBREL packet with the flags that MQTT asks for takes the
-- message of its identifier out of the session's store, and leaves every other identifier there
-- and the whole of the broker's store; and it is answered by PUBCOMP.
pub on_pub_rel-get :
    (client : ℕ) (hi lo : Arrival) (rest : List Arrival) (w : World)
    → (w.clients client).has_session ≡ true
    → let i = hi.byte * 256 + lo.byte in
      let session = (w.clients client).session in
      (w' : World) × (on_pub_rel client flags_0010
          (record { input = tcp (hi ∷ lo ∷ rest); world = w })
        ≡ (
          done tt,
          record {
            input = tcp rest;
            world = Broker.emit client (make_pub_comp (hi.byte, lo.byte)) w';
          },
        ))
      × (w'.message_store ≡ w.message_store)
      × ((j : ℕ)
          → Store.get j (w'.sessions session).message_store
            ≡ (if j == i then none else Store.get j (w.sessions session).message_store))
unfolding on_pub_rel read_full full uint16 bytes_eq byte_at acknowledge_session
on_pub_rel-get client hi lo rest w s =
    let i = hi.byte * 256 + lo.byte in
    let session = (w.clients client).session in
    (
      acknowledge_session session i pubrel_received true w,
      simp s refl,
      refl,
      λ j. acknowledge_session-get session i pubrel_received true w j,
    )
