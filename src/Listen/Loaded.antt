-- ===== src/Listen/Loaded.antt =====
-- What `load` makes of the entries that the session database has stored.
use gott.Common.{
  ℕ, ◌<◌, true, false, List, [], ◌∷◌, none, some, ◌==◌, ==_iff, ◌≡◌, ◌≢◌, refl, sym, subst, ◌∙◌,
  arith,
}
use mathlib.Core.List.{Memᴰ}
use mathlib.Core.List.Memᴰ
use gott.Session.{ClientMessage, MessageStore, update, update_self}
use gott.Session.Store
use gott.Session.Store.{Messages, get, sorted_entries}
use gott.Session.Lookup.{get-store}
use gott.Session.Sorted.{get-Memᴰ, get-sorted_entries}
use gott.Broker.{World, Event, allocate}
use gott.Packets.{make_publish_with_id}
use gott.Broker.Publish.{is_unacknowledged}
use gott.Broker.Replayed.{entry_events, replayed, whole_entry}
use gott.Listen.Connect.{load_messages}

-- No two entries have one identifier, as in a Go map.
abbrev pub Distinct : List (ℕ × ClientMessage) → Type 0
Distinct [] = Unit
Distinct ((i, m) ∷ rest) = ((j : ℕ) (n : ClientMessage) → Memᴰ (j, n) rest → j ≢ i) × Distinct rest

-- The message stands under the identifier, without a client.
abbrev pub Holds : (i : ℕ) → ClientMessage → MessageStore × World → Type 0
Holds i cm p = (a : ℕ) × (get i p.0 ≡ some a) × (p.1.messages a ≡ record cm { client = none })

update_ne : {A : Type 0} (h : ℕ → A) (p : ℕ) (v : A) (q : ℕ) → q ≢ p → update h p v q ≡ h q
update_ne h p v q n = ground (arith)

-- Later entries of other identifiers leave it there.
load_messages-keeps :
    (entries : List (ℕ × ClientMessage)) (ms : MessageStore) (w : World) (i a : ℕ)
    → ((j : ℕ) (n : ClientMessage) → Memᴰ (j, n) entries → j ≢ i)
    → a < w.fresh
    → get i ms ≡ some a
    → (get i (load_messages entries ms w).0 ≡ some a)
      × ((load_messages entries ms w).1.messages a ≡ w.messages a)
unfolding load_messages
load_messages-keeps [] ms w i a n h g = (g, refl)
load_messages-keeps ((j, m) ∷ rest) ms w i a n h g =
    let (address, w') = allocate (record m { client = none }) w in
    let ne : j ≢ i = n j m (Memᴰ.head refl) in
    let other : (i == j) ≡ false = ground arith in
    let kept : get i (Store.store j address ms) ≡ some a = get-store j address i ms ∙ rw other g in
    let (e, f) =
      load_messages-keeps rest (Store.store j address ms) w' i a (λ k n' m'. n k n' (Memᴰ.tail m'))
        (omega (arith, h)) kept in
    (e, f ∙ update_ne w.messages w.fresh (record m { client = none }) a (omega (arith, h)))

load_messages-first :
    (j : ℕ) (n : ClientMessage) (rest : List (ℕ × ClientMessage)) (ms : MessageStore) (w : World)
    → ((k : ℕ) (n' : ClientMessage) → Memᴰ (k, n') rest → k ≢ j)
    → Holds j n (load_messages ((j, n) ∷ rest) ms w)
unfolding load_messages
load_messages-first j n rest ms w d =
    let (address, w') = allocate (record n { client = none }) w in
    let (e, f) =
      load_messages-keeps rest (Store.store j address ms) w' j w.fresh d (omega arith)
        (get-store j address j ms ∙ rw ((==_iff j j).1 refl) refl) in
    (w.fresh, e, f ∙ update_self w.messages w.fresh (record n { client = none }))

load_messages-Holds :
    (entries : List (ℕ × ClientMessage)) (ms : MessageStore) (w : World) (i : ℕ)
    (cm : ClientMessage)
    → Distinct entries
    → Memᴰ (i, cm) entries
    → Holds i cm (load_messages entries ms w)
unfolding load_messages
load_messages-Holds [] ms w i cm d m = elim m [ ]
load_messages-Holds ((j, n) ∷ rest) ms w i cm (d, ds) (Memᴰ.head e) =
    subst (λ (p : ℕ × ClientMessage). Holds p.0 p.1 (load_messages ((j, n) ∷ rest) ms w)) (sym e)
      (load_messages-first j n rest ms w d)
load_messages-Holds ((j, n) ∷ rest) ms w i cm (d, ds) (Memᴰ.tail m) =
    let (address, w') = allocate (record n { client = none }) w in
    load_messages-Holds rest (Store.store j address ms) w' i cm ds m

replayed-Memᴰ :
    (client : ℕ) (messages : Messages) (ms : MessageStore) (i a : ℕ) (ev : Event)
    → Memᴰ (i, a) ms
    → Memᴰ ev (entry_events client i a (messages a))
    → Memᴰ ev (replayed client messages ms)
replayed-Memᴰ client messages [] i a ev m h = elim m [ ]
replayed-Memᴰ client messages ((j, b) ∷ ms) i a ev (Memᴰ.head e) h =
    Memᴰ.append_left _
      (subst (λ (p : ℕ × ℕ). Memᴰ ev (entry_events client p.0 p.1 (messages p.1))) e h)
replayed-Memᴰ client messages ((j, b) ∷ ms) i a ev (Memᴰ.tail m) h =
    Memᴰ.append_right (entry_events client j b (messages b))
      (replayed-Memᴰ client messages ms i a ev m h)

-- An unacknowledged message above QoS 0 that was stored is among those that are sent.
pub loaded-sent :
    (client : ℕ) (entries : List (ℕ × ClientMessage)) (w : World) (i : ℕ) (cm : ClientMessage)
    → Distinct entries
    → Memᴰ (i, cm) entries
    → (cm.qos == 0) ≡ false
    → is_unacknowledged cm.status ≡ true
    → let p = load_messages entries [] w in
      Memᴰ
        (Event.emitted client (make_publish_with_id i cm.topic cm.payload 0 cm.qos 0))
        (replayed client p.1.messages (sorted_entries p.0))
loaded-sent client entries w i cm d m q u =
    let p = load_messages entries [] w in
    let (a, g, e) = load_messages-Holds entries [] w i cm d m in
    let sent : Event =
      Event.emitted client (make_publish_with_id i cm.topic cm.payload 0 cm.qos 0) in
    let sorted = get-sorted_entries i p.0 ∙ g in
    replayed-Memᴰ client p.1.messages (sorted_entries p.0) i a sent
      (get-Memᴰ i a (sorted_entries p.0) sorted)
      (subst (λ (n : ClientMessage). Memᴰ sent (entry_events client i a n)) (sym e)
        (subst (Memᴰ sent) (sym (whole_entry client i a (record cm { client = none }) q u))
          (Memᴰ.head refl)))
