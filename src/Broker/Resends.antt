-- ===== src/Broker/Resends.antt =====
-- What `Retry` sends over time.
use gott.Common.{
  ℕ, zero, suc, ◌+◌, Bool, true, false, List, [], ◌∷◌, ◌++◌, some, ◌≡◌, refl, sym, ap, subst, ◌∙◌,
  inl, inr, Option-cases, append_assoc, append-nil, arith,
}
use gott.Types.{
  Status, unacknowledged, puback_received, pubrec_received, pubrel_received, pubcomp_received,
}
use gott.Packets.{make_publish_with_id}
use gott.Broker.{World, Event, connected_of}
use gott.Broker.Retry.{Stage, waiting, resending, returned, resend, look, retry_step}

-- The delivery is complete.
abbrev pub acknowledged : Status → Bool
acknowledged unacknowledged = false
acknowledged puback_received = true
acknowledged pubrec_received = false
acknowledged pubrel_received = false
acknowledged pubcomp_received = true

look-acknowledged : (s : Status) → acknowledged s ≡ true → look s ≡ returned
unfolding look
look-acknowledged unacknowledged h = cc
look-acknowledged puback_received h = refl
look-acknowledged pubrec_received h = cc
look-acknowledged pubrel_received h = cc
look-acknowledged pubcomp_received h = refl

resend-acknowledged :
    (i m c : ℕ) (s : Status) (w : World) → acknowledged s ≡ true → resend i m c s w ≡ (returned, w)
unfolding resend
resend-acknowledged i m c unacknowledged w h = cc
resend-acknowledged i m c puback_received w h = refl
resend-acknowledged i m c pubrec_received w h = cc
resend-acknowledged i m c pubrel_received w h = cc
resend-acknowledged i m c pubcomp_received w h = refl

-- Once the delivery is complete, `Retry` returns when its sleep ends, whichever sleep that is, and
-- sends nothing.
pub retry_step-acknowledged :
    (packet_id m : ℕ) (stage : Stage) (w : World)
    → acknowledged (w.messages m).status ≡ true
    → retry_step packet_id m stage w ≡ (returned, w)
unfolding retry_step
retry_step-acknowledged i m waiting w h =
    elim (Option-cases (connected_of w.clients (w.messages m).client)) [
      | inl e ↦ rw (e, retry_step) refl
      | inr (c, e) ↦ rw (e, retry_step, look-acknowledged (w.messages m).status h) refl
    ]
retry_step-acknowledged i m resending w h =
    elim (Option-cases (connected_of w.clients (w.messages m).client)) [
      | inl e ↦ rw (e, retry_step) refl
      | inr (c, e) ↦ rw (e, retry_step) (resend-acknowledged i m c (w.messages m).status w h)
    ]
retry_step-acknowledged i m returned w h = refl

-- The goroutine and the state after `n` sleeps.
unfoldable pub retry_steps : (packet_id m n : ℕ) → Stage → World → Stage × World
unfolding retry_step
retry_steps i m zero stage w = (stage, w)
retry_steps i m (suc n) stage w = (let r = retry_step i m stage w in retry_steps i m n r.0 r.1)

abbrev pub copies : ℕ → Event → List Event
copies zero e = []
copies (suc n) e = e ∷ copies n e

-- The packet that an unacknowledged message is sent again with: the DUP flag is set.
abbrev pub again : (packet_id m client : ℕ) → World → Event
again i m c w =
    let msg = w.messages m in
    Event.emitted c (make_publish_with_id i msg.topic msg.payload 1 msg.qos msg.retain)

round :
    (i m c : ℕ) (w : World)
    → (w.messages m).status ≡ unacknowledged
    → connected_of w.clients (w.messages m).client ≡ some c
    → (retry_step i m waiting w ≡ (resending, w))
      × (retry_step i m resending w
          ≡ (waiting, record w { events = w.events ++ again i m c w ∷ [] }))
unfolding retry_step look resend
round i m c w u e = (rw (e, retry_step, u) refl, rw (e, retry_step, u) refl)

two_rounds :
    (i m c k : ℕ) (w : World)
    → (w.messages m).status ≡ unacknowledged
    → connected_of w.clients (w.messages m).client ≡ some c
    → retry_steps i m (suc (suc k)) waiting w
      ≡ retry_steps i m k waiting (record w { events = w.events ++ again i m c w ∷ [] })
unfolding retry_steps
two_rounds i m c k w u e = let r = round i m c w u e in rw (r.0, r.1) refl

double : (n : ℕ) → suc (suc (n + n)) ≡ suc n + suc n
double n = omega arith

-- While its message stays unacknowledged and its client connected, `Retry` sends the PUBLISH packet
-- again at the end of every second sleep, with the DUP flag set and the same identifier.
pub retry_steps-unacknowledged :
    (packet_id m c n : ℕ) (w : World)
    → (w.messages m).status ≡ unacknowledged
    → connected_of w.clients (w.messages m).client ≡ some c
    → retry_steps packet_id m (n + n) waiting w
      ≡ (waiting, record w { events = w.events ++ copies n (again packet_id m c w) })
unfolding retry_steps
retry_steps-unacknowledged i m c zero w u e =
    ap (λ es. (waiting, record w { events = es })) (sym (append-nil w.events))
retry_steps-unacknowledged i m c (suc n) w u e =
    let w' = record w { events = w.events ++ again i m c w ∷ [] } in
    subst
      (λ k.
        retry_steps i m k waiting w
        ≡ (waiting, record w { events = w.events ++ copies (suc n) (again i m c w) }))
      (double n)
      (two_rounds i m c (n + n) w u e
        ∙ retry_steps-unacknowledged i m c n w' u e
        ∙ ap (λ es. (waiting, record w { events = es }))
            (append_assoc w.events (again i m c w ∷ []) (copies n (again i m c w))))
