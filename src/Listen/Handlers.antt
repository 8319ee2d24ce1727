-- ===== src/Listen/Handlers.antt =====
-- The handlers of `listen`: each leaves a shorter input at most, and a well-formed topic tree.
use gott.Common.{ℕ, ◌≤◌, Bool, List, [], ◌∷◌, Option, none, some, Bytes, arith}
use gott.Types.{Status, Filter, PublishFlags}
use gott.Session.{ClientMessage}
use gott.Broker.{World}
use gott.Broker.Environment.{Environment}
use gott.Broker.Publish as Broker_Publish
use gott.Broker.Subscribe as Broker_Subscribe
use gott.Broker.WellFormed.{TreeOk, acknowledge-storage, publish-StorageOk, unsubscribe-StorageOk}
use gott.Broker.EndToEnd.{subscribe-StorageOk}
use gott.Broker.Replay
use gott.Listen.{remaining, Link, done}
use gott.Listen.Acks.{
  acknowledge_broker, acknowledge_both, acknowledge_session, on_pub_ack, on_pub_rec, on_pub_comp,
  on_pub_rel,
}
use gott.Listen.Publish.{
  Publication, read_publication, store_received, receive_at_2, forward, on_publish,
}
use gott.Listen.Filters.{
  read_request, subscribed, subscribe_one, subscribe_each, on_subscribe, unsubscribe_one,
  unsubscribe_each, on_unsubscribe,
}
use gott.Listen.Keeps.{Keeps, Keeps-world, Keeps-asked, keeps_rules}

acknowledge_broker-TreeOk :
    (i : ℕ) (s : Status) (r : Bool) (w : World) → TreeOk w → TreeOk (acknowledge_broker i s r w)
unfolding acknowledge_broker
acknowledge_broker-TreeOk i s r w h = h

acknowledge-TreeOk :
    (session i : ℕ) (s : Status) (r : Bool) (w : World)
    → TreeOk w
    → TreeOk (Replay.acknowledge session i s r w)
acknowledge-TreeOk session i s r w h = rw (acknowledge-storage session i s r w) h

acknowledge_session-TreeOk :
    (session i : ℕ) (s : Status) (r : Bool) (w : World)
    → TreeOk w
    → TreeOk (acknowledge_session session i s r w)
unfolding acknowledge_session
acknowledge_session-TreeOk session i s r w h = h

acknowledge_both-Keeps :
    (client rem_len : ℕ) (s : Status) (r : Bool) → Keeps (acknowledge_both client rem_len s r)
unfolding acknowledge_both
acknowledge_both-Keeps client rem_len s r =
    search (keeps_rules, acknowledge-TreeOk, acknowledge_broker-TreeOk) depth 20 fits 3000

pub on_pub_ack-Keeps : (client rem_len : ℕ) → Keeps (on_pub_ack client rem_len)
unfolding on_pub_ack
on_pub_ack-Keeps client rem_len = search (keeps_rules, acknowledge_both-Keeps)

pub on_pub_rec-Keeps : (client rem_len : ℕ) → Keeps (on_pub_rec client rem_len)
unfolding on_pub_rec
on_pub_rec-Keeps client rem_len = search (keeps_rules, acknowledge_both-Keeps)

pub on_pub_comp-Keeps : (client rem_len : ℕ) → Keeps (on_pub_comp client rem_len)
unfolding on_pub_comp
on_pub_comp-Keeps client rem_len = search (keeps_rules, acknowledge_both-Keeps)

pub on_pub_rel-Keeps : (client : ℕ) (bits : Bytes) → Keeps (on_pub_rel client bits)
unfolding on_pub_rel
on_pub_rel-Keeps client bits = search (keeps_rules, acknowledge_session-TreeOk) depth 20 fits 3000

-- PUBLISH.
read_publication-Keeps : (qos rem_len : ℕ) → Keeps (read_publication qos rem_len)
unfolding read_publication
read_publication-Keeps qos rem_len = search keeps_rules depth 20 fits 3000

store_received-TreeOk :
    (session i : ℕ) (m : ClientMessage) (w : World)
    → TreeOk w
    → TreeOk (store_received session i m w)
unfolding store_received
store_received-TreeOk session i m w h = h

receive_at_2-Keeps : (client dup : ℕ) (p : Publication) → Keeps (receive_at_2 client dup p)
unfolding receive_at_2
receive_at_2-Keeps client dup p = search (keeps_rules, store_received-TreeOk) depth 20 fits 3000

module _ (env : Environment) (client : ℕ) where
  published-Keeps :
      (topic payload : Bytes) (flags : PublishFlags)
      → Keeps (λ l.
        let (b, w) =
          Broker_Publish.publish topic payload flags (env.clock l.world.events) l.world in
        (done b, record l { world = w }))
  published-Keeps topic payload flags =
      Keeps-world (λ w. done (Broker_Publish.publish topic payload flags (env.clock w.events) w).0)
        (λ w. (Broker_Publish.publish topic payload flags (env.clock w.events) w).1)
        (λ w. publish-StorageOk topic payload flags (env.clock w.events) w)

  forward-Keeps : (flags : PublishFlags) (p : Publication) → Keeps (forward env client flags p)
  unfolding forward
  forward-Keeps flags p = search (keeps_rules, published-Keeps) depth 20 fits 3000

  pub on_publish-Keeps : (bits : Bytes) (rem_len : ℕ) → Keeps (on_publish env client bits rem_len)
  unfolding on_publish
  on_publish-Keeps bits rem_len =
      search (keeps_rules, read_publication-Keeps, receive_at_2-Keeps, forward-Keeps) depth 20 fits
        3000

read_request-Keeps : (bits : Bytes) (rem_len : ℕ) → Keeps (read_request bits rem_len)
unfolding read_request
read_request-Keeps bits rem_len = search keeps_rules depth 20 fits 3000

module _ (env : Environment) (client : ℕ) where
  subscribed-shorter :
      (l : Link) (o : Option (Bool × World))
      → remaining (subscribed env client o l).1.input ≤ remaining l.input
  subscribed-shorter l none = omega arith
  subscribed-shorter l (some (b, w)) = omega arith

  subscribed-Keeps :
      (f : Bytes) (qos : ℕ)
      → Keeps (λ l. subscribed env client (Broker_Subscribe.subscribe client f qos l.world) l)
  subscribed-Keeps f qos = record {
    at = λ l. record {
      shorter = subscribed-shorter l (Broker_Subscribe.subscribe client f qos l.world);
      tree = λ ok. let (w', e, ok') = subscribe-StorageOk client f qos l.world ok in rw e ok';
    };
  }

  subscribe_one-Keeps : (f : Filter) → Keeps (subscribe_one env client f)
  unfolding subscribe_one
  subscribe_one-Keeps f = search (keeps_rules, subscribed-Keeps) depth 20 fits 3000

  subscribe_each-Keeps : (fs : List Filter) → Keeps (subscribe_each env client fs)
  unfolding subscribe_each
  subscribe_each-Keeps [] = search keeps_rules
  subscribe_each-Keeps (f ∷ fs) =
      Keeps-asked _ (subscribe_one env client f) (subscribe_each env client fs)
        (subscribe_one-Keeps f) (subscribe_each-Keeps fs)

  pub on_subscribe-Keeps :
      (bits : Bytes) (rem_len : ℕ) → Keeps (on_subscribe env client bits rem_len)
  unfolding on_subscribe
  on_subscribe-Keeps bits rem_len =
      search (keeps_rules, read_request-Keeps, subscribe_each-Keeps) depth 20 fits 3000

  unsubscribed-Keeps :
      (f : Bytes)
      → Keeps (λ l.
        let (b, w) = Broker_Subscribe.unsubscribe client f l.world in
        (done b, record l { world = w }))
  unsubscribed-Keeps f =
      Keeps-world (λ w. done (Broker_Subscribe.unsubscribe client f w).0)
        (λ w. (Broker_Subscribe.unsubscribe client f w).1) (λ w. unsubscribe-StorageOk client f w)

  unsubscribe_one-Keeps : (f : Bytes) → Keeps (unsubscribe_one env client f)
  unfolding unsubscribe_one
  unsubscribe_one-Keeps f = search (keeps_rules, unsubscribed-Keeps) depth 20 fits 3000

  unsubscribe_each-Keeps : (fs : List Bytes) → Keeps (unsubscribe_each env client fs)
  unfolding unsubscribe_each
  unsubscribe_each-Keeps [] = search keeps_rules
  unsubscribe_each-Keeps (f ∷ fs) =
      Keeps-asked _ (unsubscribe_one env client f) (unsubscribe_each env client fs)
        (unsubscribe_one-Keeps f) (unsubscribe_each-Keeps fs)

  pub on_unsubscribe-Keeps :
      (bits : Bytes) (rem_len : ℕ) → Keeps (on_unsubscribe env client bits rem_len)
  unfolding on_unsubscribe
  on_unsubscribe-Keeps bits rem_len =
      search (keeps_rules, read_request-Keeps, unsubscribe_each-Keeps) depth 20 fits 3000
