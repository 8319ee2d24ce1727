-- ===== src/Witnesses/Sessions.antt =====
-- A persistent session whose client is away, with a subscription to "a", and its return.
use gott.Common.{
  ℕ, true, false, List, [], ◌∷◌, Option, none, some, Bytes, bytes_eq, split, ◌≡◌, ◌≢◌, refl,
}
use mathlib.Core.List.{Memᴰ}
use mathlib.Core.List.Memᴰ
use gott.Types.{Subscription, PublishFlags, ConnectFlags, unacknowledged, accepted, code_byte}
use gott.Session.{ClientMessage, Sessions}
use gott.Sequencer.{packet_seq}
use gott.Packets.{make_conn_ack, make_publish_with_id}
use gott.Topic.Filter.{valid_topic_name, valid_filter}
use gott.Topic.Level.{topic_delim}
use gott.Topic.Storage.{empty_storage, subscribe_segs}
use gott.Topic.Subscriptions.{create_or_update}
use gott.Topic.Changes.{TakenOut}
use gott.Topic.Insert.{same_path}
use gott.Topic.Paths.{Covers, subs_at, look}
use gott.Topic.Delivery.{StorageOk}
use gott.Topic.WellFormed.{empty_storage-StorageOk, subscribe_segs-StorageOk}
use gott.Broker.{World, Event, live_client}
use gott.Broker.Clients.{connecting, lookup_client}
use gott.Broker.Environment.{Environment}
use gott.Broker.Publish.{publish, is_unacknowledged}
use gott.Broker.Replay.{replay}
use gott.Broker.Subscribe.{unsubscribe}
use gott.Broker.Changed.{unsubscribe-TakenOut}
use gott.Broker.Stores.{Absent, Kept}
use gott.Broker.Absent.{publish-Kept}
use gott.Broker.Replayed.{ReplaysStore, replay-ReplaysStore}
use gott.Listen.{tcp, Link, done}
use gott.Listen.Connect.{accept}
use gott.Listen.Restored.{accept-restored}
use gott.Witnesses.Listen.{open_env}

abbrev a : Bytes
a = b'a' ∷ []

abbrev id : Bytes
id = b'c' ∷ []

abbrev flags : PublishFlags
flags = record { dup = 0; qos = 1; retain = false; packet_id = 0 }

-- Session 0 is persistent, and its client is gone; session 1 has client 0.
abbrev sessions : Sessions
sessions s = record {
  client = elim s [ ℕ.zero ↦ none | ℕ.suc _ ↦ some 0 ];
  clean = false;
  id = id;
  message_store = (7, 3) ∷ [];
}

abbrev message : ClientMessage
message = record {
  client = none;
  topic = a;
  payload = b'n' ∷ [];
  qos = 1;
  retain = 0;
  status = unacknowledged;
}

abbrev world : World
world = record {
  clients = λ _. record connecting { client_id = id };
  sessions = sessions;
  messages = λ _. message;
  fresh = 9;
  fresh_session = 2;
  registered = [];
  storage = subscribe_segs sessions id 0 1 (a ∷ []) empty_storage;
  message_store = [];
  packet_seq = packet_seq;
  events = [];
}

abbrev sub : Subscription
sub = record { session = 0; qos = 1 }

a-valid_topic_name : valid_topic_name a ≡ true
unfolding valid_topic_name
a-valid_topic_name = refl

a-Covers : Covers (a ∷ []) (split a topic_delim)
unfolding split
a-Covers = Covers.same refl Covers.end

sub-Memᴰ : Memᴰ sub (subs_at (a ∷ []) world.storage.filters)
unfolding look subscribe_segs create_or_update bytes_eq
sub-Memᴰ = Memᴰ.head refl

session-Absent : Absent world 0
unfolding live_client
session-Absent = record { away = refl; lasting = refl }

world-StorageOk : StorageOk world.storage
world-StorageOk =
    subscribe_segs-StorageOk sessions id 0 1 (a ∷ []) empty_storage tt empty_storage-StorageOk

publish-Kept_example : Kept id a (b'n' ∷ []) (publish a (b'n' ∷ []) flags 7 world).1.events
publish-Kept_example =
    publish-Kept a (b'n' ∷ []) flags 7 world (a ∷ []) sub world-StorageOk a-valid_topic_name
      a-Covers sub-Memᴰ session-Absent refl

-- The filter "a/#", by which the client subscribes at "a/#" and at "a".
abbrev a_multi : Bytes
a_multi = b'a' ∷ b'/' ∷ b'#' ∷ []

a-valid_filter : valid_filter a ≡ true
unfolding valid_filter
a-valid_filter = refl

unsubscribe-TakenOut_example :
    (same_path (a ∷ []) (split a topic_delim) ≡ true
      → TakenOut sessions id
          (subs_at (a ∷ []) world.storage.filters)
          (subs_at (a ∷ []) (unsubscribe 0 a world).1.storage.filters))
    × (same_path (a ∷ []) (split a topic_delim) ≡ false
        → subs_at (a ∷ []) (unsubscribe 0 a world).1.storage.filters
          ≡ subs_at (a ∷ []) world.storage.filters)
unsubscribe-TakenOut_example = unsubscribe-TakenOut 0 a world a-valid_filter a []

replay-ReplaysStore_example : ReplaysStore 0 ((7, 3) ∷ []) world (replay 1 world)
replay-ReplaysStore_example = replay-ReplaysStore 1 0 world refl refl refl

-- The session database has the message.
abbrev stored_env : Environment
stored_env = record open_env { exists = λ es id. true; stored = λ es id. some ((7, message) ∷ []) }

abbrev connect_flags : ConnectFlags
connect_flags = record {
  clean_session = false;
  will_flag = false;
  will_retain = false;
  password_flag = false;
  user_name_flag = false;
  will_qos = 0;
}

abbrev link : Link
link = record { input = tcp []; world = world }

none_ne : ◌≢◌ {A = Option ℕ} none (some 0)
none_ne e = cc

accept-restored_example :
    (w : World) × (accept stored_env 0 (record connect_flags { clean_session = false }) link
      ≡ (done tt, record link { world = w }))
    × Memᴰ (Event.emitted 0 (make_conn_ack 1 (code_byte accepted))) w.events
    × Memᴰ (Event.emitted 0 (make_publish_with_id 7 a (b'n' ∷ []) 0 1 0)) w.events
unfolding lookup_client is_unacknowledged
accept-restored_example =
    accept-restored stored_env 0 connect_flags ((7, message) ∷ []) link 7 message refl none_ne refl
      refl refl (λ es i u p. refl) (λ j n m. absurd (Memᴰ.not-nil m), tt) (Memᴰ.head refl) refl refl
