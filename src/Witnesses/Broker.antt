-- ===== src/Witnesses/Broker.antt =====
-- The broker with one connected client, a subscription to "a/+" and a publication on "a/x".
use gott.Common.{
  ◌+◌, true, false, ◌&&◌, [], ◌∷◌, ◌++◌, none, some, Bytes, split, if◌then◌else◌, ◌==◌, ◌≡◌, refl,
  ◌⊎◌, ◌↔◌,
}
use gott.Types.{unacknowledged, puback_received, PublishFlags}
use gott.Session.{ClientMessage, Sessions}
use gott.Session.Store.{get, acknowledge, sorted_entries}
use gott.Session.Sorted.{Lists, sorted_entries-Lists}
use gott.Session.Lookup.{found_at, acknowledge_lem}
use gott.Sequencer.{packet_seq}
use gott.Topic.Filter.{valid_filter, valid_topic_name}
use gott.Topic.Level.{topic_delim}
use gott.Topic.Storage.{empty_storage}
use gott.Topic.Paths.{Matches}
use gott.Topic.WellFormed.{empty_storage-StorageOk}
use gott.Broker.{World, Client, live_client}
use gott.Broker.Publish.{publish}
use gott.Broker.Subscribe.{subscribe}
use gott.Broker.Retry.{waiting, resending, returned, retry_step}
use gott.Broker.Reach.{Sent}
use gott.Broker.Delivers.{Reaches, publish-Sent_iff}
use gott.Broker.EndToEnd.{subscribe-publish}
use gott.Broker.Resends.{
  retry_step-acknowledged, retry_steps, retry_steps-unacknowledged, copies, again,
}

abbrev a_plus : Bytes
a_plus = b'a' ∷ b'/' ∷ b'+' ∷ []

abbrev a_x : Bytes
a_x = b'a' ∷ b'/' ∷ b'x' ∷ []

abbrev flags : PublishFlags
flags = record { dup = 0; qos = 1; retain = false; packet_id = 0 }

abbrev client : Client
client = record {
  connected = true;
  graceful_disconnect = false;
  client_id = b'c' ∷ [];
  will_message = none;
  username = [];
  password = [];
  keep_alive_secs = 0;
  has_session = true;
  session = 1;
}

abbrev sessions : Sessions
sessions _ = record { client = some 0; clean = true; id = b'c' ∷ []; message_store = [] }

abbrev message : ClientMessage
message = record {
  client = some 0;
  topic = a_x;
  payload = b'n' ∷ [];
  qos = 1;
  retain = 0;
  status = unacknowledged;
}

abbrev world : World
world = record {
  clients = λ _. client;
  sessions = sessions;
  messages = λ _. message;
  fresh = 0;
  fresh_session = 2;
  registered = [];
  storage = empty_storage;
  message_store = [];
  packet_seq = packet_seq;
  events = [];
}

a_plus-valid_filter : valid_filter a_plus ≡ true
unfolding valid_filter
a_plus-valid_filter = refl

a_x-valid_topic_name : valid_topic_name a_x ≡ true
unfolding valid_topic_name
a_x-valid_topic_name = refl

a_plus-Matches : Matches (split a_plus topic_delim) (split a_x topic_delim)
unfolding split
a_plus-Matches = Matches.same refl (Matches.single refl Matches.end)

world-live : live_client world 1 ≡ some 0
unfolding live_client
world-live = refl

subscribe-publish_example :
    (w' : World) × (subscribe 0 a_plus 1 world ≡ some (true, w'))
    × Sent 0 (publish a_x (b'n' ∷ []) flags 7 (record w' { events = [] })).1.events
subscribe-publish_example =
    subscribe-publish 0 a_plus a_x (b'n' ∷ []) 1 7 flags world empty_storage-StorageOk
      a_plus-valid_filter a_x-valid_topic_name a_plus-Matches world-live

publish-Sent_iff_example :
    Sent 0 (publish a_x (b'n' ∷ []) flags 7 world).1.events
    ↔ (Sent 0 [] ⊎ Reaches world (split a_x topic_delim) 0)
publish-Sent_iff_example =
    publish-Sent_iff a_x (b'n' ∷ []) flags 7 world 0 empty_storage-StorageOk a_x-valid_topic_name

retry_steps-unacknowledged_example :
    retry_steps 5 2 (3 + 3) waiting world
    ≡ (waiting, record world { events = [] ++ copies 3 (again 5 2 0 world) })
retry_steps-unacknowledged_example = retry_steps-unacknowledged 5 2 0 3 world refl refl

-- The same state where the message is acknowledged.
abbrev acknowledged_world : World
acknowledged_world = record world { messages = λ _. record message { status = puback_received } }

retry_step-acknowledged_example :
    retry_step 5 2 resending acknowledged_world ≡ (returned, acknowledged_world)
retry_step-acknowledged_example = retry_step-acknowledged 5 2 resending acknowledged_world refl

sorted_entries-Lists_example :
    Lists ((5, 1) ∷ (3, 4) ∷ (5, 9) ∷ []) (sorted_entries ((5, 1) ∷ (3, 4) ∷ (5, 9) ∷ []))
sorted_entries-Lists_example = sorted_entries-Lists ((5, 1) ∷ (3, 4) ∷ (5, 9) ∷ [])

acknowledge_lem_example :
    ((acknowledge 5 puback_received true (λ _. message) ((5, 1) ∷ [])).0 1 ≡ (
      if found_at 5 1 ((5, 1) ∷ []) then record message { status = puback_received } else message))
    × (get 5 (acknowledge 5 puback_received true (λ _. message) ((5, 1) ∷ [])).1
        ≡ (if true && (5 == 5) then none else get 5 ((5, 1) ∷ [])))
acknowledge_lem_example = acknowledge_lem 5 puback_received true (λ _. message) ((5, 1) ∷ []) 5 1
