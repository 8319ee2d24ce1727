-- ===== src/Listen/Connect.antt =====
-- The case `TypeConnect` of `listen`.
use gott.Common.{
  ℕ, suc, ◌+◌, ◌-◌, Bool, true, false, not, ◌&&◌, List, [], ◌∷◌, Option, none, some, Bytes,
  bytes_eq, length, if◌then◌else◌, ◌==◌, ltb, leb,
}
use gott.Common.Slices.{byte_in_slice}
use gott.Types.{
  ConnectFlags, ReturnCode, accepted, unacceptable_proto, id_rejected, code_byte,
  connect_var_header_len,
}
use gott.Session.{ClientMessage, MessageStore, update}
use gott.Session.Store
use gott.Topic.Filter.{byte_at}
use gott.Packets.{make_conn_ack}
use gott.Extractors.{slice, uint16_at, extract_connect_flags}
use gott.Broker.{World, Event, happen, allocate, put}
use gott.Broker.Environment.{Environment}
use gott.Broker.Clients.{add_client}
use gott.Broker.Replay.{replay}
use gott.Listen.{
  leave, done, Action, pure, ◌>>=◌, ◌>>◌, leave_if, when, gets, changes, emit, set_client, extract,
}
use gott.Listen.Read.{read_full}

abbrev mqtt : Bytes
mqtt = b'M' ∷ b'Q' ∷ b'T' ∷ b'T' ∷ []

-- `supportedProtocolVersions` of broker.go.
abbrev pub supported_protocol_versions : Bytes
supported_protocol_versions = 4 ∷ []

-- A CONNACK with an error code, before `break loop`.
abbrev pub refuse : (client : ℕ) → ReturnCode → Action (Unit {0})
refuse client code = emit client (make_conn_ack 0 (code_byte code)) >> leave_if true

-- A field with its length before it, at `head`: the field and the offset after it. An empty one, and
-- where `checked` is set one that does not fit the payload, breaks the loop.
unfoldable pub read_field : (payload : Bytes) (head : ℕ) (checked : Bool) → Action (Bytes × ℕ)
unfolding uint16_at slice
read_field payload head checked = do
  leave_if (checked && ltb (length payload) (head + 2))
  n ← extract (uint16_at payload head)
  leave_if (n == 0)
  leave_if (checked && ltb (length payload) (head + 2 + n))
  field ← extract (slice payload (head + 2) (head + 2 + n))
  leave_if (length field == 0)
  pure (field, head + 2 + n)

module _ (env : Environment) (client : ℕ) (flags : ConnectFlags) (payload : Bytes) where
  -- The client identifier, and the offset after it.
  unfoldable pub read_client_id : Action ℕ
  unfolding uint16_at slice make_conn_ack code_byte
  read_client_id = do
    n ← extract (uint16_at payload 0)
    when (n == 0 && not flags.clean_session) (refuse client id_rejected)
    leave_if (not (n == 0) && ltb (length payload) (2 + n))
    id ← extract (slice payload 2 (2 + n))
    new ← gets (λ w. env.new_id w.events)
    set_client client (λ c. record c { client_id = if n == 0 then new else id })
    pure (2 + n)

  unfoldable pub read_will : (head : ℕ) → Action ℕ
  unfolding read_field
  read_will head l =
      let set : Action ℕ = (do
        (topic, head₁) ← read_field payload head false
        (message, head₂) ← read_field payload head₁ false
        set_client client (λ c. record c {
          will_message = some (record {
            topic = topic;
            payload = message;
            qos = flags.will_qos;
            retain = flags.will_retain;
            timestamp = 0;
          });
        })
        pure head₂) in
      if flags.will_flag then set l else pure head l

  unfoldable pub read_username : (head : ℕ) → Action ℕ
  unfolding read_field
  read_username head l =
      let set : Action ℕ = (do
        (username, head₁) ← read_field payload head true
        set_client client (λ c. record c { username = username })
        pure head₁) in
      if flags.user_name_flag then set l else pure head l

  unfoldable pub read_password : (head : ℕ) → Action ℕ
  unfolding read_field
  read_password head l =
      let set : Action ℕ = (do
        (password, head₁) ← read_field payload head true
        set_client client (λ c. record c { password = password })
        pure head₁) in
      if flags.password_flag then set l else pure head l

-- `newSession`, which the client points at from then on.
unfoldable pub new_session : (client : ℕ) (clean : Bool) → World → World
new_session client clean w =
    let c = w.clients client in
    record w {
      sessions =
          update w.sessions w.fresh_session
            (record { client = some client; clean = clean; id = c.client_id; message_store = [] });
      fresh_session = suc w.fresh_session;
      clients =
          update w.clients client (record c { has_session = true; session = w.fresh_session });
    }

-- What `load` puts into the session's store: new messages without a client.
unfoldable pub load_messages :
    List (ℕ × ClientMessage) → MessageStore → World → MessageStore × World
unfolding Store.store
load_messages [] ms w = (ms, w)
load_messages ((packet_id, m) ∷ rest) ms w =
    let (address, w') = allocate (record m { client = none }) w in
    load_messages rest (Store.store packet_id address ms) w'

unfoldable pub load : (session : ℕ) → List (ℕ × ClientMessage) → World → World
unfolding load_messages
load session entries w =
    let (ms, w') = load_messages entries (w.sessions session).message_store w in
    record w' {
      sessions = update w'.sessions session (record (w'.sessions session) { message_store = ms });
    }

-- The session of an accepted client: the byte `sessionPresent`, which is none if `put` has failed, and
-- the state after it.
unfoldable pub open_session : Environment → (client : ℕ) (clean : Bool) → World → Option ℕ × World
unfolding new_session load
open_session env client clean w =
    let w₁ = new_session client clean w in
    let c = w₁.clients client in
    let forget = happen (Event.forgotten c.client_id) w₁ in
    if clean
    then (some 0, forget)
    else if env.exists w₁.events c.client_id
    then elim (env.stored w₁.events c.client_id) [
      | none ↦ (some 1, forget)
      | some entries ↦ (some 1, load c.session entries w₁)
    ]
    else if env.can_save w₁.events c.client_id
    then (some 0, put c.session w₁)
    else (none, put c.session w₁)

-- An optional value: `none` breaks the loop.
abbrev pub or_leave {ℓ} : {A : Type ℓ} → Option A × World → Action A
or_leave (none, w) l = (leave, record l { world = w })
or_leave (some a, w) l = (done a, record l { world = w })

unfoldable pub accept : Environment → (client : ℕ) → ConnectFlags → Action (Unit {0})
unfolding open_session add_client replay make_conn_ack code_byte
accept env client flags = do
  may ← gets (λ w.
      let c = w.clients client in env.before_connect w.events c.client_id c.username c.password)
  leave_if (not may)
  session_present ← λ l. or_leave (open_session env client flags.clean_session l.world) l
  changes (add_client client)
  emit client (make_conn_ack session_present (code_byte accepted))
  changes (λ w. replay (w.clients client).session w)
  stays ←
      gets (λ w. let c = w.clients client in env.connect w.events c.client_id c.username c.password)
  leave_if (not stays)

unfoldable pub on_connect : Environment → (client rem_len : ℕ) → Action (Unit {0})
unfolding read_full slice uint16_at extract_connect_flags byte_in_slice byte_at read_client_id
    read_will read_username read_password accept make_conn_ack code_byte
on_connect env client rem_len = do
  leave_if (leb rem_len connect_var_header_len)
  var_header ← read_full connect_var_header_len
  protocol_name_len ← extract (uint16_at var_header 0)
  leave_if (not (protocol_name_len == 4))
  protocol_name ← extract (slice var_header 2 6)
  leave_if (not (bytes_eq protocol_name mqtt))
  when (not (byte_in_slice (byte_at var_header 6) supported_protocol_versions))
      (refuse client unacceptable_proto)
  flags ← extract (extract_connect_flags (byte_at var_header 7))
  keep_alive ← extract (uint16_at var_header 8)
  set_client client (λ c. record c { keep_alive_secs = keep_alive })
  payload ← read_full (rem_len - connect_var_header_len)
  head ← read_client_id env client flags payload
  head₁ ← read_will env client flags payload head
  head₂ ← read_username env client flags payload head₁
  _ ← read_password env client flags payload head₂
  accept env client flags
